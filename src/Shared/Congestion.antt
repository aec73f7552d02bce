-- ===== src/Shared/Congestion.antt =====
-- shared/transport/congestion_gcc.cpp and congestion_gcc.hpp: the bitrate that the network admits, from
-- delays and losses. Floating point is a parameter.
pub mod Bitrate
pub mod History
mod Tests
use ultra_display_os.Prelude.{
  ℕ, ◌+◌, ◌*◌, ◌-◌, Bool, true, false, not, ◌&&◌, Option, none, some, List, [], ◌∷◌, ◌++◌, ltb, leb,
  ◌==◌, if◌then◌else◌, length,
}
use ultra_display_os.Shared.Float.{Floats}

pub record PacketInfo : Type 0 where
  pub sequence_number : ℕ  -- uint16
  pub size : ℕ
  pub send_time : ℕ  -- Timestamp

pub record Congestion (Double Single : Type 0) : Type 0 where
  pub target_bitrate_bps : ℕ
  pub min_bitrate_bps : ℕ
  pub max_bitrate_bps : ℕ
  pub history : List PacketInfo
  pub trendline_slope : Double
  pub last_arrival_time : ℕ
  pub last_send_time : ℕ
  pub delay_gradient : Double
  pub loss_ratio : Single
  pub packets_since_last_loss_update : ℕ
  pub lost_packets : ℕ

-- std::clamp, which is undefined where `hi < lo`.
abbrev pub clamp : ℕ → ℕ → ℕ → ℕ
clamp v lo hi = if ltb v lo then lo else if ltb hi v then hi else v

abbrev pub drop_first : List PacketInfo → List PacketInfo
drop_first [] = []
drop_first (p ∷ ps) = ps

-- std::find_if over the history, and the erasure of what it finds.
pub find : ℕ → List PacketInfo → Option PacketInfo
find sequence_number [] = none
find sequence_number (p ∷ ps) =
    if p.sequence_number == sequence_number then some p else find sequence_number ps

pub erase : ℕ → List PacketInfo → List PacketInfo
erase sequence_number [] = []
erase sequence_number (p ∷ ps) =
    if p.sequence_number == sequence_number then ps else p ∷ erase sequence_number ps

module _ (floats : Floats) where
  open floats use {
    Double, Single, double_lit, single_lit, to_double, to_single, promote, double_to_uint64, add,
    sub, mul, neg, div_single, lt_double, lt_single,
  }

  abbrev pub State : Type 0
  State = Congestion Double Single

  pub new : State
  new = record {
    target_bitrate_bps = 1000000;
    min_bitrate_bps = 100000;
    max_bitrate_bps = 100000000;
    history = [];
    trendline_slope = double_lit 0 1;
    last_arrival_time = 0;
    last_send_time = 0;
    delay_gradient = double_lit 0 1;
    loss_ratio = single_lit 0 1;
    packets_since_last_loss_update = 0;
    lost_packets = 0;
  }

  pub on_packet_sent : State → ℕ → ℕ → ℕ → State
  on_packet_sent c sequence_number size send_time =
      let kept = if leb 1000 (length c.history) then drop_first c.history else c.history in
      record c {
        history =
            kept
            ++ (record { sequence_number = sequence_number; size = size; send_time = send_time }
                ∷ []);
      }

  pub update_trendline : State → Double → State
  update_trendline c gradient =
      let alpha = double_lit 9 10 in
      let smoothed = add (mul alpha c.delay_gradient) (mul (sub (double_lit 1 1) alpha) gradient) in
      record c { delay_gradient = smoothed; trendline_slope = smoothed }

  -- `static_cast<uint64_t>(static_cast<double>(rate) * factor)`
  pub scale : ℕ → Double → ℕ
  scale rate factor = double_to_uint64 (mul (to_double rate) factor)

  pub delay_control : State → State
  unfolding scale
  delay_control c =
      if lt_double (double_lit 5 1) c.trendline_slope
      then record c { target_bitrate_bps = scale c.target_bitrate_bps (double_lit 85 100) }
      else if lt_double c.trendline_slope (neg (double_lit 5 1))
      then record c { target_bitrate_bps = scale c.target_bitrate_bps (double_lit 105 100) }
      else c

  pub loss_control : State → State
  unfolding scale
  loss_control c =
      if leb 100 c.packets_since_last_loss_update
      then (let ratio =
            div_single (to_single c.lost_packets) (to_single c.packets_since_last_loss_update) in
          let target : ℕ =
            if lt_single (single_lit 1 10) ratio
            then scale c.target_bitrate_bps
                (sub (double_lit 1 1) (mul (double_lit 1 2) (promote ratio)))
            else if lt_single ratio (single_lit 2 100)
            then scale c.target_bitrate_bps (double_lit 105 100)
            else c.target_bitrate_bps in
          record c {
            loss_ratio = ratio;
            target_bitrate_bps = target;
            lost_packets = 0;
            packets_since_last_loss_update = 0;
          })
      else c

  pub update_bitrate_estimate : State → State
  unfolding delay_control loss_control
  update_bitrate_estimate c =
      let c' = loss_control (delay_control c) in
      record c' {
        target_bitrate_bps = clamp c'.target_bitrate_bps c'.min_bitrate_bps c'.max_bitrate_bps;
      }

  -- `double(a) - double(b)` of two timestamps.
  abbrev delta : ℕ → ℕ → Double
  delta a b = sub (to_double a) (to_double b)

  -- The trendline is fed once both last times are known, if the packet was sent later than the last.
  pub feed_trendline : State → PacketInfo → ℕ → State
  unfolding update_trendline
  feed_trendline c p receive_time =
      if not (c.last_send_time == 0) && not (c.last_arrival_time == 0)
      then (let send_delta = delta p.send_time c.last_send_time in
          let recv_delta = delta receive_time c.last_arrival_time in
          if lt_double (double_lit 0 1) send_delta
          then update_trendline c (sub recv_delta send_delta)
          else c)
      else c

  pub acked : State → ℕ → PacketInfo → ℕ → State
  unfolding feed_trendline
  acked c sequence_number p receive_time =
      let c' = feed_trendline c p receive_time in
      record c' {
        last_send_time = p.send_time;
        last_arrival_time = receive_time;
        packets_since_last_loss_update = c'.packets_since_last_loss_update + 1;
        history = erase sequence_number c'.history;
      }

  pub on_packet_acked : State → ℕ → ℕ → State
  unfolding acked update_bitrate_estimate
  on_packet_acked c sequence_number receive_time =
      update_bitrate_estimate (elim (find sequence_number c.history) [
        | none ↦ c
        | some p ↦ acked c sequence_number p receive_time
      ])

  pub on_packet_lost : State → ℕ → State
  unfolding update_bitrate_estimate
  on_packet_lost c sequence_number = update_bitrate_estimate (record c {
    lost_packets = c.lost_packets + 1;
    packets_since_last_loss_update = c.packets_since_last_loss_update + 1;
  })

  pub set_min_bitrate : State → ℕ → State
  set_min_bitrate c bps = record c {
    min_bitrate_bps = bps;
    target_bitrate_bps = if ltb c.target_bitrate_bps bps then bps else c.target_bitrate_bps;
  }

  pub set_max_bitrate : State → ℕ → State
  set_max_bitrate c bps = record c {
    max_bitrate_bps = bps;
    target_bitrate_bps = if ltb bps c.target_bitrate_bps then bps else c.target_bitrate_bps;
  }
