-- ===== src/Shared/Congestion/Bitrate.antt =====
-- The bounds that hold at every point of a session.
use ultra_display_os.Prelude.{
  ℕ, ◌-◌, ◌≤◌, ◌<◌, ◌≡◌, refl, List, [], ◌∷◌, arith, length, length-append, Option-cases, inl, inr,
}
use ultra_display_os.Shared.Float.{Floats}
use ultra_display_os.Shared.Congestion.{
  PacketInfo, Congestion, State, find, erase, drop_first, on_packet_sent, on_packet_acked,
  on_packet_lost, set_min_bitrate, set_max_bitrate, new, update_bitrate_estimate, delay_control,
  loss_control, acked, feed_trendline, update_trendline,
}

pub record IsValid {Double Single : Type 0} (c : Congestion Double Single) : Type 0 where
  pub above : c.min_bitrate_bps ≤ c.target_bitrate_bps
  pub below : c.target_bitrate_bps ≤ c.max_bitrate_bps
  pub counted : c.lost_packets ≤ c.packets_since_last_loss_update
  pub recent : c.packets_since_last_loss_update < 100
  pub room : length c.history ≤ 1000

-- What holds between the counting of a packet and the next estimate.
record IsCounted {Double Single : Type 0} (c : Congestion Double Single) : Type 0 where
  ordered : c.min_bitrate_bps ≤ c.max_bitrate_bps
  counted : c.lost_packets ≤ c.packets_since_last_loss_update
  room : length c.history ≤ 1000

length-erase : (s : ℕ) (ps : List PacketInfo) → length (erase s ps) ≤ length ps
unfolding erase
length-erase s [] = omega arith
length-erase s (p ∷ ps) = ground (arith, length-erase s ps)

length-drop_first : (ps : List PacketInfo) → length (drop_first ps) ≡ length ps - 1
length-drop_first [] = refl
length-drop_first (p ∷ ps) = omega arith

-- A call on the congestion control.
pub data Event : Type 0 where
  sent : ℕ → ℕ → ℕ → Event
  acknowledged : ℕ → ℕ → Event
  lost : ℕ → Event

module _ (floats : Floats) where
  new-IsValid : IsValid (new floats)
  unfolding new
  new-IsValid = omega arith

  delay_control-IsCounted : (c : State floats) → IsCounted c → IsCounted (delay_control floats c)
  unfolding delay_control
  delay_control-IsCounted c v = ground arith

  loss_control-IsCounted :
      (c : State floats)
      → IsCounted c
      → IsCounted (loss_control floats c)
        × ((loss_control floats c).packets_since_last_loss_update < 100)
  unfolding loss_control
  loss_control-IsCounted c v = ground arith

  estimate-IsValid : (c : State floats) → IsCounted c → IsValid (update_bitrate_estimate floats c)
  unfolding update_bitrate_estimate
  estimate-IsValid c v =
      ground (arith, loss_control-IsCounted (delay_control floats c) (delay_control-IsCounted c v))

  acked-IsCounted :
      (c : State floats) (s : ℕ) (p : PacketInfo) (t : ℕ)
      → IsValid c
      → IsCounted (acked floats c s p t)
  unfolding acked feed_trendline update_trendline
  acked-IsCounted c s p t v = ground (arith, length-erase s c.history)

  unfoldable pub step : State floats → Event → State floats
  step c (sent s n t) = on_packet_sent floats c s n t
  step c (acknowledged s t) = on_packet_acked floats c s t
  step c (lost s) = on_packet_lost floats c s

  pub step-IsValid : (c : State floats) (e : Event) → IsValid c → IsValid (step c e)
  unfolding step on_packet_sent on_packet_acked on_packet_lost
  step-IsValid c (sent s n t) v = ground (
    arith,
    length-append c.history (record { sequence_number = s; size = n; send_time = t } ∷ []),
    length-append (drop_first c.history)
        (record { sequence_number = s; size = n; send_time = t } ∷ []),
    length-drop_first c.history,
  )
  step-IsValid c (acknowledged s t) v = elim (Option-cases (find s c.history)) [
    | inl e ↦ rw e (estimate-IsValid c (omega arith))
    | inr (p, e) ↦ rw e (estimate-IsValid (acked floats c s p t) (acked-IsCounted c s p t v))
  ]
  step-IsValid c (lost s) v = estimate-IsValid _ (ground arith)

  unfoldable pub run : State floats → List Event → State floats
  run c [] = c
  run c (e ∷ events) = run (step c e) events

  run_from-IsValid : (c : State floats) (events : List Event) → IsValid c → IsValid (run c events)
  unfolding run
  run_from-IsValid c [] v = v
  run_from-IsValid c (e ∷ events) v = run_from-IsValid (step c e) events (step-IsValid c e v)

  -- After any packets sent, acknowledged and lost, in any order and however the floating point
  -- rounds: the target lies within the two limits, the losses counted are at most the packets
  -- counted, fewer than 100 packets stand uncounted, and the history holds at most 1000 packets.
  pub run-IsValid : (events : List Event) → IsValid (run (new floats) events)
  run-IsValid events = run_from-IsValid (new floats) events new-IsValid

  -- A new limit that is on its side of the other limit keeps these bounds.
  pub set_limits-IsValid :
      (c : State floats) (low high : ℕ)
      → IsValid c
      → low ≤ high
      → low ≤ c.max_bitrate_bps
      → IsValid (set_max_bitrate floats (set_min_bitrate floats c low) high)
  unfolding set_max_bitrate set_min_bitrate
  set_limits-IsValid c low high v h k = ground arith

  -- A lower limit past the upper one is taken as it is: it leaves the target above the upper limit, and
  -- the two limits that the next estimate clamps between crossed.
  pub set_min_bitrate_crossed :
      (c : State floats) (low : ℕ)
      → IsValid c
      → c.max_bitrate_bps < low
      → let c' = set_min_bitrate floats c low in
        (c'.max_bitrate_bps < c'.target_bitrate_bps) × (c'.max_bitrate_bps < c'.min_bitrate_bps)
  unfolding set_min_bitrate
  set_min_bitrate_crossed c low v h = ground arith
