-- ===== src/Shared/Pacer.antt =====
-- shared/transport/pacer.cpp and pacer.hpp: a token bucket. Tokens are an int64_t and integers here; the
-- rate and the times are uint64_t. Each reading of the clock (`now_us`) is an argument.
pub mod Bucket
pub mod Waiting
mod Tests
use ultra_display_os.Prelude.{
  ℕ, zero, suc, ◌+◌, ◌-◌, ◌*◌, ◌/◌, ◌%◌, Bool, true, false, ◌&&◌, Option, none, some, List, [], ◌∷◌,
  ltb, leb, if◌then◌else◌,
}
use ultra_display_os.Prelude.Int.{ℤ, pos, negsuc, ◌+ℤ◌, ◌-ℤ◌, ltb_ℤ, pos_part, neg_part}
use ultra_display_os.Shared.Clock.{word, sub64, to_int64, div_int}

pub record PacketPacer : Type 0 where
  pub rate_bps : ℕ
  pub tokens : ℤ
  pub max_tokens : ℕ  -- an int64_t that is never negative: a quotient of a rate by 800
  pub last_update_us : ℕ

-- The constructor at time `now`.
abbrev pub new : ℕ → PacketPacer
new now = record { rate_bps = 0; tokens = pos 0; max_tokens = 0; last_update_us = now }

abbrev pub min_ℤ : ℤ → ℤ → ℤ
min_ℤ a b = if ltb_ℤ b a then b else a

pub set_rate : PacketPacer → ℕ → PacketPacer
set_rate p bps =
    let most = bps / 8 / 100 in
    record p {
      rate_bps = bps;
      max_tokens = most;
      tokens = if ltb_ℤ (pos most) p.tokens then pos most else p.tokens;
    }

-- `(static_cast<int64_t>(rate_bps_) * elapsed) / (8 * 1000000)`, for a time elapsed that is positive.
-- A product past int64_t, which is undefined, wraps here as it does on the machine.
pub earned : ℕ → ℕ → ℤ
earned rate elapsed = div_int (to_int64 (rate * elapsed % word)) 8000000

pub refill_tokens : PacketPacer → ℕ → PacketPacer
refill_tokens p now =
    let elapsed = to_int64 (sub64 now p.last_update_us) in
    if ltb_ℤ (pos 0) elapsed && ltb 0 p.rate_bps
    then record p {
      tokens = min_ℤ (pos p.max_tokens) (p.tokens +ℤ earned p.rate_bps (pos_part elapsed));
      last_update_us = now;
    }
    else p

pub can_send : PacketPacer → ℕ → ℕ → PacketPacer × Bool
can_send p now packet_bytes =
    let p' = refill_tokens p now in (p', if ltb_ℤ p'.tokens (pos packet_bytes) then false else true)

pub record_send : PacketPacer → ℕ → PacketPacer
record_send p packet_bytes = record p { tokens = p.tokens -ℤ pos packet_bytes }

-- The time that the loop sleeps for: 0 stands for the call of `yield`.
pub sleep_us : PacketPacer → ℕ → ℕ
sleep_us p packet_bytes =
    let missing = pos packet_bytes -ℤ p.tokens in
    if ltb 0 p.rate_bps && ltb_ℤ (pos 0) missing
    then pos_part missing * 8 * 1000000 / p.rate_bps
    else 0

-- The loop, over the clock's readings in turn; `none`: it is still waiting after the last of them.
pub wait_until_can_send : PacketPacer → List ℕ → ℕ → Option PacketPacer
unfolding can_send
wait_until_can_send p [] packet_bytes = none
wait_until_can_send p (now ∷ times) packet_bytes =
    let (p', sendable) = can_send p now packet_bytes in
    let rest = wait_until_can_send p' times packet_bytes in if sendable then some p' else rest
