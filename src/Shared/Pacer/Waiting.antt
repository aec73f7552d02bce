-- ===== src/Shared/Pacer/Waiting.antt =====
-- When the wait for tokens ends.
use native.Mathlib.Nat.{div-lt_iff_lt-mul, mul_comm}
use ultra_display_os.Prelude.{
  ℕ, ◌-◌, ◌*◌, ◌/◌, ◌^◌, ◌≤◌, ◌<◌, ◌≡◌, refl, arith, true, none, List, [], ◌∷◌,
}
use ultra_display_os.Prelude.Int.{ℤ, pos, ◌+ℤ◌, ◌-ℤ◌, ◌≤ℤ◌, pos_part}
use ultra_display_os.Shared.Pacer.{
  PacketPacer, earned, refill_tokens, can_send, sleep_us, wait_until_can_send,
}
use ultra_display_os.Shared.Pacer.Bucket.{IsValid, elapsed_lem, refill_tokens-IsValid}

max_tokens-refill : (p : PacketPacer) (now : ℕ) → (refill_tokens p now).max_tokens ≡ p.max_tokens
unfolding refill_tokens
max_tokens-refill p now = ground arith

-- A packet above the bucket's limit, ten milliseconds' worth of the rate, is never sent: the loop goes
-- on waiting whatever the clock reads, and however often.
pub wait_too_large :
    (p : PacketPacer) (times : List ℕ) (packet_bytes : ℕ)
    → IsValid p
    → p.max_tokens < packet_bytes
    → wait_until_can_send p times packet_bytes ≡ none
unfolding wait_until_can_send can_send
wait_too_large p [] n v h = refl
wait_too_large p (now ∷ times) n v h =
    let v' = refill_tokens-IsValid p now v in
    let rest =
      wait_too_large (refill_tokens p now) times n v' (omega (arith, max_tokens-refill p now)) in
    ground (arith, v'.bounded, max_tokens-refill p now, rest)

-- What is earned in more than the time slept is what was missing, at least.
earned_enough :
    (rate missing elapsed : ℕ)
    → 0 < rate
    → missing * 8 * 1000000 / rate < elapsed
    → missing ≤ rate * elapsed / 8000000
earned_enough rate missing elapsed h k =
    let product = (div-lt_iff_lt-mul {k = rate} {x = missing * 8 * 1000000} {y = elapsed} h).0 k in
    omega (arith, mul_comm rate elapsed)

earned_lem :
    (rate elapsed : ℕ)
    → rate * elapsed < 2 ^ 63
    → earned rate elapsed ≡ pos (rate * elapsed / 8000000)
unfolding earned
earned_lem rate elapsed h = ground arith

-- The missing bytes are made up by as many earned.
made_up :
    (tokens : ℤ) (n got : ℕ)
    → (pos 0 ≤ℤ (pos n -ℤ tokens) → pos_part (pos n -ℤ tokens) ≤ got)
    → pos n ≤ℤ tokens +ℤ pos got
unfolding ◌-ℤ◌ ◌+ℤ◌
made_up tokens n got h = ground arith

-- The wait ends after one sleep: a packet within the bucket's limit can be sent at the first reading
-- of the clock that is past the time asked for, as long as the rate times the time elapsed fits
-- int64_t.
pub sleep_us_enough :
    (p : PacketPacer) (now packet_bytes : ℕ)
    → IsValid p
    → 0 < p.rate_bps
    → packet_bytes ≤ p.max_tokens
    → p.last_update_us ≤ now
    → now < 2 ^ 63
    → p.rate_bps * (now - p.last_update_us) < 2 ^ 63
    → sleep_us p packet_bytes < now - p.last_update_us
    → (can_send p now packet_bytes).1 ≡ true
unfolding can_send refill_tokens sleep_us
sleep_us_enough p now n v r f o w b s =
    let d = now - p.last_update_us in
    ground (
      arith,
      elapsed_lem p.last_update_us now o w,
      earned_lem p.rate_bps d b,
      made_up p.tokens n (p.rate_bps * d / 8000000),
      earned_enough p.rate_bps (pos_part (pos n -ℤ p.tokens)) d r,
    )
