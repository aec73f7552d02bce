-- ===== src/Shared/Pacer/Bucket.antt =====
-- The bucket never holds more than its limit.
use ultra_display_os.Prelude.{ℕ, ◌+◌, ◌-◌, ◌*◌, ◌/◌, ◌^◌, ◌≤◌, ◌<◌, ◌≡◌, arith}
use ultra_display_os.Prelude.Int.{pos, ◌+ℤ◌, ◌-ℤ◌, ◌≤ℤ◌}
use ultra_display_os.Shared.Clock.{sub64, to_int64}
use ultra_display_os.Shared.Pacer.{PacketPacer, set_rate, earned, refill_tokens, record_send}

pub elapsed_lem :
    (last now : ℕ) → last ≤ now → now < 2 ^ 63 → to_int64 (sub64 now last) ≡ pos (now - last)
elapsed_lem last now o w = ground arith

pub record IsValid (p : PacketPacer) : Type 0 where
  pub bounded : p.tokens ≤ℤ pos p.max_tokens
  pub limit : p.max_tokens ≡ p.rate_bps / 8 / 100

pub set_rate-IsValid : (p : PacketPacer) (bps : ℕ) → IsValid (set_rate p bps)
unfolding set_rate
set_rate-IsValid p bps = ground arith

pub refill_tokens-IsValid : (p : PacketPacer) (now : ℕ) → IsValid p → IsValid (refill_tokens p now)
unfolding refill_tokens
refill_tokens-IsValid p now v = ground arith

pub record_send-IsValid : (p : PacketPacer) (n : ℕ) → IsValid p → IsValid (record_send p n)
unfolding record_send ◌-ℤ◌
record_send-IsValid p n v = ground arith

-- Where the rate times the time since the last refill is past int64_t, and within uint64_t, a refill
-- takes tokens away instead of adding any.
pub refill_tokens_overflow :
    (p : PacketPacer) (now : ℕ)
    → p.last_update_us < now
    → now < 2 ^ 63
    → 0 < p.rate_bps
    → 2 ^ 63 ≤ p.rate_bps * (now - p.last_update_us)
    → p.rate_bps * (now - p.last_update_us) + 8000000 ≤ 2 ^ 64
    → (refill_tokens p now).tokens +ℤ pos 1 ≤ℤ p.tokens
unfolding refill_tokens earned ◌+ℤ◌
refill_tokens_overflow p now o w r b c =
    ground (arith, elapsed_lem p.last_update_us now (omega arith) w)
