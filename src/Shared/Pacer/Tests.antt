-- ===== src/Shared/Pacer/Tests.antt =====
-- A pacer at 8 Mbit/s: one byte in a microsecond, ten thousand in its bucket.
use ultra_display_os.Prelude.{◌≡◌, refl, true, none, some, [], ◌∷◌, arith}
use ultra_display_os.Prelude.Int.{pos, negsuc, ◌+ℤ◌, ◌-ℤ◌, ◌≤ℤ◌}
use ultra_display_os.Shared.Pacer.{
  PacketPacer, new, set_rate, earned, refill_tokens, can_send, record_send, sleep_us,
  wait_until_can_send,
}
use ultra_display_os.Shared.Pacer.Bucket.{IsValid, refill_tokens_overflow}
use ultra_display_os.Shared.Pacer.Waiting.{wait_too_large, sleep_us_enough}

abbrev pacer : PacketPacer
pacer = record {
  rate_bps = 8000000;
  tokens = negsuc 499;
  max_tokens = 10000;
  last_update_us = 1000;
}

abbrev pacer-IsValid : IsValid pacer
pacer-IsValid = record { bounded = omega arith; limit = refl }

set_rate_test :
    set_rate (new 7) 8000000
    ≡ record { rate_bps = 8000000; tokens = pos 0; max_tokens = 10000; last_update_us = 7 }
unfolding set_rate
set_rate_test = refl

record_send_test : (record_send pacer 100).tokens ≡ negsuc 599
unfolding record_send ◌-ℤ◌
record_send_test = refl

-- After a refill of 2000 bytes at the second reading, 1500 can be sent.
wait_test :
    wait_until_can_send pacer (1500 ∷ 3000 ∷ []) 1500
    ≡ some (record pacer { tokens = pos 1500; last_update_us = 3000 })
unfolding wait_until_can_send can_send refill_tokens earned ◌+ℤ◌
wait_test = refl

wait_too_large_example : wait_until_can_send pacer (1500 ∷ 300000000 ∷ []) 10001 ≡ none
wait_too_large_example =
    wait_too_large pacer (1500 ∷ 300000000 ∷ []) 10001 pacer-IsValid (omega arith)

sleep_us_test : sleep_us pacer 1500 ≡ 2000
unfolding sleep_us ◌-ℤ◌
sleep_us_test = refl

sleep_us_enough_example : (can_send pacer 3001 1500).1 ≡ true
sleep_us_enough_example =
    sleep_us_enough pacer 3001 1500 pacer-IsValid (omega arith) (omega arith) (omega arith)
      (omega arith) (omega arith) (omega (arith, sleep_us_test))

-- Some two weeks at 8 Mbit/s.
refill_tokens_overflow_test : (refill_tokens pacer 1200000001000).tokens +ℤ pos 1 ≤ℤ pacer.tokens
refill_tokens_overflow_test =
    refill_tokens_overflow pacer 1200000001000 (omega arith) (omega arith) (omega arith)
      (omega arith) (omega arith)
