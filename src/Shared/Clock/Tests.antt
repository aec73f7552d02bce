-- ===== src/Shared/Clock/Tests.antt =====
-- Exchanges of timestamps on small numbers.
use ultra_display_os.Prelude.{ℕ, ◌+◌, ◌-◌, ◌^◌, ◌≤◌, ◌≡◌, refl, [], ◌∷◌, arith}
use ultra_display_os.Prelude.Int.{pos, negsuc, ◌+ℤ◌, ◌*ℤ◌}
use ultra_display_os.Shared.Clock.{new, measured_offset, smooth, update, local_to_remote}
use ultra_display_os.Shared.Clock.Offset.{measured_offset_behind}
use ultra_display_os.Shared.Clock.Sync.{Exchange, sync, sync_lem}

-- The peer is 500 ahead; the ping takes 10, the pong 14.
abbrev first : Exchange
first = record { start = 1000; there = 10; held = 5; back = 14 }

abbrev second : Exchange
second = record { start = 2000; there = 14; held = 5; back = 10 }

update_test : (update new 1000 1510 1515 1029).offset ≡ pos 498
unfolding update measured_offset
update_test = refl

smooth_test : smooth (negsuc 7) (pos 5) ≡ negsuc 5
unfolding smooth ◌+ℤ◌ ◌*ℤ◌
smooth_test = refl

-- The peer is 500 behind, with the two journeys as long as each other.
measured_offset_behind_example : measured_offset 1500 1010 1015 1525 ≡ pos (2 ^ 63 - 500)
measured_offset_behind_example = measured_offset_behind 1000 500 10 5 10 (omega arith) (omega arith)

sync_lem_example :
    let c = sync 500 new (first ∷ second ∷ []) in
    (offset : ℕ) × (c.offset ≡ pos offset)
    × (500 ≤ offset + 2)
    × (offset ≤ 500 + 2)
    × (local_to_remote c 3000 ≡ 3000 + offset)
sync_lem_example =
    sync_lem 500 2 first (second ∷ []) 3000 (omega arith)
      (
        record { no_wrap = omega arith; longer_there = omega arith; longer_back = omega arith },
        (
          record { no_wrap = omega arith; longer_there = omega arith; longer_back = omega arith },
          tt,
        ),
      )
      (omega arith)
