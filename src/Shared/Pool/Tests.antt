-- ===== src/Shared/Pool/Tests.antt =====
-- A pool of two blocks.
use ultra_display_os.Prelude.{◌+◌, ◌≡◌, ◌<◌, refl, [], ◌∷◌, none, some, ltb, if◌then◌else◌}
use ultra_display_os.Shared.Pool.{Pool, store, create, take_head, alloc, free}
use ultra_display_os.Shared.Pool.Leases.{count}
use ultra_display_os.Shared.Pool.Reachable.{begun, allocs, Reach-fresh}

abbrev two : Pool
two = record { capacity = 2; next = λ i. if ltb i 1 then some (i + 1) else none; head = some 0 }

create_test : (create 2 ≡ some two) × (create 0 ≡ none)
unfolding create
create_test = (refl, refl)

abbrev one : Pool
one = (alloc two (some 99)).1

abbrev none_left : Pool
none_left = (alloc one (some 98)).1

alloc_test :
    ((alloc two (some 99)).0 ≡ some 0)
    × ((alloc one (some 98)).0 ≡ some 1)
    × ((alloc none_left none).0 ≡ none)
    × ((alloc (free none_left (some 0)) none).0 ≡ some 0)
unfolding alloc take_head free store
alloc_test = (refl, refl, refl, refl)

first_lease : alloc two (some 99) ≡ (some 0, one)
unfolding alloc take_head
first_lease = refl

second_lease : alloc one (some 98) ≡ (some 1, none_left)
unfolding alloc take_head store
second_lease = refl

made : create 2 ≡ some two
unfolding create
made = refl

Reach-fresh_example : (count 1 (0 ∷ []) ≡ 0) × (1 < one.capacity)
Reach-fresh_example =
    Reach-fresh {capacity = 2} none_left (some 98) 1
      (allocs two one (some 99) 0 [] (begun two made) first_lease) second_lease
