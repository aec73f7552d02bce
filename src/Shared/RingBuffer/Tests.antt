-- ===== src/Shared/RingBuffer/Tests.antt =====
-- Runs of the ring buffer on small data.
use ultra_display_os.Prelude.{
  ℕ, ◌*◌, ◌≤◌, ◌<◌, ◌≡◌, ◌⊎◌, refl, true, false, none, some, List, [], ◌∷◌, arith,
}
use ultra_display_os.Shared.RingBuffer.{
  actual_capacity, create, try_push, try_pop, push_overwrite, size, next_index, round_up,
}
use ultra_display_os.Shared.RingBuffer.Queue
use ultra_display_os.Shared.RingBuffer.Queue.{
  Call, pushes, pops, overwrites, sizes, Reply, pushed, popped, overwritten, sized,
}
use ultra_display_os.Shared.RingBuffer.Valid.{IsCapacity, actual_capacity_lem}
use ultra_display_os.Shared.RingBuffer.Run.{run, run-create}

abbrev four-IsCapacity : IsCapacity 4
four-IsCapacity = record { exponent = 2; is_pow = refl; small = omega arith }

abbrev calls : List (Call ℕ)
calls =
    pushes 1
    ∷ pushes 2
    ∷ pushes 3
    ∷ pushes 4
    ∷ overwrites 5
    ∷ sizes
    ∷ pops
    ∷ pops
    ∷ pops
    ∷ pops
    ∷ []

abbrev replies : List (Reply ℕ)
replies =
    pushed true
    ∷ pushed true
    ∷ pushed true
    ∷ pushed false
    ∷ overwritten
    ∷ sized 3
    ∷ popped true (some 2)
    ∷ popped true (some 3)
    ∷ popped true (some 5)
    ∷ popped false none
    ∷ []

run_test : run (create 0 4) calls ≡ replies
unfolding run create try_push try_pop push_overwrite size next_index
run_test = refl

-- A ring buffer of capacity 1 holds nothing.
capacity_one_test :
    run {A = ℕ} (create 0 1) (pushes 7 ∷ sizes ∷ pops ∷ [])
    ≡ pushed false ∷ sized 0 ∷ popped false none ∷ []
unfolding run create try_push try_pop size next_index
capacity_one_test = refl

actual_capacity_test : actual_capacity 5 ≡ some 8
unfolding actual_capacity round_up
actual_capacity_test = refl

run-create_example : run (create 0 4) calls ≡ Queue.run 3 [] calls
run-create_example = run-create 0 4 calls four-IsCapacity

actual_capacity_lem_test :
    (c : ℕ) × (actual_capacity 5 ≡ some c) × IsCapacity c × (5 ≤ c) × (c < 2 * 5 ⊎ (c ≡ 1))
actual_capacity_lem_test = actual_capacity_lem 5 (omega arith)
