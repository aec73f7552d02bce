-- ===== src/Shared/RingBuffer/Run.antt =====
-- Sequences of calls on a ring buffer, each call whole.
use ultra_display_os.Prelude.{ℕ, ◌-◌, ◌≡◌, refl, ◌∙◌, ap₂, List, [], ◌∷◌, arith}
use ultra_display_os.Shared.RingBuffer.{RingBuffer, create, try_push, try_pop, push_overwrite, size}
use ultra_display_os.Shared.RingBuffer.Queue
use ultra_display_os.Shared.RingBuffer.Queue.{
  Call, pushes, pops, overwrites, sizes, Reply, pushed, popped, overwritten, sized,
}
use ultra_display_os.Shared.RingBuffer.Valid.{
  IsValid, IsCapacity, create-IsValid, try_push-IsValid, try_pop-IsValid, push_overwrite-IsValid,
}
use ultra_display_os.Shared.RingBuffer.Fifo.{
  contents, try_push_refines, try_pop_refines, push_overwrite_refines, size-length,
}

module _ {A : Type 0} where
  unfoldable pub run : RingBuffer A → List (Call A) → List (Reply A)
  run r [] = []
  run r (pushes x ∷ calls) = let (done, r') = try_push r x in pushed done ∷ run r' calls
  run r (pops ∷ calls) = let (done, out, r') = try_pop r in popped done out ∷ run r' calls
  run r (overwrites x ∷ calls) = overwritten ∷ run (push_overwrite r x) calls
  run r (sizes ∷ calls) = sized (size r) ∷ run r calls

  capacity-try_push : (r : RingBuffer A) (x : A) → (try_push r x).1.capacity ≡ r.capacity
  unfolding try_push
  capacity-try_push r x = ground arith

  capacity-try_pop : (r : RingBuffer A) → (try_pop r).2.capacity ≡ r.capacity
  unfolding try_pop
  capacity-try_pop r = ground arith

  capacity-push_overwrite : (r : RingBuffer A) (x : A) → (push_overwrite r x).capacity ≡ r.capacity
  unfolding push_overwrite
  capacity-push_overwrite r x = ground arith

  pub run_refines :
      (fill : A) (calls : List (Call A)) (r : RingBuffer A)
      → IsValid r
      → run r calls ≡ Queue.run (r.capacity - 1) (contents fill r) calls
  unfolding run Queue.run
  run_refines fill [] r v = refl
  run_refines fill (pushes x ∷ calls) r v = rw (
    run_refines fill calls (try_push r x).1 (try_push-IsValid r x v),
    ← try_push_refines fill r x v,
    capacity-try_push,
  )
  run_refines fill (pops ∷ calls) r v = rw (
    run_refines fill calls (try_pop r).2 (try_pop-IsValid r v),
    ← try_pop_refines fill r v,
    capacity-try_pop,
  )
  run_refines fill (overwrites x ∷ calls) r v = rw (
    run_refines fill calls (push_overwrite r x) (push_overwrite-IsValid r x v),
    push_overwrite_refines fill r x v,
    capacity-push_overwrite,
  )
  run_refines fill (sizes ∷ calls) r v = rw (run_refines fill calls r v, size-length)

  contents-create : (fill : A) (c : ℕ) → contents fill (create fill c) ≡ []
  unfolding create size
  contents-create fill c = refl

  capacity-create : (fill : A) (c : ℕ) → (create fill c).capacity ≡ c
  unfolding create
  capacity-create fill c = refl

  -- For any capacity that the constructor may settle on, no sequence of calls on a new ring buffer
  -- tells it from an empty queue that holds one element less than the capacity: pushes fail exactly
  -- at a full queue, pops return the oldest element and fail exactly at an empty one, overwriting
  -- pushes drop the oldest element of a full queue, and the size is the number of elements held.
  pub run-create :
      (fill : A) (c : ℕ) (calls : List (Call A))
      → IsCapacity c
      → run (create fill c) calls ≡ Queue.run (c - 1) [] calls
  run-create fill c calls w =
      run_refines fill calls (create fill c) (create-IsValid fill c w)
      ∙ ap₂ (λ n q. Queue.run (n - 1) q calls) (capacity-create fill c) (contents-create fill c)
