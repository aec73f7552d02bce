-- ===== src/Shared/RingBuffer/Queue.antt =====
-- What the ring buffer promises: a list, oldest element first, of at most `room` elements.
use ultra_display_os.Prelude.{
  ℕ, Bool, true, false, List, [], ◌∷◌, ◌++◌, Option, none, some, length, ltb, if◌then◌else◌,
}

module _ {A : Type 0} where
  unfoldable pub push : ℕ → List A → A → Bool × List A
  push room q x = if ltb (length q) room then (true, q ++ (x ∷ [])) else (false, q)

  unfoldable pub pop : List A → Bool × Option A × List A
  pop [] = (false, none, [])
  pop (x ∷ q) = (true, some x, q)

  unfoldable pub drop_oldest : List A → List A
  drop_oldest [] = []
  drop_oldest (_ ∷ q) = q

  unfoldable pub overwrite : ℕ → List A → A → List A
  unfolding drop_oldest
  overwrite room q x = if ltb (length q) room then q ++ (x ∷ []) else drop_oldest (q ++ (x ∷ []))

-- A call of the ring buffer, and what its caller sees of it.
pub data Call (A : Type 0) : Type 0 where
  pushes : A → Call A
  pops : Call A
  overwrites : A → Call A
  sizes : Call A

pub data Reply (A : Type 0) : Type 0 where
  pushed : Bool → Reply A
  popped : Bool → Option A → Reply A
  overwritten : Reply A
  sized : ℕ → Reply A

module _ {A : Type 0} where
  unfoldable pub run : ℕ → List A → List (Call A) → List (Reply A)
  run room q [] = []
  run room q (pushes x ∷ calls) = let (done, q') = push room q x in pushed done ∷ run room q' calls
  run room q (pops ∷ calls) = let (done, out, q') = pop q in popped done out ∷ run room q' calls
  run room q (overwrites x ∷ calls) = overwritten ∷ run room (overwrite room q x) calls
  run room q (sizes ∷ calls) = sized (length q) ∷ run room q calls
