-- ===== src/Server/Scene.antt =====
-- server/capture/scene_analyzer.cpp and its header: the rectangles of a frame that changed. RECT is
-- a structure of Windows whose four coordinates are signed 32-bit integers.
pub mod Merging
pub mod Passes
mod Tests
use ultra_display_os.Prelude.{
  ℕ, zero, suc, ◌+◌, ◌-◌, ◌*◌, ◌%◌, ◌^◌, Bool, true, false, not, ◌&&◌, ◌||◌, Option, none, some,
  List, [], ◌∷◌, ◌++◌, if◌then◌else◌, length,
}
use ultra_display_os.Prelude.Int.{ℤ, ltb_ℤ, ◌-ℤ◌}
use ultra_display_os.Shared.Clock.{to_uint64}

pub record Rect : Type 0 where
  pub left : ℤ
  pub top : ℤ
  pub right : ℤ
  pub bottom : ℤ

abbrev pub leb_ℤ : ℤ → ℤ → Bool
leb_ℤ a b = not (ltb_ℤ b a)

abbrev pub min_ℤ : ℤ → ℤ → ℤ
min_ℤ a b = if ltb_ℤ b a then b else a

abbrev pub max_ℤ : ℤ → ℤ → ℤ
max_ℤ a b = if ltb_ℤ a b then b else a

pub rects_intersect : Rect → Rect → Bool
rects_intersect a b =
    not
      (leb_ℤ a.right b.left || leb_ℤ b.right a.left || leb_ℤ a.bottom b.top || leb_ℤ b.bottom a.top)

pub merge : Rect → Rect → Rect
merge a b = record {
  left = min_ℤ a.left b.left;
  top = min_ℤ a.top b.top;
  right = max_ℤ a.right b.right;
  bottom = max_ℤ a.bottom b.bottom;
}

-- The inner loop of the first pass: the first rectangle that meets the new one absorbs it.
pub absorb : List Rect → Rect → List Rect
unfolding rects_intersect
absorb [] r = r ∷ []
absorb (m ∷ ms) r =
    let rest = absorb ms r in if rects_intersect m r then merge m r ∷ ms else m ∷ rest

pub first_pass : List Rect → List Rect → List Rect
first_pass merged [] = merged
first_pass merged (r ∷ rs) = first_pass (absorb merged r) rs

-- The loop over `j`: one rectangle takes in, one after the other, those behind it that it meets.
-- The result is what became of it, the others, and whether any was taken in.
pub sweep : Rect → List Rect → Rect × List Rect × Bool
unfolding rects_intersect
sweep a [] = (a, [], false)
sweep a (b ∷ bs) =
    if rects_intersect a b
    then (let (a', rest, changed) = sweep (merge a b) bs in (a', rest, true))
    else (let (a', rest, changed) = sweep a bs in (a', b ∷ rest, changed))

-- The loop over `i`. Each round leaves fewer rectangles behind it, so their number is fuel enough;
-- `none`: out of fuel.
pub pass : ℕ → List Rect → Option (List Rect × Bool)
unfolding sweep
pass zero [] = some ([], false)
pass zero (a ∷ others) = none
pass (suc fuel) [] = some ([], false)
pass (suc fuel) (a ∷ others) =
    let (a', rest, changed) = sweep a others in
    elim (pass fuel rest) [ none ↦ none | some (rest', more) ↦ some (a' ∷ rest', changed || more) ]

-- `do … while (changed)`
pub second_pass : ℕ → List Rect → Option (List Rect)
second_pass zero merged = none
second_pass (suc fuel) merged = elim (pass (length merged) merged) [
  | none ↦ none
  | some (merged', changed) ↦ elim changed [
    | true ↦ second_pass fuel merged'
    | false ↦ some merged'
  ]
]

pub merge_rects : List Rect → Option (List Rect)
unfolding first_pass second_pass
merge_rects [] = some []
merge_rects (r ∷ rs) = let merged = first_pass [] (r ∷ rs) in second_pass (length merged + 1) merged

-- `uint64_t width = r.right - r.left`: the difference of two 32-bit integers, converted.
pub side : ℤ → ℤ → ℕ
side low high = to_uint64 (high -ℤ low)

pub calculate_area : List Rect → ℕ
unfolding side
calculate_area [] = 0
calculate_area (r ∷ rs) = (side r.left r.right * side r.top r.bottom + calculate_area rs) % 2 ^ 64
