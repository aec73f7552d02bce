-- ===== src/Server/Scene/Tests.antt =====
-- Rectangles that meet, and their merging.
use ultra_display_os.Prelude.{ℕ, ◌≡◌, refl, some, List, [], ◌∷◌, false}
use ultra_display_os.Prelude.Int.{pos, ◌-ℤ◌}
use ultra_display_os.Server.Scene.{
  Rect, rects_intersect, merge, absorb, first_pass, sweep, pass, second_pass, merge_rects, side,
  calculate_area,
}
use ultra_display_os.Server.Scene.Passes.{Disjoint}
use ultra_display_os.Server.Scene.Merging.{CoversAll, merge_rects-Disjoint}

abbrev rect : ℕ → ℕ → ℕ → ℕ → Rect
rect left top right bottom = record {
  left = pos left;
  top = pos top;
  right = pos right;
  bottom = pos bottom;
}

-- The third joins the first two, and what they become reaches the fourth.
abbrev dirty : List Rect
dirty =
    rect 0 0 10 10 ∷ rect 20 0 30 10 ∷ rect 5 5 25 8 ∷ rect 12 1 14 3 ∷ rect 100 100 120 110 ∷ []

merge_rects_test : merge_rects dirty ≡ some (rect 0 0 30 10 ∷ rect 100 100 120 110 ∷ [])
unfolding merge_rects first_pass absorb second_pass pass sweep merge rects_intersect
merge_rects_test = refl

-- Rectangles that touch do not meet.
touching_test : rects_intersect (rect 0 0 10 10) (rect 10 0 20 10) ≡ false
unfolding rects_intersect
touching_test = refl

area_test : calculate_area (rect 0 0 30 10 ∷ rect 100 100 120 110 ∷ []) ≡ 500
unfolding calculate_area side ◌-ℤ◌
area_test = refl

merge_rects-Disjoint_example :
    (out : List Rect) × (merge_rects dirty ≡ some out) × Disjoint out × CoversAll out dirty
merge_rects-Disjoint_example = merge_rects-Disjoint dirty
