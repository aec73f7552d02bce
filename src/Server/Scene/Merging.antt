-- ===== src/Server/Scene/Merging.antt =====
-- What the merging of rectangles keeps, and that it ends.
use ultra_display_os.Prelude.{
  ℕ, zero, suc, ◌+◌, ◌<◌, ◌≡◌, inl, inr, refl, true, false, some, List, [], ◌∷◌, arith, Bool-cases,
  length,
}
use ultra_display_os.Server.Scene.{Rect, first_pass, pass, second_pass, merge_rects}
use ultra_display_os.Server.Scene.Passes.{
  Contains-refl, Covers, first_pass-Covers, Disjoint, pass_lem,
}

-- Every rectangle of the second list is covered by the first.
abbrev pub CoversAll : List Rect → List Rect → Type 0
CoversAll out [] = Unit {0}
CoversAll out (r ∷ rs) = Covers out r × CoversAll out rs

CoversAll-of : (out l : List Rect) → ((x : Rect) → Covers l x → Covers out x) → CoversAll out l
CoversAll-of out [] h = tt
CoversAll-of out (r ∷ rs) h =
    (h r (inl (Contains-refl r)), CoversAll-of out rs (λ x k. h x (inr k)))

second_pass-changed :
    (fuel : ℕ) (l out final : List Rect)
    → pass (length l) l ≡ some (out, true)
    → second_pass fuel out ≡ some final
    → second_pass (suc fuel) l ≡ some final
unfolding second_pass
second_pass-changed fuel l out final e e' = rw (e, second_pass) e'

second_pass-settled :
    (fuel : ℕ) (l out : List Rect)
    → pass (length l) l ≡ some (out, false)
    → second_pass (suc fuel) l ≡ some out
unfolding second_pass
second_pass-settled fuel l out e = rw (e, second_pass) refl

second_pass_lem :
    (fuel : ℕ) (l : List Rect)
    → length l < fuel
    → (out : List Rect) × (second_pass fuel l ≡ some out)
      × Disjoint out
      × ((x : Rect) → Covers l x → Covers out x)
second_pass_lem zero l h = absurd (omega arith)
second_pass_lem (suc fuel) l h =
    let (out, changed, e, p) = pass_lem (length l) l (omega arith) in
    elim (Bool-cases changed) [
      | inl c ↦
          let (final, e', apart, covers) = second_pass_lem fuel out (omega (arith, p.strictly c)) in
          (
            final,
            second_pass-changed fuel l out final (rw c at e) e',
            apart,
            λ x q. covers x (p.keeps x q),
          )
      | inr c ↦ (out, second_pass-settled fuel l out (rw c at e), (p.settled c).1, p.keeps)
    ]

-- The merging ends, for any rectangles; no two rectangles of its result meet, and each rectangle of the
-- input lies in one of the result.
pub merge_rects-Disjoint :
    (input : List Rect)
    → (out : List Rect) × (merge_rects input ≡ some out) × Disjoint out × CoversAll out input
unfolding merge_rects
merge_rects-Disjoint [] = ([], refl, tt, tt)
merge_rects-Disjoint (r ∷ rs) =
    let start = first_pass [] (r ∷ rs) in
    let (out, e, apart, covers) = second_pass_lem (length start + 1) start (omega arith) in
    (
      out,
      e,
      apart,
      CoversAll-of out (r ∷ rs) (λ x k. covers x (first_pass-Covers [] (r ∷ rs) x (inr k))),
    )
