-- ===== src/Server/Scene/Passes.antt =====
-- What one pass over the rectangles keeps, and that it ends.
use ultra_display_os.Prelude.{
  ℕ, zero, suc, ◌≤◌, ◌<◌, ◌≡◌, ◌⊎◌, inl, inr, refl, ap, ap₂, ◌∙◌, Bool, true, false, ◌||◌, some,
  List, [], ◌∷◌, arith, Bool-cases, length,
}
use ultra_display_os.Prelude.Int.{◌≤ℤ◌}
use ultra_display_os.Server.Scene.{Rect, rects_intersect, merge, absorb, first_pass, sweep, pass}

-- Every point of the second rectangle lies in the first.
abbrev pub Contains : Rect → Rect → Type 0
Contains a b = (a.left ≤ℤ b.left) × (a.top ≤ℤ b.top) × (b.right ≤ℤ a.right) × (b.bottom ≤ℤ a.bottom)

pub Contains-refl : (a : Rect) → Contains a a
Contains-refl a = omega arith

Contains-trans : (a b c : Rect) → Contains a b → Contains b c → Contains a c
Contains-trans a b c h k = omega arith

merge-Contains : (a b : Rect) → Contains (merge a b) a × Contains (merge a b) b
unfolding merge
merge-Contains a b = ground arith

-- Some rectangle of the list contains the rectangle.
abbrev pub Covers : List Rect → Rect → Type 0
Covers [] r = ⊥
Covers (m ∷ ms) r = Contains m r ⊎ Covers ms r

Covers-trans : (ms : List Rect) (r x : Rect) → Covers ms r → Contains r x → Covers ms x
Covers-trans [] r x h k = h
Covers-trans (m ∷ ms) r x (inl h) k = inl (Contains-trans m r x h k)
Covers-trans (m ∷ ms) r x (inr h) k = inr (Covers-trans ms r x h k)

absorb-Covers : (ms : List Rect) (r x : Rect) → Covers ms x → Covers (absorb ms r) x
unfolding absorb
absorb-Covers [] r x h = absurd h
absorb-Covers (m ∷ ms) r x h = elim (Bool-cases (rects_intersect m r)) [
  | inl e ↦ rw e (elim h [
    | inl k ↦ inl (Contains-trans (merge m r) m x (merge-Contains m r).0 k)
    | inr k ↦ inr k
  ])
  | inr e ↦ rw e (elim h [ inl k ↦ inl k | inr k ↦ inr (absorb-Covers ms r x k) ])
]

absorb-Covers_new : (ms : List Rect) (r : Rect) → Covers (absorb ms r) r
unfolding absorb
absorb-Covers_new [] r = inl (Contains-refl r)
absorb-Covers_new (m ∷ ms) r = elim (Bool-cases (rects_intersect m r)) [
  | inl e ↦ rw e (inl (merge-Contains m r).1)
  | inr e ↦ rw e (inr (absorb-Covers_new ms r))
]

pub first_pass-Covers :
    (merged rs : List Rect) (x : Rect)
    → Covers merged x ⊎ Covers rs x
    → Covers (first_pass merged rs) x
unfolding first_pass
first_pass-Covers merged [] x (inl h) = h
first_pass-Covers merged [] x (inr h) = absurd h
first_pass-Covers merged (r ∷ rs) x (inl h) =
    first_pass-Covers (absorb merged r) rs x (inl (absorb-Covers merged r x h))
first_pass-Covers merged (r ∷ rs) x (inr (inl h)) =
    first_pass-Covers (absorb merged r) rs x
      (inl (Covers-trans (absorb merged r) r x (absorb-Covers_new merged r) h))
first_pass-Covers merged (r ∷ rs) x (inr (inr h)) = first_pass-Covers (absorb merged r) rs x (inr h)

sweep-Covers :
    (a : Rect) (bs : List Rect) (x : Rect)
    → Covers (a ∷ bs) x
    → let (a', rest, changed) = sweep a bs in Covers (a' ∷ rest) x
unfolding sweep
sweep-Covers a [] x h = h
sweep-Covers a (b ∷ bs) x h = elim (Bool-cases (rects_intersect a b)) [
  | inl e ↦ rw e (sweep-Covers (merge a b) bs x (into h))
  | inr e ↦ rw e (past (λ k. sweep-Covers a bs x k) h)
]
  where
    into : Covers (a ∷ b ∷ bs) x → Covers (merge a b ∷ bs) x
    into (inl k) = inl (Contains-trans (merge a b) a x (merge-Contains a b).0 k)
    into (inr (inl k)) = inl (Contains-trans (merge a b) b x (merge-Contains a b).1 k)
    into (inr (inr k)) = inr k

    past :
        (Covers (a ∷ bs) x → Covers ((sweep a bs).0 ∷ (sweep a bs).1) x)
        → Covers (a ∷ b ∷ bs) x
        → Covers ((sweep a bs).0 ∷ b ∷ (sweep a bs).1) x
    past f (inl k) = elim (f (inl k)) [ inl l ↦ inl l | inr l ↦ inr (inr l) ]
    past f (inr (inl k)) = inr (inl k)
    past f (inr (inr k)) = elim (f (inr k)) [ inl l ↦ inl l | inr l ↦ inr (inr l) ]

length-sweep :
    (a : Rect) (bs : List Rect)
    → let (a', rest, changed) = sweep a bs in
      (length rest ≤ length bs) × (changed ≡ true → length rest < length bs)
unfolding sweep
length-sweep a [] = (omega arith, λ e. cc)
length-sweep a (b ∷ bs) = ground (arith, length-sweep a bs, length-sweep (merge a b) bs)

-- The rectangle meets none of the list.
abbrev pub Apart : Rect → List Rect → Type 0
Apart a [] = Unit {0}
Apart a (b ∷ bs) = (rects_intersect a b ≡ false) × Apart a bs

-- No two rectangles of the list meet.
abbrev pub Disjoint : List Rect → Type 0
Disjoint [] = Unit {0}
Disjoint (a ∷ others) = Apart a others × Disjoint others

sweep-unchanged :
    (a : Rect) (bs : List Rect)
    → (sweep a bs).2 ≡ false
    → (sweep a bs ≡ (a, bs, false)) × Apart a bs
unfolding sweep
sweep-unchanged a [] e = (refl, tt)
sweep-unchanged a (b ∷ bs) e = elim (Bool-cases (rects_intersect a b)) [
  | inl h ↦ ground arith
  | inr h ↦ let (same, apart) = sweep-unchanged a bs (rw h at e) in (rw (h, same), (h, apart))
]

-- What a pass with enough fuel leaves.
pub record Passed (l out : List Rect) (changed : Bool) : Type 0 where
  pub keeps : (x : Rect) → Covers l x → Covers out x
  pub shorter : length out ≤ length l
  pub strictly : changed ≡ true → length out < length l
  pub settled : changed ≡ false → (out ≡ l) × Disjoint out

Passed-nil : Passed [] [] false
Passed-nil = record {
  keeps = λ x k. k;
  shorter = omega arith;
  strictly = λ e. cc;
  settled = λ e. (refl, tt);
}

Passed-cons :
    (a : Rect) (others out : List Rect) (more : Bool)
    → Passed (sweep a others).1 out more
    → Passed (a ∷ others) ((sweep a others).0 ∷ out) ((sweep a others).2 || more)
Passed-cons a others out more p = record {
  keeps = λ x k. elim (sweep-Covers a others x k) [ inl l ↦ inl l | inr l ↦ inr (p.keeps x l) ];
  shorter = omega (arith, p.shorter, (length-sweep a others).0);
  strictly = strict;
  settled = at_rest;
}
  where
    strict :
        (sweep a others).2 || more ≡ true → length ((sweep a others).0 ∷ out) < length (a ∷ others)
    strict e = elim (Bool-cases (sweep a others).2) [
      | inl c ↦ omega (arith, p.shorter, (length-sweep a others).1 c)
      | inr c ↦ omega (arith, (length-sweep a others).0, p.strictly (rw c at e))
    ]

    at_rest :
        (sweep a others).2 || more ≡ false
        → ((sweep a others).0 ∷ out ≡ a ∷ others) × Disjoint ((sweep a others).0 ∷ out)
    at_rest e = elim (Bool-cases (sweep a others).2) [
      | inl c ↦ absurd (ground arith)
      | inr c ↦
          let (same, apart) = sweep-unchanged a others c in
          let (kept, disjoint) = p.settled (rw c at e) in
          let whole : out ≡ others = kept ∙ ap (λ t. t.1) same in
          let first : (sweep a others).0 ≡ a = ap (λ t. t.0) same in
          (ap₂ ◌∷◌ first whole, (rw (first, whole) apart, disjoint))
    ]

pub pass_lem :
    (fuel : ℕ) (l : List Rect)
    → length l ≤ fuel
    → (out : List Rect) × (changed : Bool) × (pass fuel l ≡ some (out, changed))
      × Passed l out changed
unfolding pass
pass_lem zero [] h = ([], false, refl, Passed-nil)
pass_lem zero (a ∷ others) h = absurd (omega arith)
pass_lem (suc fuel) [] h = ([], false, refl, Passed-nil)
pass_lem (suc fuel) (a ∷ others) h =
    let fits : length (sweep a others).1 ≤ fuel = omega (arith, (length-sweep a others).0) in
    let (out, more, e, p) = pass_lem fuel (sweep a others).1 fits in
    (
      (sweep a others).0 ∷ out,
      (sweep a others).2 || more,
      rw e refl,
      Passed-cons a others out more p,
    )
