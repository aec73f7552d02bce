-- ===== src/Shared/Multipath/Best.antt =====
-- Which path is active.
use mathlib.Core.Path.{subst}
use ultra_display_os.Prelude.{
  ℕ, zero, suc, ◌+◌, ◌≤◌, ◌<◌, ◌≡◌, ◌≢◌, ◌⊎◌, inl, inr, refl, ap, Bool, none, some, List, [], ◌∷◌,
  arith, map, get_elem?, length, length-map, lt→ltb, not_lt→ltb,
}
use native.Mathlib.Decide.{dec_lt}
use ultra_display_os.Shared.Float.{Floats}
use ultra_display_os.Shared.Transport.{Transport}
use ultra_display_os.Shared.Multipath.{
  PathInfo, MultipathManager, max_score, choose, refresh, evaluate, evaluate_paths, add_path, send,
}

-- No score is below `bound`.
abbrev pub NoneBelow : ℕ → List ℕ → Type 0
NoneBelow bound scores = (j t : ℕ) → get_elem? scores j ≡ some t → bound ≤ t

-- `j` is the first index of the least score, `s`.
pub record IsFirstLeast (scores : List ℕ) (j s : ℕ) : Type 0 where
  pub there : get_elem? scores j ≡ some s
  pub least : NoneBelow s scores
  pub first : (i t : ℕ) → get_elem? scores i ≡ some t → i < j → s < t

abbrev pub Chosen : ℕ → ℕ → ℕ → List ℕ → ℕ → Type 0
Chosen i bound idx scores r =
    ((r ≡ idx) × NoneBelow bound scores)
    ⊎ ((j : ℕ) × (s : ℕ) × (r ≡ i + j) × (s < bound) × IsFirstLeast scores j s)

NoneBelow-cons :
    (bound score : ℕ) (scores : List ℕ)
    → bound ≤ score
    → NoneBelow bound scores
    → NoneBelow bound (score ∷ scores)
NoneBelow-cons bound score scores h n zero t e = ground arith
NoneBelow-cons bound score scores h n (suc j) t e = n j t e

NoneBelow-weaken :
    (low high : ℕ) (scores : List ℕ) → low ≤ high → NoneBelow high scores → NoneBelow low scores
NoneBelow-weaken low high scores h n j t e = omega (arith, n j t e)

IsFirstLeast-head :
    (score : ℕ) (scores : List ℕ) → NoneBelow score scores → IsFirstLeast (score ∷ scores) 0 score
IsFirstLeast-head score scores n = record {
  there = refl;
  least = NoneBelow-cons score score scores (omega arith) n;
  first = λ i t e l. absurd (omega arith);
}

IsFirstLeast-tail :
    (score : ℕ) (scores : List ℕ) (j s : ℕ)
    → s < score
    → IsFirstLeast scores j s
    → IsFirstLeast (score ∷ scores) (suc j) s
IsFirstLeast-tail score scores j s h f = record {
  there = f.there;
  least = NoneBelow-cons s score scores (omega arith) f.least;
  first = earlier;
}
  where
    earlier : (i t : ℕ) → get_elem? (score ∷ scores) i ≡ some t → i < suc j → s < t
    earlier zero t e l = ground arith
    earlier (suc i) t e l = f.first i t e (omega arith)

choose_lem :
    (i bound idx : ℕ) (scores : List ℕ) → Chosen i bound idx scores (choose i bound idx scores)
unfolding choose
choose_lem i bound idx [] = inl (refl, λ j t e. cc)
choose_lem i bound idx (score ∷ scores) = elim (dec_lt score bound) [
  | yes p ↦ rw (lt→ltb _ _ p) (elim (choose_lem (i + 1) score i scores) [
    | inl (e, n) ↦ inr (0, score, omega arith, p, IsFirstLeast-head score scores n)
    | inr (j, s, e, l, f) ↦
        inr (suc j, s, omega arith, omega arith, IsFirstLeast-tail score scores j s l f)
  ])
  | no p ↦ rw (not_lt→ltb _ _ p) (elim (choose_lem (i + 1) bound idx scores) [
    | inl (e, n) ↦ inl (e, NoneBelow-cons bound score scores (omega arith) n)
    | inr (j, s, e, l, f) ↦
        inr (suc j, s, omega arith, l, IsFirstLeast-tail score scores j s (omega arith) f)
  ])
]

lt_of_get_elem? : (xs : List ℕ) (i x : ℕ) → get_elem? xs i ≡ some x → i < length xs
lt_of_get_elem? [] i x e = cc
lt_of_get_elem? (y ∷ ys) zero x e = omega arith
lt_of_get_elem? (y ∷ ys) (suc i) x e = omega (arith, lt_of_get_elem? ys i x e)

get_elem?-ne-none : {A : Type 0} (xs : List A) (i : ℕ) → i < length xs → get_elem? xs i ≢ none
get_elem?-ne-none [] i h e = omega arith
get_elem?-ne-none (x ∷ xs) zero h e = cc
get_elem?-ne-none (x ∷ xs) (suc i) h e = get_elem?-ne-none xs i (omega arith) e

module _ (floats : Floats) where
  open floats use {Single}

  module _ {T : Type 0} (ops : Transport Single T) where
    abbrev pub scores : MultipathManager Single T → List ℕ
    scores m = map (λ p. p.score) m.paths

    -- The index of the active path lies inside the paths, if there are any.
    abbrev pub IsValid : MultipathManager Single T → Type 0
    IsValid m = 0 < length m.paths → m.active_path_idx < length m.paths

    -- The active path is the first of those with the least score, or path 0 where every score is the
    -- greatest there is.
    abbrev pub IsBest : MultipathManager Single T → Type 0
    IsBest m =
        ((s : ℕ) × (s < max_score) × IsFirstLeast (scores m) m.active_path_idx s)
        ⊎ ((m.active_path_idx ≡ 0) × NoneBelow max_score (scores m))

    evaluate-IsBest :
        (m : MultipathManager Single T) (ps : List (PathInfo Single T))
        → 0 < length ps
        → IsBest (evaluate floats ops m ps)
    unfolding evaluate
    evaluate-IsBest m [] h = absurd (omega arith)
    evaluate-IsBest m (p ∷ ps) h =
        let found = map (λ q. q.score) (map (refresh floats ops) (p ∷ ps)) in
        elim (choose_lem 0 max_score 0 found) [
          | inl (e, n) ↦ inr (e, n)
          | inr (j, s, e, l, f) ↦ inl (s, l, subst (λ k. IsFirstLeast found k s) (omega arith) f)
        ]

    -- After an evaluation of at least one path, the active path is the first of those with the least
    -- score, or path 0 where every path has the greatest score there is.
    pub evaluate_paths-IsBest :
        (m : MultipathManager Single T) → 0 < length m.paths → IsBest (evaluate_paths floats ops m)
    unfolding evaluate_paths
    evaluate_paths-IsBest m h = evaluate-IsBest m m.paths h

    IsBest-IsValid : (m : MultipathManager Single T) → IsBest m → IsValid m
    IsBest-IsValid m (inl (s, l, f)) h = omega (
      arith,
      lt_of_get_elem? (scores m) m.active_path_idx s f.there,
      length-map m.paths (λ p. p.score),
    )
    IsBest-IsValid m (inr (e, n)) h = omega arith

    evaluate-IsValid :
        (m : MultipathManager Single T) (ps : List (PathInfo Single T))
        → m.paths ≡ ps
        → IsValid (evaluate floats ops m ps)
    evaluate-IsValid m [] e = unfold evaluate in λ h. absurd (omega (arith, ap length e))
    evaluate-IsValid m (p ∷ ps) e =
        IsBest-IsValid (evaluate floats ops m (p ∷ ps)) (evaluate-IsBest m (p ∷ ps) (omega arith))

    pub evaluate_paths-IsValid :
        (m : MultipathManager Single T) → IsValid (evaluate_paths floats ops m)
    unfolding evaluate_paths
    evaluate_paths-IsValid m = evaluate-IsValid m m.paths refl

    send-ne-none :
        (m : MultipathManager Single T) (payload : List ℕ) (stream_id : ℕ)
        → IsValid m
        → send floats ops m payload stream_id ≢ none
    unfolding send
    send-ne-none m payload stream_id v e =
        ground (arith, get_elem?-ne-none m.paths m.active_path_idx)

    -- Whatever the manager, adding a path leaves the index of the active path inside the paths, and a
    -- send through such a manager reads no path out of range.
    pub send-add_path :
        (m : MultipathManager Single T) (transport : T) (is_wifi : Bool) (payload : List ℕ)
        (stream_id : ℕ)
        → let m' = add_path floats ops m transport is_wifi in
          IsValid m' × (send floats ops m' payload stream_id ≢ none)
    unfolding add_path
    send-add_path m transport is_wifi payload stream_id =
        let v = evaluate_paths-IsValid _ in (v, send-ne-none _ payload stream_id v)
