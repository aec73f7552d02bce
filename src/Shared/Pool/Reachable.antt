-- ===== src/Shared/Pool/Reachable.antt =====
-- The blocks of a pool of shared/util/pool.hpp, over all that its clients can do.
use ultra_display_os.Prelude.{
  ℕ, zero, suc, ◌+◌, ◌≤◌, ◌<◌, ◌≡◌, refl, ap, List, [], ◌∷◌, ◌++◌, append-nil, ltb, ◌==◌,
  if◌then◌else◌, if-Is, Option, none, some, subst, arith,
}
use ultra_display_os.Shared.Pool.{Pool, create, alloc, free}
use ultra_display_os.Shared.Pool.Leases.{
  count, Chain, IsValid, Allocated, alloc-Allocated, free-IsValid,
}

range : ℕ → ℕ → List ℕ
range i zero = []
range i (suc n) = i ∷ range (i + 1) n

-- The links that the constructor makes in `n + 1` nodes.
abbrev linked : ℕ → ℕ → Option ℕ
linked n i = if ltb i n then some (i + 1) else none

range-Chain : (n i k : ℕ) → i + k ≡ n → Chain (linked n i) (linked n) (range (i + 1) k)
unfolding range
range-Chain n i zero h = if-Is (λ p. p ≡ none) (ltb i n) (λ e. absurd (ground arith)) (λ e. refl)
range-Chain n i (suc k) h = (
  if-Is (λ p. p ≡ some (i + 1)) (ltb i n) (λ e. refl) (λ e. absurd (ground arith)),
  range-Chain n (i + 1) k (omega arith),
)

count-range :
    (k i n : ℕ)
    → (count k (range i n) ≤ 1)
      × (0 < count k (range i n) → i ≤ k)
      × (0 < count k (range i n) → k < i + n)
unfolding count range
count-range k i zero = (omega arith, (λ h. absurd (omega arith)), (λ h. absurd (omega arith)))
count-range k i (suc n) =
    let (once, low, high) = count-range k (i + 1) n in
    if-Is
      (λ (b : ℕ).
        (b + count k (range (i + 1) n) ≤ 1)
        × (0 < b + count k (range (i + 1) n) → i ≤ k)
        × (0 < b + count k (range (i + 1) n) → k < i + suc n))
      (k == i) (λ e. ground arith) (λ e. ground arith)

abbrev Made : Option Pool → Type 0
Made none = Unit
Made (some t) = IsValid t []

create-Made : (capacity : ℕ) → Made (create capacity)
unfolding create range
create-Made zero = tt
create-Made (suc n) =
    let all : List ℕ = 0 ∷ range (0 + 1) n in
    (
      all,
      (refl, range-Chain n 0 n (omega arith)),
      λ k.
          let (once, low, high) = count-range k 0 (suc n) in
          let same : count k (all ++ []) ≡ count k all = ap (count k) (append-nil all) in
          (omega (arith, once, same), λ h. omega (arith, high (omega (arith, same, h)))),
    )

-- A pool and the blocks that it has leased: what is given back is one of these, as a PoolPtr does, and what
-- the object leaves in the memory is arbitrary.
pub data Reach (capacity : ℕ) : Pool → List ℕ → Type 0 where
  begun : (t : Pool) → create capacity ≡ some t → Reach capacity t []
  allocs :
      (t u : Pool) (content : Option ℕ) (node : ℕ) (leased : List ℕ)
      → Reach capacity t leased
      → alloc t content ≡ (some node, u)
      → Reach capacity u (node ∷ leased)
  exhausted :
      (t u : Pool) (content : Option ℕ) (leased : List ℕ)
      → Reach capacity t leased
      → alloc t content ≡ (none, u)
      → Reach capacity u leased
  frees :
      (t : Pool) (node : ℕ) (before after : List ℕ)
      → Reach capacity t (before ++ (node ∷ after))
      → Reach capacity (free t (some node)) (before ++ after)

Reach-IsValid :
    {capacity : ℕ} {t : Pool} {leased : List ℕ} → Reach capacity t leased → IsValid t leased
Reach-IsValid {capacity = capacity} (begun t e) = subst Made e (create-Made capacity)
Reach-IsValid (allocs t u content node leased r e) =
    (subst (Allocated t leased) e (alloc-Allocated t content leased (Reach-IsValid r))).0
Reach-IsValid (exhausted t u content leased r e) =
    (subst (Allocated t leased) e (alloc-Allocated t content leased (Reach-IsValid r))).0
Reach-IsValid (frees t node before after r) = free-IsValid t node before after (Reach-IsValid r)

-- Whatever its clients take and give back, each what it has taken, a pool leases only blocks of its memory, none
-- that is leased already.
pub Reach-fresh :
    {capacity : ℕ} {t : Pool} {leased : List ℕ} (u : Pool) (content : Option ℕ) (node : ℕ)
    → Reach capacity t leased
    → alloc t content ≡ (some node, u)
    → (count node leased ≡ 0) × (node < t.capacity)
Reach-fresh {t = t} {leased = leased} u content node r e =
    let (valid, fresh, inside) =
      subst (Allocated t leased) e (alloc-Allocated t content leased (Reach-IsValid r)) in
    (fresh, inside)
