-- ===== src/Shared/Pool/Leases.antt =====
-- The blocks that a pool of shared/util/pool.hpp has leased are its clients' alone.
use ultra_display_os.Prelude.{
  ℕ, ◌+◌, ◌≤◌, ◌<◌, ◌≡◌, refl, sym, ap, ◌∙◌, List, [], ◌∷◌, ◌++◌, ◌==◌, if◌then◌else◌, Option, none,
  some, subst, arith,
}
use ultra_display_os.Shared.Pool.{Pool, store, take_head, alloc, free}

unfoldable pub count : ℕ → List ℕ → ℕ
count k [] = 0
count k (x ∷ xs) = (if k == x then 1 else 0) + count k xs

count-append : (k : ℕ) (xs ys : List ℕ) → count k (xs ++ ys) ≡ count k xs + count k ys
unfolding count
count-append k [] ys = omega arith
count-append k (x ∷ xs) ys = omega (arith, count-append k xs ys)

count_self : (k : ℕ) (xs : List ℕ) → count k (k ∷ xs) ≡ 1 + count k xs
unfolding count
count_self k xs = ground arith

-- The nodes that are reached from a pointer.
abbrev pub Chain : Option ℕ → (ℕ → Option ℕ) → List ℕ → Type 0
Chain p next [] = p ≡ none
Chain p next (x ∷ xs) = (p ≡ some x) × Chain (next x) next xs

store_other :
    (next : ℕ → Option ℕ) (node i : ℕ) (v : Option ℕ)
    → count node (i ∷ []) ≡ 0
    → store next node v i ≡ next i
unfolding store count
store_other next node i v h = ground arith

store_self : (next : ℕ → Option ℕ) (node : ℕ) (v : Option ℕ) → store next node v node ≡ v
unfolding store
store_self next node v = ground arith

Chain-store :
    (p : Option ℕ) (next : ℕ → Option ℕ) (xs : List ℕ) (node : ℕ) (v : Option ℕ)
    → count node xs ≡ 0
    → Chain p next xs
    → Chain p (store next node v) xs
unfolding count
Chain-store p next [] node v h c = c
Chain-store p next (x ∷ xs) node v h c = (
  c.0,
  subst (λ q. Chain q (store next node v) xs) (sym (store_other next node x v (omega arith)))
      (Chain-store (next x) next xs node v (omega arith) c.1),
)

-- The free nodes and the leased ones are blocks of the pool, none of them twice.
abbrev pub Apart : ℕ → List ℕ → Type 0
Apart capacity nodes = (k : ℕ) → (count k nodes ≤ 1) × (0 < count k nodes → k < capacity)

abbrev pub IsValid : Pool → List ℕ → Type 0
IsValid t leased = (xs : List ℕ) × Chain t.head t.next xs × Apart t.capacity (xs ++ leased)

abbrev value_or : ℕ → Option ℕ → ℕ
value_or d none = d
value_or d (some x) = x

-- What an `alloc` comes to: nothing changes, or it gives a block that was leased to no one.
abbrev pub Allocated : Pool → List ℕ → Option ℕ × Pool → Type 0
Allocated t leased (none, u) = IsValid u leased × (t.head ≡ none)
Allocated t leased (some node, u) =
    IsValid u (node ∷ leased) × (count node leased ≡ 0) × (node < t.capacity)

-- A node that moves from the one part to the other.
count-move : (k x : ℕ) (xs ys : List ℕ) → count k (xs ++ (x ∷ ys)) ≡ count k (x ∷ (xs ++ ys))
unfolding count
count-move k x xs ys = omega (arith, count-append k xs (x ∷ ys), count-append k xs ys)

Apart-same :
    (capacity : ℕ) (xs ys : List ℕ)
    → ((k : ℕ) → count k ys ≡ count k xs)
    → Apart capacity xs
    → Apart capacity ys
Apart-same capacity xs ys same a k =
    (omega (arith, same k, (a k).0), λ h. (a k).1 (omega (arith, same k, h)))

take_head-Allocated :
    (t : Pool) (p content : Option ℕ) (leased xs : List ℕ)
    → t.head ≡ p
    → Chain p t.next xs
    → Apart t.capacity (xs ++ leased)
    → Allocated t leased (take_head t p content)
unfolding take_head
take_head-Allocated t none content leased xs e c a =
    ((xs, subst (λ q. Chain q t.next xs) (sym e) c, a), e)
take_head-Allocated t (some node) content leased [] e c a = absurd (cc c)
take_head-Allocated t (some node) content leased (x ∷ xs) e c a =
    let same : node ≡ x = ap (value_or 0) c.0 in
    let here = count_self x (xs ++ leased) in
    let split = count-append x xs leased in
    let once = (a x).0 in
    let fresh : count node xs ≡ 0 =
      subst (λ k. count k xs ≡ 0) (sym same) (omega (arith, here, split, once)) in
    (
      (
        xs,
        Chain-store (t.next node) t.next xs node content fresh
            (subst (λ k. Chain (t.next k) t.next xs) (sym same) c.1),
        Apart-same t.capacity (x ∷ (xs ++ leased)) (xs ++ (node ∷ leased))
            (λ k. ap (λ n. count k (xs ++ (n ∷ leased))) same ∙ count-move k x xs leased) a,
      ),
      subst (λ k. count k leased ≡ 0) (sym same) (omega (arith, here, split, once)),
      subst (λ k. k < t.capacity) (sym same) ((a x).1 (omega (arith, here))),
    )

pub alloc-Allocated :
    (t : Pool) (content : Option ℕ) (leased : List ℕ)
    → IsValid t leased
    → Allocated t leased (alloc t content)
unfolding alloc
alloc-Allocated t content leased (xs, c, a) =
    take_head-Allocated t t.head content leased xs refl c a

moved :
    (k node : ℕ) (xs before after : List ℕ)
    → count k ((node ∷ xs) ++ (before ++ after)) ≡ count k (xs ++ (before ++ (node ∷ after)))
unfolding count
moved k node xs before after = omega (
  arith,
  count-append k xs (before ++ after),
  count-append k before after,
  count-append k xs (before ++ (node ∷ after)),
  count-append k before (node ∷ after),
)

pub free-IsValid :
    (t : Pool) (node : ℕ) (before after : List ℕ)
    → IsValid t (before ++ (node ∷ after))
    → IsValid (free t (some node)) (before ++ after)
unfolding free
free-IsValid t node before after (xs, c, a) =
    let counts : count node (xs ++ (before ++ (node ∷ after)))
        ≡ count node xs + (1 + count node (before ++ after)) =
      omega (
        arith,
        count-append node xs (before ++ (node ∷ after)),
        count-move node node before after,
        count_self node (before ++ after),
      ) in
    let fresh : count node xs ≡ 0 = omega (arith, counts, (a node).0) in
    (
      node ∷ xs,
      (
        refl,
        subst (λ q. Chain q (store t.next node t.head) xs) (sym (store_self t.next node t.head))
            (Chain-store t.head t.next xs node t.head fresh c),
      ),
      Apart-same t.capacity (xs ++ (before ++ (node ∷ after))) ((node ∷ xs) ++ (before ++ after))
          (λ k. moved k node xs before after) a,
    )
