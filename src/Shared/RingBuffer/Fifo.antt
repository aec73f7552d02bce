-- ===== src/Shared/RingBuffer/Fifo.antt =====
-- A valid ring buffer behaves as a queue that holds one element less than its capacity.
use ultra_display_os.Prelude.{
  ℕ, zero, suc, ◌+◌, ◌-◌, ◌%◌, ◌≤◌, ◌<◌, ◌≡◌, ◌≢◌, refl, sym, ap, ◌∙◌, List, [], ◌∷◌, ◌++◌, arith,
  length, ◌==◌, get_or, set, mod_once, mod_later, get_or-set_self, get_or-set_ne,
  get_elem?-eq-get_or, ap₂,
}
use ultra_display_os.Shared.RingBuffer.{
  RingBuffer, next_index, try_push, try_pop, push_overwrite, size,
}
use ultra_display_os.Shared.RingBuffer.Queue
use ultra_display_os.Shared.RingBuffer.Valid.{IsValid, next_index_lem}

-- Slots short of a full round do not come back to the first.
add-mod-ne : (c i n : ℕ) → i < c → suc n < c → (i + suc n) % c ≢ i
add-mod-ne c i n h l e = ground (arith, mod_once c (i + suc n))

module _ {A : Type 0} where
  -- `n` slots from index `i` on, going round at `cap`; `fill` stands for a slot out of range.
  abbrev pub slots : A → List A → ℕ → ℕ → ℕ → List A
  slots fill buffer cap i zero = []
  slots fill buffer cap i (suc n) = get_or buffer i fill ∷ slots fill buffer cap ((i + 1) % cap) n

  abbrev pub contents : A → RingBuffer A → List A
  contents fill r = slots fill r.buffer r.capacity r.tail (size r)

  length-slots : (fill : A) (buffer : List A) (cap i n : ℕ) → length (slots fill buffer cap i n) ≡ n
  length-slots fill buffer cap i zero = refl
  length-slots fill buffer cap i (suc n) = ap suc (length-slots fill buffer cap ((i + 1) % cap) n)

  slots_first :
      (fill : A) (buffer : List A) (cap i n : ℕ)
      → 0 < n
      → slots fill buffer cap i n
        ≡ get_or buffer i fill ∷ slots fill buffer cap ((i + 1) % cap) (n - 1)
  slots_first fill buffer cap i zero h = absurd (omega arith)
  slots_first fill buffer cap i (suc n) h =
      ap (λ k. get_or buffer i fill ∷ slots fill buffer cap ((i + 1) % cap) k) (omega arith)

  pub size_lt : (r : RingBuffer A) → IsValid r → size r < r.capacity
  unfolding size
  size_lt r v = let h = v.head_in in let t = v.tail_in in ground arith

  -- The head is `size` slots past the tail.
  head_of_size : (r : RingBuffer A) → IsValid r → (r.tail + size r) % r.capacity ≡ r.head
  unfolding size
  head_of_size r v =
      let h = v.head_in in
      let t = v.tail_in in ground (arith, mod_once r.capacity (r.tail + size r))

  size_empty : (r : RingBuffer A) → IsValid r → (r.tail == r.head) ≡ (size r == 0)
  unfolding size
  size_empty r v = let h = v.head_in in let t = v.tail_in in ground arith

  size_full :
      (r : RingBuffer A)
      → IsValid r
      → ((r.head + 1) % r.capacity == r.tail) ≡ (size r + 1 == r.capacity)
  unfolding size
  size_full r v =
      let h = v.head_in in let t = v.tail_in in ground (arith, mod_once r.capacity (r.head + 1))

  -- A write one past a run of slots extends the run.
  slots-set :
      (fill : A) (buffer : List A) (cap : ℕ) (x : A) (n i j : ℕ)
      → cap ≤ length buffer
      → i < cap
      → n < cap
      → j ≡ (i + n) % cap
      → slots fill (set buffer j x) cap i (suc n) ≡ slots fill buffer cap i n ++ (x ∷ [])
  slots-set fill buffer cap x zero i j hs hi hn e =
      let here : j ≡ i = ground (arith, mod_once cap (i + 0)) in
      rw here (ap (λ y. y ∷ []) (get_or-set_self buffer i x fill (omega arith)))
  slots-set fill buffer cap x (suc n) i j hs hi hn e =
      ap₂ ◌∷◌ (get_or-set_ne buffer x fill (λ q. add-mod-ne cap i n hi hn (sym e ∙ q)))
        (slots-set fill buffer cap x n ((i + 1) % cap) j hs (omega arith) (omega arith) (e ∙ later))
    where
      later : (i + suc n) % cap ≡ ((i + 1) % cap + n) % cap
      later = rw mod_later (ap (λ k. k % cap) (omega arith))

  size_grows :
      (r s : RingBuffer A)
      → IsValid r
      → s.capacity ≡ r.capacity
      → s.tail ≡ r.tail
      → s.head ≡ (r.head + 1) % r.capacity
      → s.head ≢ r.tail
      → size s ≡ suc (size r)
  unfolding size
  size_grows r s v ec et eh ne =
      let h = v.head_in in let t = v.tail_in in ground (arith, mod_once r.capacity (r.head + 1))

  size_shrinks :
      (r s : RingBuffer A)
      → IsValid r
      → s.capacity ≡ r.capacity
      → s.head ≡ r.head
      → s.tail ≡ (r.tail + 1) % r.capacity
      → r.tail ≢ r.head
      → suc (size s) ≡ size r
  unfolding size
  size_shrinks r s v ec eh et ne =
      let h = v.head_in in let t = v.tail_in in ground (arith, mod_once r.capacity (r.tail + 1))

  -- The ring after a write at its head that does not run into the tail.
  contents_extended :
      (fill : A) (r : RingBuffer A) (x : A)
      → IsValid r
      → next_index r.mask r.head ≢ r.tail
      → contents fill (record r { buffer = set r.buffer r.head x; head = next_index r.mask r.head })
        ≡ contents fill r ++ (x ∷ [])
  contents_extended fill r x v ne =
      rw
        (size_grows r (record r { buffer = set r.buffer r.head x; head = next_index r.mask r.head })
          v refl refl (next_index_lem r r.head v v.head_in) ne)
        (slots-set fill r.buffer r.capacity x (size r) r.tail r.head (omega (arith, v.stored))
          v.tail_in (size_lt r v) (sym (head_of_size r v)))

  -- A push returns what a push on the queue returns, and leaves the ring holding that queue.
  pub try_push_refines :
      (fill : A) (r : RingBuffer A) (x : A)
      → IsValid r
      → let (done, r') = try_push r x in
        (done, contents fill r') ≡ Queue.push (r.capacity - 1) (contents fill r) x
  unfolding try_push Queue.push
  try_push_refines fill r x v = ground (
    arith,
    next_index_lem r r.head v v.head_in,
    size_full r v,
    size_lt r v,
    length-slots fill r.buffer r.capacity r.tail (size r),
    contents_extended fill r x v,
  )

  -- A pop returns what a pop of the queue returns, and leaves the ring holding the rest.
  pub try_pop_refines :
      (fill : A) (r : RingBuffer A)
      → IsValid r
      → let (done, out, r') = try_pop r in
        (done, out, contents fill r') ≡ Queue.pop (contents fill r)
  unfolding try_pop Queue.pop
  try_pop_refines fill r v = ground (
    arith,
    next_index_lem r r.tail v v.tail_in,
    size_empty r v,
    size_shrinks r (record r { tail = next_index r.mask r.tail }) v refl refl
        (next_index_lem r r.tail v v.tail_in),
    slots_first fill r.buffer r.capacity r.tail (size r),
    get_elem?-eq-get_or r.buffer r.tail fill,
  )

  size_wrapped :
      (r s : RingBuffer A)
      → IsValid r
      → s.capacity ≡ r.capacity
      → s.head ≡ r.tail
      → s.tail ≡ (r.tail + 1) % r.capacity
      → size s ≡ r.capacity - 1
  unfolding size
  size_wrapped r s v ec eh et =
      let t = v.tail_in in ground (arith, mod_once r.capacity (r.tail + 1))

  -- The ring after a write at its head that runs into the tail, which then moves on.
  contents_shifted :
      (fill : A) (r s : RingBuffer A) (x : A)
      → IsValid r
      → size r ≡ r.capacity - 1
      → s.buffer ≡ set r.buffer r.head x
      → s.capacity ≡ r.capacity
      → s.head ≡ r.tail
      → s.tail ≡ (r.tail + 1) % r.capacity
      → contents fill s ≡ Queue.drop_oldest (contents fill r ++ (x ∷ []))
  unfolding Queue.drop_oldest
  contents_shifted fill r s x v full eb ec eh et =
      rw (size_wrapped r s v ec eh et, eb, ec, et, full)
        (ap Queue.drop_oldest (
          slots-set fill r.buffer r.capacity x (r.capacity - 1) r.tail r.head
            (omega (arith, v.stored)) v.tail_in (omega (arith, v.tail_in))
            (sym (head_of_size r v) ∙ ap (λ n. (r.tail + n) % r.capacity) full)))

  -- The write that always succeeds keeps the newest elements: at a full ring the oldest goes.
  pub push_overwrite_refines :
      (fill : A) (r : RingBuffer A) (x : A)
      → IsValid r
      → contents fill (push_overwrite r x) ≡ Queue.overwrite (r.capacity - 1) (contents fill r) x
  unfolding push_overwrite Queue.overwrite
  push_overwrite_refines fill r x v =
      let stepped = record r { buffer = set r.buffer r.head x; head = next_index r.mask r.head } in
      ground (
        arith,
        next_index_lem r r.head v v.head_in,
        next_index_lem r r.tail v v.tail_in,
        size_full r v,
        size_lt r v,
        length-slots fill r.buffer r.capacity r.tail (size r),
        contents_extended fill r x v,
        contents_shifted fill r (record stepped { tail = next_index r.mask r.tail }) x v,
      )

  -- The size is the number of elements held.
  pub size-length : (fill : A) (r : RingBuffer A) → length (contents fill r) ≡ size r
  size-length fill r = length-slots fill r.buffer r.capacity r.tail (size r)
