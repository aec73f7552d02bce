-- ===== src/Server/Discovery/Decoding.antt =====
-- The decoding of a name ends, inside the packet, whatever the packet holds.
use Prim.Native.Nat.{bit_and, bit_or}
use ultra_display_os.Prelude.{
  ℕ, zero, suc, ◌+◌, ◌-◌, ◌*◌, ◌<◌, ◌≤◌, le→leb, ◌≡◌, refl, Bool, true, false, some, List, [], ◌∷◌,
  arith, ltb, leb, ◌==◌, if◌then◌else◌, length, get_elem?, Bool-cases, inl, inr,
}
use ultra_display_os.Server.Discovery.{add_label, read_bytes, decode_loop, decode_dns_name}

pub get_elem?_inside :
    {A : Type 0} (xs : List A) (i : ℕ) → i < length xs → (x : A) × (get_elem? xs i ≡ some x)
get_elem?_inside [] i h = absurd (omega arith)
get_elem?_inside (x ∷ xs) zero h = (x, refl)
get_elem?_inside (x ∷ xs) (suc i) h = get_elem?_inside xs i (omega arith)

pub read_bytes_inside :
    (pkt : List ℕ) (offset n : ℕ)
    → offset + n ≤ length pkt
    → (bytes : List ℕ) × (read_bytes pkt offset n ≡ some bytes)
unfolding read_bytes
read_bytes_inside pkt offset n h = rw (le→leb (offset + n) (length pkt) h) (_, refl)

mul_pred : (n m : ℕ) → 0 < n → n * m ≡ (n - 1) * m + m
mul_pred zero m h = absurd (omega arith)
mul_pred (suc n) m h = ground arith

-- With `fuel` rounds, where `left` jumps are still allowed, each of which costs at most `span` rounds, the loop ends.
abbrev Ends : ℕ → ℕ → List ℕ → Type 0
Ends fuel span pkt =
    (left offset : ℕ) (jumped : Bool) (original jumps : ℕ) (result : List ℕ)
    → jumps + left ≡ 11
    → left * span + (length pkt - offset) < fuel
    → (name : List ℕ) × (next : ℕ) × (decode_loop fuel pkt offset jumped original jumps result
        ≡ some (name, next))

module _ (fuel span : ℕ) (pkt : List ℕ) (s : span ≡ length pkt + 1) (rest : Ends fuel span pkt)
    (left offset : ℕ) (jumped : Bool) (original jumps : ℕ) (result : List ℕ) (j : jumps + left ≡ 11)
    (f : left * span + (length pkt - offset) < suc fuel) where
  abbrev Goal : Type 0
  Goal =
      (name : List ℕ) × (next : ℕ) × (decode_loop (suc fuel) pkt offset jumped original jumps result
        ≡ some (name, next))

  jump :
      (len low : ℕ)
      → ltb offset (length pkt) ≡ true
      → get_elem? pkt offset ≡ some len
      → (len == 0) ≡ false
      → (bit_and len 0xc0 == 0xc0) ≡ true
      → leb (length pkt) (offset + 1) ≡ false
      → get_elem? pkt (offset + 1) ≡ some low
      → Goal
  unfolding decode_loop
  jump len low inside e z p more e' = elim (Bool-cases (ltb 10 (jumps + 1))) [
    | inl b ↦ rw (inside, e, z, p, more, e', b, decode_loop) (_, _, refl)
    | inr b ↦
        rw (inside, e, z, p, more, e', b, decode_loop)
          (rest (left - 1) (bit_or (bit_and len 0x3f * 256) low) true
            (if jumped then original else offset + 2) (jumps + 1) result (ground arith)
            (omega (arith, mul_pred left span (ground arith))))
  ]

  pointer :
      (len : ℕ)
      → ltb offset (length pkt) ≡ true
      → get_elem? pkt offset ≡ some len
      → (len == 0) ≡ false
      → (bit_and len 0xc0 == 0xc0) ≡ true
      → Goal
  unfolding decode_loop
  pointer len inside e z p = elim (Bool-cases (leb (length pkt) (offset + 1))) [
    | inl last ↦ rw (inside, e, z, p, last, decode_loop) (_, _, refl)
    | inr more ↦
        let (low, e') = get_elem?_inside pkt (offset + 1) (ground arith) in
        jump len low inside e z p more e'
  ]

  label :
      (len : ℕ)
      → ltb offset (length pkt) ≡ true
      → get_elem? pkt offset ≡ some len
      → (len == 0) ≡ false
      → (bit_and len 0xc0 == 0xc0) ≡ false
      → Goal
  unfolding decode_loop
  label len inside e z p = elim (Bool-cases (ltb (length pkt) (offset + 1 + len))) [
    | inl short ↦ rw (inside, e, z, p, short, decode_loop) (_, _, refl)
    | inr fits ↦
        let (bytes, read) = read_bytes_inside pkt (offset + 1) len (ground arith) in
        rw (inside, e, z, p, fits, read, decode_loop)
          (rest left (offset + 1 + len) jumped original jumps (add_label result bytes) j
            (ground arith))
  ]

  in_packet : ltb offset (length pkt) ≡ true → (len : ℕ) × (get_elem? pkt offset ≡ some len) → Goal
  unfolding decode_loop
  in_packet inside (len, e) = elim (Bool-cases (len == 0)) [
    | inl z ↦ rw (inside, e, z, decode_loop) (_, _, refl)
    | inr z ↦ elim (Bool-cases (bit_and len 0xc0 == 0xc0)) [
      | inl p ↦ pointer len inside e z p
      | inr p ↦ label len inside e z p
    ]
  ]

  round_lem : Goal
  unfolding decode_loop
  round_lem = elim (Bool-cases (ltb offset (length pkt))) [
    | inr past ↦ rw (past, decode_loop) (_, _, refl)
    | inl inside ↦ in_packet inside (get_elem?_inside pkt offset (ground arith))
  ]

decode_loop_lem : (fuel span : ℕ) (pkt : List ℕ) → span ≡ length pkt + 1 → Ends fuel span pkt
decode_loop_lem zero span pkt s left offset jumped original jumps result j f = absurd (omega arith)
decode_loop_lem (suc fuel) span pkt s left offset jumped original jumps result j f =
    round_lem fuel span pkt s (decode_loop_lem fuel span pkt s) left offset jumped original jumps
      result j f

-- Whatever the packet and the offset, decoding ends and reads no byte outside the packet.
pub decode_dns_name_lem :
    (pkt : List ℕ) (offset : ℕ)
    → (name : List ℕ) × (next : ℕ) × (decode_dns_name pkt offset ≡ some (name, next))
unfolding decode_dns_name
decode_dns_name_lem pkt offset =
    decode_loop_lem (12 * (length pkt + 1)) (length pkt + 1) pkt refl 11 offset false offset 0 []
      refl (omega arith)
