-- ===== src/Shared/Fec/Columns.antt =====
-- What stands at one byte position of a parity packet.
use Prim.Native.Nat.{bit_xor}
use ultra_display_os.Prelude.{
  ℕ, zero, suc, ◌≤◌, max, ◌≡◌, refl, sym, ap, ◌∙◌, List, [], ◌∷◌, ◌++◌, arith, length, get_or,
  replicate,
}
use ultra_display_os.Prelude.Bits.{bit_xor-zero, zero-bit_xor, bit_xor_assoc}
use ultra_display_os.Shared.Fec.{max_len, xor_into, xor_all}

-- The exclusive or of the bytes at position `i`.
unfoldable pub column : ℕ → List (List ℕ) → ℕ
column i [] = 0
column i (pkt ∷ pkts) = bit_xor (get_or pkt i 0) (column i pkts)

pub length-xor_into : (parity pkt : List ℕ) → length (xor_into parity pkt) ≡ length parity
unfolding xor_into
length-xor_into [] pkt = refl
length-xor_into (p ∷ parity) [] = refl
length-xor_into (p ∷ parity) (b ∷ pkt) = ap suc (length-xor_into parity pkt)

get_or-xor_into :
    (parity pkt : List ℕ) (i : ℕ)
    → length pkt ≤ length parity
    → get_or (xor_into parity pkt) i 0 ≡ bit_xor (get_or parity i 0) (get_or pkt i 0)
unfolding xor_into
get_or-xor_into [] [] i h = refl
get_or-xor_into [] (b ∷ pkt) i h = absurd (omega arith)
get_or-xor_into (p ∷ parity) [] i h = sym (bit_xor-zero _)
get_or-xor_into (p ∷ parity) (b ∷ pkt) zero h = refl
get_or-xor_into (p ∷ parity) (b ∷ pkt) (suc i) h = get_or-xor_into parity pkt i (omega arith)

pub get_or-xor_all :
    (parity : List ℕ) (block : List (List ℕ)) (i : ℕ)
    → max_len block ≤ length parity
    → get_or (xor_all parity block) i 0 ≡ bit_xor (get_or parity i 0) (column i block)
unfolding xor_all column max_len
get_or-xor_all parity [] i h = sym (bit_xor-zero _)
get_or-xor_all parity (pkt ∷ pkts) i h =
    get_or-xor_all (xor_into parity pkt) pkts i (omega (arith, length-xor_into parity pkt))
    ∙ ap (λ b. bit_xor b (column i pkts)) (get_or-xor_into parity pkt i (omega arith))
    ∙ bit_xor_assoc _ _ _

pub length-xor_all :
    (parity : List ℕ) (block : List (List ℕ)) → length (xor_all parity block) ≡ length parity
unfolding xor_all
length-xor_all parity [] = refl
length-xor_all parity (pkt ∷ pkts) =
    length-xor_all (xor_into parity pkt) pkts ∙ length-xor_into parity pkt

pub get_or-zeros : (n i : ℕ) → get_or {A = ℕ} (replicate n 0) i 0 ≡ 0
get_or-zeros zero i = refl
get_or-zeros (suc n) zero = refl
get_or-zeros (suc n) (suc i) = get_or-zeros n i

pub column-append :
    (i : ℕ) (xs ys : List (List ℕ)) → column i (xs ++ ys) ≡ bit_xor (column i xs) (column i ys)
unfolding column
column-append i [] ys = sym (zero-bit_xor _)
column-append i (x ∷ xs) ys =
    ap (bit_xor (get_or x i 0)) (column-append i xs ys) ∙ sym (bit_xor_assoc _ _ _)

pub max_len-append : (xs ys : List (List ℕ)) → max_len (xs ++ ys) ≡ max (max_len xs) (max_len ys)
unfolding max_len
max_len-append [] ys = omega arith
max_len-append (x ∷ xs) ys = omega (arith, max_len-append xs ys)
