-- ===== src/Shared/Fec/Cauchy.antt =====
-- The coefficients of `encode_rs`, and what they make of the code.
use Prim.Native.Nat.{bit_xor}
use ultra_display_os.Prelude.{
  ℕ, zero, suc, ◌+◌, ◌-◌, ◌/◌, ◌≤◌, ◌<◌, ◌≡◌, ◌≢◌, refl, sym, ap, ap₂, ◌∙◌, Bool, true, not, List,
  [], ◌∷◌, ◌++◌, arith, ◌==◌, ==_iff, replicate, all_below, all_below_sound,
}
use ultra_display_os.Prelude.Bits.{bit_xor_assoc, bit_xor_comm}
use ultra_display_os.Shared.Fec.{
  FecLevel, none, low, medium, high, group_size, total_size, gf_add, gf_mul, max_len, xor_into,
  xor_all, divisor, coeff, mul_into, rs_row, rs_rows, encode_rs, stamp, encode_xor,
}

gf_mul-one_table : all_below 256 (λ x. gf_mul 1 x == x) ≡ true
unfolding all_below gf_mul
gf_mul-one_table = refl

-- One is the unit of the multiplication on bytes.
pub gf_mul-one : (x : ℕ) → x < 256 → gf_mul 1 x ≡ x
gf_mul-one x h =
    (==_iff (gf_mul 1 x) x).0 (all_below_sound 256 (λ y. gf_mul 1 y == y) x gf_mul-one_table h)

one-div : (d : ℕ) → 1 / d ≤ 1
one-div zero = omega arith
one-div (suc d) = grind arith

-- The integer quotient is 0 or 1, and the fallback makes 1 of 0.
pub coeff-one : (k p d : ℕ) → coeff k p d ≡ 1
unfolding coeff
coeff-one k p d = ground (arith, one-div (divisor k p d))

-- The packets hold bytes.
abbrev pub Bytes : List ℕ → Type 0
Bytes [] = Unit {0}
Bytes (b ∷ bs) = (b < 256) × Bytes bs

abbrev pub AllBytes : List (List ℕ) → Type 0
AllBytes [] = Unit {0}
AllBytes (pkt ∷ pkts) = Bytes pkt × AllBytes pkts

mul_into-one : (parity pkt : List ℕ) → Bytes pkt → mul_into 1 parity pkt ≡ xor_into parity pkt
unfolding mul_into xor_into gf_add
mul_into-one [] pkt h = refl
mul_into-one (p ∷ parity) [] h = refl
mul_into-one (p ∷ parity) (b ∷ pkt) h =
    ap₂ (λ x xs. bit_xor p x ∷ xs) (gf_mul-one b h.0) (mul_into-one parity pkt h.1)

rs_row-eq-xor_all :
    (k p d : ℕ) (parity : List ℕ) (block : List (List ℕ))
    → AllBytes block
    → rs_row k p d parity block ≡ xor_all parity block
unfolding rs_row xor_all
rs_row-eq-xor_all k p d parity [] h = refl
rs_row-eq-xor_all k p d parity (pkt ∷ pkts) h =
    rw (coeff-one, mul_into-one parity pkt h.0)
      (rs_row-eq-xor_all k p (d + 1) (xor_into parity pkt) pkts h.1)

rs_rows-eq-replicate :
    (rows p k group : ℕ) (block : List (List ℕ))
    → AllBytes block
    → rs_rows rows p k group block
      ≡ replicate rows (stamp group (xor_all (replicate (max_len block) 0) block))
unfolding rs_rows
rs_rows-eq-replicate zero p k group block h = refl
rs_rows-eq-replicate (suc rows) p k group block h =
    ap₂ (λ x xs. stamp group x ∷ xs) (rs_row-eq-xor_all k p 0 (replicate (max_len block) 0) block h)
      (rs_rows-eq-replicate rows (p + 1) k group block h)

-- Whatever the group sizes: all parity packets that the Reed-Solomon levels make are copies of the one
-- packet that the exclusive-or level makes of the same block.
pub encode_rs-eq-xor :
    (k n group : ℕ) (block : List (List ℕ)) (parity : List ℕ)
    → AllBytes block
    → encode_xor group block ≡ parity ∷ []
    → encode_rs k n group block ≡ replicate (n - k) parity
unfolding encode_rs encode_xor
encode_rs-eq-xor k n group [] parity h e = cc
encode_rs-eq-xor k n group (pkt ∷ pkts) parity h e =
    rs_rows-eq-replicate (n - k) 0 k group (pkt ∷ pkts) h ∙ ap (replicate (n - k)) (first e)
  where
    first : {x y : List ℕ} → x ∷ [] ≡ y ∷ [] → x ≡ y
    first q = cc

divisor_table : ℕ → ℕ → Bool
divisor_table k rows = all_below rows (λ p. all_below k (λ d. not (divisor k p d == 0)))

nonzero : (k rows p d : ℕ) → divisor_table k rows ≡ true → p < rows → d < k → divisor k p d ≢ 0
unfolding divisor_table
nonzero k rows p d t h l e =
    let row = all_below_sound rows (λ p. all_below k (λ d. not (divisor k p d == 0))) p t h in
    let cell = all_below_sound k (λ d. not (divisor k p d == 0)) d row l in ground arith

-- The division is defined at every level, for every parity row and packet of a group.
pub divisor-ne-zero :
    (level : FecLevel) (p d : ℕ)
    → p < total_size level - group_size level
    → d < group_size level
    → divisor (group_size level) p d ≢ 0
unfolding group_size total_size divisor_table all_below divisor
divisor-ne-zero none p d h l = absurd (omega arith)
divisor-ne-zero low p d h l = nonzero 10 1 p d refl h l
divisor-ne-zero medium p d h l = nonzero 16 4 p d refl h l
divisor-ne-zero high p d h l = nonzero 6 4 p d refl h l

xor_into-swap :
    (parity a b : List ℕ) → xor_into (xor_into parity a) b ≡ xor_into (xor_into parity b) a
unfolding xor_into
xor_into-swap [] a b = refl
xor_into-swap (p ∷ parity) [] [] = refl
xor_into-swap (p ∷ parity) [] (y ∷ b) = refl
xor_into-swap (p ∷ parity) (x ∷ a) [] = refl
xor_into-swap (p ∷ parity) (x ∷ a) (y ∷ b) =
    ap₂ ◌∷◌ (bit_xor_assoc p x y ∙ ap (bit_xor p) (bit_xor_comm x y) ∙ sym (bit_xor_assoc p y x))
      (xor_into-swap parity a b)

xor_all-swap :
    (parity : List ℕ) (xs ys : List (List ℕ)) (a b : List ℕ)
    → xor_all parity (xs ++ (a ∷ b ∷ ys)) ≡ xor_all parity (xs ++ (b ∷ a ∷ ys))
unfolding xor_all
xor_all-swap parity [] ys a b = ap (λ p. xor_all p ys) (xor_into-swap parity a b)
xor_all-swap parity (x ∷ xs) ys a b = xor_all-swap (xor_into parity x) xs ys a b

max_len-swap :
    (xs ys : List (List ℕ)) (a b : List ℕ)
    → max_len (xs ++ (a ∷ b ∷ ys)) ≡ max_len (xs ++ (b ∷ a ∷ ys))
unfolding max_len
max_len-swap [] ys a b = omega arith
max_len-swap (x ∷ xs) ys a b = omega (arith, max_len-swap xs ys a b)

AllBytes-swap :
    (xs ys : List (List ℕ)) (a b : List ℕ)
    → AllBytes (xs ++ (a ∷ b ∷ ys))
    → AllBytes (xs ++ (b ∷ a ∷ ys))
AllBytes-swap [] ys a b h = (h.1.0, (h.0, h.1.1))
AllBytes-swap (x ∷ xs) ys a b h = (h.0, AllBytes-swap xs ys a b h.1)

encode_rs-rows :
    (k n group : ℕ) (block : List (List ℕ))
    → block ≢ []
    → encode_rs k n group block ≡ rs_rows (n - k) 0 k group block
unfolding encode_rs
encode_rs-rows k n group [] h = absurd (h refl)
encode_rs-rows k n group (pkt ∷ pkts) h = refl

-- Exchanging two neighbouring packets of a block, whatever they hold, changes no parity packet: from
-- the parity nobody can tell which of two lost packets stood where, however many parity packets
-- the level makes.
pub encode_rs-swap :
    (k n group : ℕ) (xs ys : List (List ℕ)) (a b : List ℕ)
    → AllBytes (xs ++ (a ∷ b ∷ ys))
    → encode_rs k n group (xs ++ (a ∷ b ∷ ys)) ≡ encode_rs k n group (xs ++ (b ∷ a ∷ ys))
encode_rs-swap k n group xs ys a b h =
    encode_rs-rows k n group (xs ++ (a ∷ b ∷ ys)) (not_nil xs a (b ∷ ys))
    ∙ rs_rows-eq-replicate (n - k) 0 k group (xs ++ (a ∷ b ∷ ys)) h
    ∙ ap (λ p. replicate (n - k) (stamp group p)) parity
    ∙ sym (rs_rows-eq-replicate (n - k) 0 k group (xs ++ (b ∷ a ∷ ys)) (AllBytes-swap xs ys a b h))
    ∙ sym (encode_rs-rows k n group (xs ++ (b ∷ a ∷ ys)) (not_nil xs b (a ∷ ys)))
  where
    not_nil : (xs : List (List ℕ)) (c : List ℕ) (zs : List (List ℕ)) → xs ++ (c ∷ zs) ≢ []
    not_nil [] c zs e = cc e
    not_nil (x ∷ xs) c zs e = cc e

    parity :
        xor_all (replicate (max_len (xs ++ (a ∷ b ∷ ys))) 0) (xs ++ (a ∷ b ∷ ys))
        ≡ xor_all (replicate (max_len (xs ++ (b ∷ a ∷ ys))) 0) (xs ++ (b ∷ a ∷ ys))
    parity =
        ap (λ n. xor_all (replicate n 0) (xs ++ (a ∷ b ∷ ys))) (max_len-swap xs ys a b)
        ∙ xor_all-swap (replicate (max_len (xs ++ (b ∷ a ∷ ys))) 0) xs ys a b
