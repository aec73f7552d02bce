-- ===== src/Shared/Fec/Recovery.antt =====
-- A lost packet of a group, from one parity packet and the other packets.
use Prim.Native.Nat.{bit_xor}
use ultra_display_os.Prelude.{
  ℕ, ◌≤◌, ◌≡◌, ◌≢◌, refl, sym, ap, ◌∙◌, List, [], ◌∷◌, ◌++◌, arith, length, get_or, replicate, set,
  get_or-set_ne, length-set, length-replicate,
}
use ultra_display_os.Prelude.Bits.{
  bit_xor-zero, zero-bit_xor, bit_xor_self, bit_xor_comm, bit_xor_assoc,
}
use ultra_display_os.Shared.Messages.{type_offset, group_offset}
use ultra_display_os.Shared.Fec.{max_len, xor_all, stamp, encode_xor}
use ultra_display_os.Shared.Fec.Columns.{
  column, length-xor_all, get_or-xor_all, get_or-zeros, column-append, max_len-append,
}

-- The parity of a block before its header is stamped.
abbrev pub xor_parity : List (List ℕ) → List ℕ
xor_parity block = xor_all (replicate (max_len block) 0) block

pub xor_parity-column :
    (block : List (List ℕ)) (i : ℕ) → get_or (xor_parity block) i 0 ≡ column i block
xor_parity-column block i =
    get_or-xor_all (replicate (max_len block) 0) block i
      (omega (arith, length-replicate {A = ℕ} (max_len block) 0))
    ∙ ap (λ b. bit_xor b (column i block)) (get_or-zeros (max_len block) i)
    ∙ zero-bit_xor (column i block)

pub length-xor_parity : (block : List (List ℕ)) → length (xor_parity block) ≡ max_len block
length-xor_parity block =
    length-xor_all (replicate (max_len block) 0) block ∙ length-replicate {A = ℕ} (max_len block) 0

-- The stamp leaves every other byte alone, and the length.
pub get_or-stamp :
    (group : ℕ) (parity : List ℕ) (i : ℕ)
    → i ≢ type_offset
    → i ≢ group_offset
    → get_or (stamp group parity) i 0 ≡ get_or parity i 0
unfolding stamp
get_or-stamp group parity i t g = ground (
  arith,
  get_or-set_ne parity {i = type_offset} {j = i} 2 0 (λ e. t (sym e)),
  get_or-set_ne (set parity type_offset 2) {i = group_offset} {j = i} group 0 (λ e. g (sym e)),
)

pub length-stamp : (group : ℕ) (parity : List ℕ) → length (stamp group parity) ≡ length parity
unfolding stamp
length-stamp group parity = ground (
  arith,
  length-set parity type_offset 2,
  length-set (set parity type_offset 2) group_offset group,
)

cancel : (a l b : ℕ) → bit_xor (bit_xor a (bit_xor l b)) (bit_xor a b) ≡ l
cancel a l b =
    ap (λ t. bit_xor t (bit_xor a b))
      (sym (bit_xor_assoc a l b) ∙ ap (λ t. bit_xor t b) (bit_xor_comm a l) ∙ bit_xor_assoc l a b)
    ∙ bit_xor_assoc l (bit_xor a b) (bit_xor a b)
    ∙ ap (bit_xor l) (bit_xor_self (bit_xor a b))
    ∙ bit_xor-zero l

stamped_recovers :
    (group : ℕ) (before after : List (List ℕ)) (lost : List ℕ) (i : ℕ)
    → i ≢ type_offset
    → i ≢ group_offset
    → get_or (xor_all (stamp group (xor_parity (before ++ (lost ∷ after)))) (before ++ after)) i 0
      ≡ get_or lost i 0
unfolding max_len
stamped_recovers group before after lost i t g =
    get_or-xor_all (stamp group parity) (before ++ after) i (omega (arith, shorter))
    ∙ ap (λ b. bit_xor b (column i (before ++ after)))
        (get_or-stamp group parity i t g
          ∙ xor_parity-column block i
          ∙ column-append i before (lost ∷ after))
    ∙ ap (bit_xor (bit_xor (column i before) (column i (lost ∷ after))))
        (column-append i before after)
    ∙ unfold column in cancel (column i before) (get_or lost i 0) (column i after)
  where
    block : List (List ℕ)
    block = before ++ (lost ∷ after)

    parity : List ℕ
    parity = xor_parity block

    shorter : max_len (before ++ after) ≤ length (stamp group parity)
    shorter = omega (
      arith,
      length-stamp group parity,
      length-xor_parity block,
      max_len-append before (lost ∷ after),
      max_len-append before after,
    )

-- The one packet that a block's exclusive-or parity is.
pub encode_xor-block :
    (group : ℕ) (before after : List (List ℕ)) (lost : List ℕ)
    → encode_xor group (before ++ (lost ∷ after))
      ≡ stamp group (xor_parity (before ++ (lost ∷ after))) ∷ []
unfolding encode_xor
encode_xor-block group [] after lost = refl
encode_xor-block group (pkt ∷ before) after lost = refl

-- The parity packet that the exclusive-or level makes of a block, exclusive-ored with the packets of the
-- block but one, is that one, padded with zeros, at every byte position but those of the packet type and of
-- the FEC group, whatever the packets and their lengths.
pub xor_recovers :
    (group : ℕ) (before after : List (List ℕ)) (lost parity : List ℕ) (i : ℕ)
    → encode_xor group (before ++ (lost ∷ after)) ≡ parity ∷ []
    → i ≢ type_offset
    → i ≢ group_offset
    → get_or (xor_all parity (before ++ after)) i 0 ≡ get_or lost i 0
xor_recovers group before after lost parity i e t g =
    ap (λ p. get_or (xor_all p (before ++ after)) i 0)
      (first (sym e ∙ encode_xor-block group before after lost))
    ∙ stamped_recovers group before after lost i t g
  where
    first : {x y : List ℕ} → x ∷ [] ≡ y ∷ [] → x ≡ y
    first q = cc
