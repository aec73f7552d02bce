-- ===== src/Server/Discovery/RoundTrip.antt =====
-- A name that was written is read back.
use Prim.Native.Nat.{bit_and}
use ultra_display_os.Prelude.{
  ℕ, zero, suc, ◌+◌, ◌*◌, ◌<◌, ◌≡◌, refl, sym, ap, ap₂, ◌∙◌, true, false, not, some, List, [], ◌∷◌,
  ◌++◌, arith, ltb, leb, ◌==◌, length, take, drop, get_elem?, Bool-cases, Option-cases, inl, inr,
  length-append, append_assoc, lt→ltb, not_lt→ltb, le→leb, all_below, all_below_sound,
}
use ultra_display_os.Server.Discovery.{
  labels, encode_labels, encode_dns_name, add_label, read_bytes, decode_loop, decode_dns_name,
}

get_elem?-append :
    {A : Type 0} (pre rest : List A) (x : A) → get_elem? (pre ++ (x ∷ rest)) (length pre) ≡ some x
get_elem?-append [] rest x = refl
get_elem?-append (y ∷ pre) rest x = get_elem?-append pre rest x

drop-suc :
    {A : Type 0} (pre rest : List A) (x : A) → drop (suc (length pre)) (pre ++ (x ∷ rest)) ≡ rest
drop-suc [] rest x = refl
drop-suc (y ∷ pre) rest x = drop-suc pre rest x

drop-append :
    {A : Type 0} (pre rest : List A) (x : A) → drop (length pre + 1) (pre ++ (x ∷ rest)) ≡ rest
drop-append pre rest x =
    let one : length pre + 1 ≡ suc (length pre) = omega arith in
    ap (λ n. drop n (pre ++ (x ∷ rest))) one ∙ drop-suc pre rest x

take-append : {A : Type 0} (xs rest : List A) → take (length xs) (xs ++ rest) ≡ xs
take-append [] rest = refl
take-append (x ∷ xs) rest = ap (λ l. x ∷ l) (take-append xs rest)

no_pointers : all_below 192 (λ n. not (bit_and n 0xc0 == 0xc0)) ≡ true
unfolding all_below
no_pointers = refl

no_pointer : (n : ℕ) → n < 192 → (bit_and n 0xc0 == 0xc0) ≡ false
no_pointer n h =
    let cell = all_below_sound 192 (λ n. not (bit_and n 0xc0 == 0xc0)) n no_pointers h in
    ground arith

-- Labels that are not empty, and shorter than what a pointer's first byte starts at.
abbrev pub AllShort : List (List ℕ) → Type 0
AllShort [] = Unit {0}
AllShort (label ∷ rest) = (0 < length label) × (length label < 192) × AllShort rest

-- The labels, with dots between them, behind a name.
unfoldable pub join : List ℕ → List (List ℕ) → List ℕ
unfolding add_label
join result [] = result
join result (label ∷ rest) = join (add_label result label) rest

decode_label :
    (fuel : ℕ) (pre label tail : List ℕ) (original : ℕ) (result : List ℕ)
    → 0 < length label
    → length label < 192
    → decode_loop
        (suc fuel)
        (pre ++ (length label ∷ (label ++ tail)))
        (length pre)
        false
        original
        0
        result
      ≡ decode_loop fuel
          (pre ++ (length label ∷ (label ++ tail)))
          (length pre + 1 + length label)
          false
          original
          0
          (add_label result label)
unfolding decode_loop read_bytes
decode_label fuel pre label tail original result h k =
    let pkt = pre ++ (length label ∷ (label ++ tail)) in
    let size = length-append pre (length label ∷ (label ++ tail)) in
    let size' = length-append label tail in
    let inside : ltb (length pre) (length pkt) ≡ true = lt→ltb _ _ (omega arith) in
    let fits : ltb (length pkt) (length pre + 1 + length label) ≡ false =
      not_lt→ltb _ _ (omega arith) in
    let read : leb (length pre + 1 + length label) (length pkt) ≡ true = le→leb _ _ (omega arith) in
    let some_label : (length label == 0) ≡ false = ground arith in
    rw
      (
        inside,
        get_elem?-append pre (label ++ tail) (length label),
        some_label,
        no_pointer (length label) k,
        fits,
        read,
        drop-append pre (label ++ tail) (length label),
        take-append label tail,
        decode_loop,
      )
      refl

decode_end :
    (fuel : ℕ) (pre tail : List ℕ) (original : ℕ) (result : List ℕ)
    → decode_loop (suc fuel) (pre ++ (0 ∷ tail)) (length pre) false original 0 result
      ≡ some (result, length pre + 1)
unfolding decode_loop
decode_end fuel pre tail original result =
    let inside : ltb (length pre) (length (pre ++ (0 ∷ tail))) ≡ true =
      lt→ltb _ _ (omega (arith, length-append pre (0 ∷ tail))) in
    rw (inside, get_elem?-append pre tail 0, decode_loop) refl

encode_label :
    (size pos : ℕ) (label : List ℕ) (rest : List (List ℕ)) (bytes : List ℕ)
    → length label < 192
    → encode_labels size pos (label ∷ rest) ≡ some bytes
    → (coded : List ℕ) × (encode_labels size (pos + 1 + length label) rest ≡ some coded)
      × (bytes ≡ length label ∷ (label ++ coded))
unfolding encode_labels
encode_label size pos label rest bytes h e = elim (Bool-cases (leb size (pos + 1 + length label))) [
  | inl b ↦ absurd (ground arith)
  | inr b ↦ elim (Option-cases (encode_labels size (pos + 1 + length label) rest)) [
    | inl q ↦ absurd (ground arith)
    | inr (coded, q) ↦ (coded, q, ground arith)
  ]
]

encode_end :
    (size pos : ℕ) (bytes : List ℕ) → encode_labels size pos [] ≡ some bytes → bytes ≡ 0 ∷ []
unfolding encode_labels
encode_end size pos bytes e = ground arith

decode_lem :
    (labels : List (List ℕ)) (fuel size pos : ℕ) (pre post bytes : List ℕ) (original : ℕ)
    (result : List ℕ)
    → encode_labels size pos labels ≡ some bytes
    → AllShort labels
    → length labels < fuel
    → decode_loop fuel (pre ++ (bytes ++ post)) (length pre) false original 0 result
      ≡ some (join result labels, length pre + length bytes)
unfolding join
decode_lem labels zero size pos pre post bytes original result e h f = absurd (omega arith)
decode_lem [] (suc fuel) size pos pre post bytes original result e h f =
    rw (encode_end size pos bytes e) (decode_end fuel pre post original result)
decode_lem (label ∷ rest) (suc fuel) size pos pre post bytes original result e h f =
    let (coded, e', same) = encode_label size pos label rest bytes h.1 e in
    let done = pre ++ (length label ∷ label) in
    let name = join (add_label result label) rest in
    let moved : length pre + 1 + length label ≡ length done =
      omega (arith, length-append pre (length label ∷ label)) in
    let ended : length done + length coded ≡ length pre + suc (length (label ++ coded)) =
      omega (arith, length-append pre (length label ∷ label), length-append label coded) in
    rw same (
      ap
        (λ l.
          decode_loop (suc fuel) (pre ++ (length label ∷ l)) (length pre) false original 0 result)
        (append_assoc label coded post)
      ∙ decode_label fuel pre label (coded ++ post) original result h.0 h.1
      ∙ ap₂ (λ pkt offset. decode_loop fuel pkt offset false original 0 (add_label result label))
          (sym (append_assoc pre (length label ∷ label) (coded ++ post))) moved
      ∙ decode_lem rest fuel size (pos + 1 + length label) done post coded original
          (add_label result label) e' h.2 (omega arith)
      ∙ ap (λ n. some (name, n)) ended)

length_labels :
    (size pos : ℕ) (labels : List (List ℕ)) (bytes : List ℕ)
    → encode_labels size pos labels ≡ some bytes
    → AllShort labels
    → length labels < length bytes
length_labels size pos [] bytes e h = omega (arith, ap length (encode_end size pos bytes e))
length_labels size pos (label ∷ rest) bytes e h =
    let (coded, e', same) = encode_label size pos label rest bytes h.1 e in
    omega (
      arith,
      ap length same,
      length-append label coded,
      length_labels size (pos + 1 + length label) rest coded e' h.2,
    )

-- A name that `encode_dns_name` wrote into a packet, of labels that are not empty and shorter than 192, is read
-- back at its offset as its labels with dots between them, and the offset moves behind it, whatever stands
-- before and after it in the packet.
pub decode-encode_dns_name :
    (name bytes pre post : List ℕ) (buf_size : ℕ)
    → encode_dns_name name buf_size ≡ some bytes
    → AllShort (labels name)
    → decode_dns_name (pre ++ (bytes ++ post)) (length pre)
      ≡ some (join [] (labels name), length pre + length bytes)
unfolding encode_dns_name decode_dns_name
decode-encode_dns_name name bytes pre post buf_size e h =
    let pkt = pre ++ (bytes ++ post) in
    let room : length (labels name) < 12 * (length pkt + 1) = omega (
      arith,
      length-append pre (bytes ++ post),
      length-append bytes post,
      length_labels buf_size 0 (labels name) bytes e h,
    ) in
    decode_lem (labels name) (12 * (length pkt + 1)) buf_size 0 pre post bytes (length pre) [] e h
      room
