-- ===== src/Server/Discovery.antt =====
-- server/gui/discovery.cpp: names in DNS packets, as the discovery of clients writes and reads them. Strings and
-- buffers are lists of bytes. Offsets, which the source counts in `int`, are numbers.
pub mod Decoding
pub mod RoundTrip
pub mod Clients
pub mod Response
mod Tests
use Prim.Native.Nat.{bit_and, bit_or}
use ultra_display_os.Prelude.{
  ℕ, zero, suc, ◌+◌, ◌*◌, ◌%◌, Bool, true, false, Option, none, some, List, [], ◌∷◌, ◌++◌, ltb, leb,
  ◌==◌, if◌then◌else◌, length, take, drop, get_elem?,
}

abbrev pub dot : ℕ
dot = 46

-- The label that a name starts with, and the labels behind it, by `strchr`. A name that ends in a dot has no
-- label behind this dot.
abbrev labels_from : List ℕ → List ℕ × List (List ℕ) → List (List ℕ)
labels_from [] parts = []
labels_from (c ∷ name) parts = parts.0 ∷ parts.1

split_label : List ℕ → List ℕ × List (List ℕ)
split_label [] = ([], [])
split_label (c ∷ name) =
    let parts = split_label name in
    if c == dot then ([], labels_from name parts) else (c ∷ parts.0, parts.1)

pub labels : List ℕ → List (List ℕ)
unfolding split_label
labels name = labels_from name (split_label name)

-- The loop of `encode_dns_name`, over the labels; `none` stands for -1.
pub encode_labels : ℕ → ℕ → List (List ℕ) → Option (List ℕ)
encode_labels buf_size pos [] = if leb buf_size pos then none else some (0 ∷ [])
encode_labels buf_size pos (label ∷ rest) =
    let coded = encode_labels buf_size (pos + 1 + length label) rest in
    if leb buf_size (pos + 1 + length label)
    then none
    else elim coded [ none ↦ none | some bytes ↦ some ((length label % 256) ∷ (label ++ bytes)) ]

pub encode_dns_name : List ℕ → ℕ → Option (List ℕ)
unfolding encode_labels labels
encode_dns_name name buf_size = encode_labels buf_size 0 (labels name)

-- `if (!result.empty()) result += '.';` and the label.
pub add_label : List ℕ → List ℕ → List ℕ
add_label [] label = label
add_label (c ∷ result) label = (c ∷ result) ++ (dot ∷ label)

-- What follows the loop: the name, and the offset that the caller gets back.
pub finish : Bool → ℕ → ℕ → List ℕ → Option (List ℕ × ℕ)
finish jumped original_offset offset result =
    some (result, if jumped then original_offset else offset)

-- `n` bytes from `offset` on, as `append` and the constructor of a string read them; `none`: a read outside the
-- packet.
unfoldable pub read_bytes : List ℕ → ℕ → ℕ → Option (List ℕ)
read_bytes pkt offset n =
    if leb (offset + n) (length pkt) then some (take n (drop offset pkt)) else none

-- The loop of `decode_dns_name`; `none`: out of fuel, or a read outside the packet.
pub decode_loop : ℕ → List ℕ → ℕ → Bool → ℕ → ℕ → List ℕ → Option (List ℕ × ℕ)
unfolding finish add_label read_bytes
decode_loop zero pkt offset jumped original_offset jumps result = none
decode_loop (suc fuel) pkt offset jumped original_offset jumps result =
    elim (ltb offset (length pkt)) [
      | false ↦ finish jumped original_offset offset result
      | true ↦ elim (get_elem? pkt offset) [
        | none ↦ none
        | some len ↦ elim (len == 0) [
          | true ↦ finish jumped original_offset (offset + 1) result
          | false ↦ elim (bit_and len 0xc0 == 0xc0) [
            | true ↦ elim (leb (length pkt) (offset + 1)) [
              | true ↦ finish jumped original_offset offset result
              | false ↦ elim (get_elem? pkt (offset + 1)) [
                | none ↦ none
                | some low ↦
                    let ptr = bit_or (bit_and len 0x3f * 256) low in
                    let original = if jumped then original_offset else offset + 2 in
                    elim (ltb 10 (jumps + 1)) [
                      | true ↦ finish true original ptr result
                      | false ↦ decode_loop fuel pkt ptr true original (jumps + 1) result
                    ]
              ]
            ]
            | false ↦ elim (ltb (length pkt) (offset + 1 + len)) [
              | true ↦ finish jumped original_offset (offset + 1) result
              | false ↦ elim (read_bytes pkt (offset + 1) len) [
                | none ↦ none
                | some label ↦
                    decode_loop fuel pkt (offset + 1 + len) jumped original_offset jumps
                      (add_label result label)
              ]
            ]
          ]
        ]
      ]
    ]

-- Each round moves forward or takes one of the eleven jumps.
pub decode_dns_name : List ℕ → ℕ → Option (List ℕ × ℕ)
unfolding decode_loop
decode_dns_name pkt offset = decode_loop (12 * (length pkt + 1)) pkt offset false offset 0 []
