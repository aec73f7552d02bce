-- ===== src/Server/Discovery/Response.antt =====
-- server/gui/discovery.cpp: the parsing of a response. `none` stands for a read outside the packet, or for no fuel;
-- that neither happens is proved.
pub mod Parsing
pub mod Query
mod Tests
use Prim.Native.Nat.{bit_and}
use ultra_display_os.Prelude.{
  ℕ, zero, suc, ◌+◌, ◌*◌, ◌/◌, ◌%◌, ◌^◌, Bool, true, false, not, ◌&&◌, Option, none, some, List, [],
  ◌∷◌, ◌++◌, ltb, leb, ◌==◌, if◌then◌else◌, length, take, drop, get_elem?,
}
use ultra_display_os.Server.Discovery.{dot, decode_dns_name, read_bytes}

infixl 5 ◌>>=◌
abbrev pub ◌>>=◌ : {A B : Type 0} → Option A → (A → Option B) → Option B
none >>= f = none
some a >>= f = f a

pub read_u16 : List ℕ → ℕ → Option ℕ
read_u16 pkt i =
    get_elem? pkt i >>= λ high. get_elem? pkt (i + 1) >>= λ low. some (high * 256 + low)

-- What the parsing has found so far: the fields of `out` that it sets, and `found_service`.
pub record Found : Type 0 where
  pub name : List ℕ
  pub ip : List ℕ
  pub port : ℕ  -- uint16
  pub fingerprint : List ℕ
  pub found_service : Bool

-- The questions; the inner `none` stands for `return false`.
pub skip_questions : ℕ → List ℕ → ℕ → Option (Option ℕ)
skip_questions zero pkt offset = some (some offset)
skip_questions (suc count) pkt offset = elim (ltb offset (length pkt)) [
  | false ↦ some (some offset)
  | true ↦ decode_dns_name pkt offset >>= λ decoded. elim (ltb (length pkt) (decoded.1 + 4)) [
    | true ↦ some none
    | false ↦ skip_questions count pkt (decoded.1 + 4)
  ]
]

-- `instance.substr(0, instance.find('.'))`, or all of it.
pub first_label : List ℕ → List ℕ
first_label [] = []
first_label (c ∷ name) = let rest = first_label name in if c == dot then [] else c ∷ rest

-- "fp=" at the front.
pub is_fingerprint : List ℕ → Bool
is_fingerprint txt = elim txt [
  | (a ∷ b ∷ c ∷ rest) ↦ (a == 102) && ((b == 112) && (c == 61))
  | _ ↦ false
]

-- The strings of a TXT record, from `txt_off` to `end`.
pub txt_strings : ℕ → List ℕ → ℕ → ℕ → List ℕ → Option (List ℕ)
unfolding is_fingerprint read_bytes
txt_strings zero pkt txt_off end fingerprint = if ltb txt_off end then none else some fingerprint
txt_strings (suc fuel) pkt txt_off end fingerprint = elim (ltb txt_off end) [
  | false ↦ some fingerprint
  | true ↦ get_elem? pkt txt_off >>= λ txt_len. elim (ltb end (txt_off + 1 + txt_len)) [
    | true ↦ some fingerprint
    | false ↦ read_bytes pkt (txt_off + 1) txt_len >>= λ txt.
        txt_strings fuel pkt (txt_off + 1 + txt_len) end
          (if is_fingerprint txt then drop 3 txt else fingerprint)
  ]
]

-- "%u" of a byte.
pub decimal : ℕ → List ℕ
decimal n =
    if ltb n 10
    then (48 + n) ∷ []
    else if ltb n 100
    then (48 + n / 10) ∷ (48 + n % 10) ∷ []
    else (48 + n / 100) ∷ (48 + n / 10 % 10) ∷ (48 + n % 10) ∷ []

pub address : List ℕ → ℕ → Option (List ℕ)
unfolding decimal
address pkt i = get_elem? pkt i >>= λ a. get_elem? pkt (i + 1) >>= λ b.
    get_elem? pkt (i + 2) >>= λ c. get_elem? pkt (i + 3) >>= λ d.
    some (decimal a ++ (dot ∷ decimal b) ++ (dot ∷ decimal c) ++ (dot ∷ decimal d))

-- The `switch` on the type of a record, whose data are `rd_len` bytes from `offset` on.
pub record_data : ℕ → List ℕ → ℕ → ℕ → Found → Option Found
unfolding read_u16 first_label txt_strings address
record_data rr_type pkt offset rd_len f = elim (rr_type == 12) [
  | true ↦ decode_dns_name pkt offset >>= λ decoded.
      some (record f { name = first_label decoded.0; found_service = true })
  | false ↦ elim (rr_type == 33) [
    | true ↦ elim (leb 6 rd_len) [
      | false ↦ some f
      | true ↦ read_u16 pkt (offset + 4) >>= λ port.
          decode_dns_name pkt (offset + 6) >>= λ target. some (record f { port = port })
    ]
    | false ↦ elim (rr_type == 16) [
      | true ↦ txt_strings rd_len pkt offset (offset + rd_len) f.fingerprint >>= λ fingerprint.
          some (record f { fingerprint = fingerprint })
      | false ↦ elim ((rr_type == 1) && (rd_len == 4)) [
        | true ↦ address pkt offset >>= λ ip. some (record f { ip = ip })
        | false ↦ some f
      ]
    ]
  ]
]

-- The loop over the records.
pub records : ℕ → List ℕ → ℕ → Found → Option Found
unfolding record_data read_u16
records zero pkt offset f = some f
records (suc count) pkt offset f = elim (ltb offset (length pkt)) [
  | false ↦ some f
  | true ↦ decode_dns_name pkt offset >>= λ decoded. elim (ltb (length pkt) (decoded.1 + 10)) [
    | true ↦ some f
    | false ↦ read_u16 pkt decoded.1 >>= λ rr_type. read_u16 pkt (decoded.1 + 8) >>= λ rd_len.
        elim (ltb (length pkt) (decoded.1 + 10 + rd_len)) [
          | true ↦ some f
          | false ↦ record_data rr_type pkt (decoded.1 + 10) rd_len f >>= λ f'.
              records count pkt (decoded.1 + 10 + rd_len) f'
        ]
  ]
]

-- The sum of the three counts is a uint16_t.
pub parse_mdns_response : List ℕ → Found → Option (Bool × Found)
unfolding read_u16 skip_questions records
parse_mdns_response pkt out = elim (ltb (length pkt) 12) [
  | true ↦ some (false, out)
  | false ↦ read_u16 pkt 2 >>= λ flags. elim (bit_and flags 0x8000 == 0) [
    | true ↦ some (false, out)
    | false ↦ read_u16 pkt 4 >>= λ qd_count. read_u16 pkt 6 >>= λ an_count.
        read_u16 pkt 10 >>= λ ar_count. skip_questions qd_count pkt 12 >>= λ skipped. elim skipped [
          | none ↦ some (false, out)
          | some offset ↦ read_u16 pkt 8 >>= λ ns_count.
              records ((an_count + ar_count + ns_count) % 2 ^ 16) pkt offset
                (record out { found_service = false })
              >>= λ f. some (f.found_service && not (length f.ip == 0), f)
        ]
  ]
]
