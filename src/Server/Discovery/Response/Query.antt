-- ===== src/Server/Discovery/Response/Query.antt =====
-- server/gui/discovery.cpp: the query that is sent.
use ultra_display_os.Prelude.{
  ℕ, ◌/◌, ◌%◌, ◌-◌, ◌≡◌, refl, Bool, true, false, ltb, List, [], ◌∷◌, ◌++◌, Option, none, some,
  length, Option-Is,
}
use ultra_display_os.Server.Discovery.{encode_dns_name}
use ultra_display_os.Server.Discovery.Response.{Found, read_u16, parse_mdns_response}

abbrev pub service_name : List ℕ
service_name =
    95 ∷ 117 ∷ 108 ∷ 116 ∷ 114 ∷ 97 ∷ 100 ∷ 105 ∷ 115 ∷ 112 ∷ 108 ∷ 97 ∷ 121 ∷ 46 ∷ 95 ∷ 117 ∷ 100
    ∷ 112 ∷ 46 ∷ 108 ∷ 111 ∷ 99 ∷ 97 ∷ 108 ∷ []

unfoldable pub write_u16 : ℕ → List ℕ
write_u16 v = v / 256 % 256 ∷ v % 256 ∷ []

-- The six numbers of the header: one question.
unfoldable pub header : List ℕ
unfolding write_u16
header =
    write_u16 0 ++ (write_u16 0 ++ (write_u16 1 ++ (write_u16 0 ++ (write_u16 0 ++ write_u16 0))))

-- The name, the type PTR and the class IN. The packet has room for 512 bytes.
unfoldable pub query : List ℕ → Option (List ℕ)
unfolding header write_u16
query name = elim (encode_dns_name name (512 - 12)) [
  | none ↦ none
  | some bytes ↦ some (header ++ (bytes ++ (write_u16 12 ++ write_u16 1)))
]

-- What is sent, if anything is, and whether that succeeds; `sent` is the outcome of sendto.
unfoldable pub send_mdns_query : Bool → Option (List ℕ) × Bool
unfolding query
send_mdns_query sent = elim (query service_name) [
  | none ↦ (none, false)
  | some pkt ↦ (some pkt, sent)
]

abbrev Refused : Found → Option (List ℕ) → Type 0
Refused out none = Unit
Refused out (some pkt) = parse_mdns_response pkt out ≡ some (false, out)

both :
    {A : Type 0} (b : Bool) {x y z : A}
    → x ≡ z
    → y ≡ z
    → elim b as (λ _. A) [ true ↦ x | false ↦ y ] ≡ z
both true e h = e
both false e h = h

-- A query is refused by the parser of responses, which hears it too, whatever its name.
pub query-Refused : (name : List ℕ) (out : Found) → Refused out (query name)
unfolding query header write_u16 parse_mdns_response read_u16
query-Refused name out =
    Option-Is (Refused out) (encode_dns_name name (512 - 12)) (λ e. tt)
      (λ bytes e.
        both (ltb (length (header ++ (bytes ++ (write_u16 12 ++ write_u16 1)))) 12)
          {x = some (false, out)} refl refl)
