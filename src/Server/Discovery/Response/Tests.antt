-- ===== src/Server/Discovery/Response/Tests.antt =====
-- A response with a service "a" at 10.0.0.7.
use ultra_display_os.Prelude.{ℕ, ◌≡◌, ◌≢◌, ◌⊎◌, refl, Bool, true, false, some, List, [], ◌∷◌}
use ultra_display_os.Server.Discovery.{
  decode_dns_name, decode_loop, add_label, finish, read_bytes, encode_dns_name, encode_labels,
  labels, split_label,
}
use ultra_display_os.Server.Discovery.Response.Query.{send_mdns_query, query, header, write_u16}
use ultra_display_os.Server.Discovery.Response.{
  read_u16, Found, skip_questions, first_label, is_fingerprint, txt_strings, decimal, address,
  record_data, records, parse_mdns_response,
}
use ultra_display_os.Server.Discovery.Response.Parsing.{parse_mdns_response_lem}

abbrev response : List ℕ
response =
    0 ∷ 0 ∷ 0x84 ∷ 0 ∷ 0 ∷ 0 ∷ 0 ∷ 3 ∷ 0 ∷ 0 ∷ 0 ∷ 0 ∷ 0 ∷ 0 ∷ 12 ∷ 0 ∷ 1 ∷ 0 ∷ 0 ∷ 0 ∷ 0 ∷ 0 ∷ 3
    ∷ 1 ∷ 97 ∷ 0 ∷ 0 ∷ 0 ∷ 1 ∷ 0 ∷ 1 ∷ 0 ∷ 0 ∷ 0 ∷ 0 ∷ 0 ∷ 4 ∷ 10 ∷ 0 ∷ 0 ∷ 7 ∷ 0 ∷ 0 ∷ 16 ∷ 0 ∷ 1
    ∷ 0 ∷ 0 ∷ 0 ∷ 0 ∷ 0 ∷ 5 ∷ 4 ∷ 102 ∷ 112 ∷ 61 ∷ 120 ∷ []

abbrev nothing : Found
nothing = record { name = []; ip = []; port = 0; fingerprint = []; found_service = false }

parse_test :
    parse_mdns_response response nothing
    ≡ some (
      true,
      record {
        name = 97 ∷ [];
        ip = 49 ∷ 48 ∷ 46 ∷ 48 ∷ 46 ∷ 48 ∷ 46 ∷ 55 ∷ [];
        port = 0;
        fingerprint = 120 ∷ [];
        found_service = true;
      },
    )
unfolding parse_mdns_response read_u16 skip_questions records record_data first_label is_fingerprint
    txt_strings decimal address decode_dns_name decode_loop read_bytes add_label finish
parse_test = refl

parse_mdns_response_lem_example :
    (found : Bool) × (f : Found) × (parse_mdns_response response nothing ≡ some (found, f))
    × ((found ≡ false) ⊎ (f.ip ≢ []))
parse_mdns_response_lem_example = parse_mdns_response_lem response nothing

send_test : send_mdns_query true ≡ (
  some (
      0 ∷ 0 ∷ 0 ∷ 0 ∷ 0 ∷ 1 ∷ 0 ∷ 0 ∷ 0 ∷ 0 ∷ 0 ∷ 0 ∷ 13 ∷ 95 ∷ 117 ∷ 108 ∷ 116 ∷ 114 ∷ 97 ∷ 100
      ∷ 105 ∷ 115 ∷ 112 ∷ 108 ∷ 97 ∷ 121 ∷ 4 ∷ 95 ∷ 117 ∷ 100 ∷ 112 ∷ 5 ∷ 108 ∷ 111 ∷ 99 ∷ 97 ∷ 108
      ∷ 0 ∷ 0 ∷ 12 ∷ 0 ∷ 1 ∷ []),
  true,
)
unfolding send_mdns_query query header write_u16 encode_dns_name encode_labels labels split_label
send_test = refl
