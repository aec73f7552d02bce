-- ===== src/Server/Discovery/Tests.antt =====
-- Names and clients.
use ultra_display_os.Prelude.{ℕ, ◌+◌, ◌≡◌, refl, some, none, List, [], ◌∷◌, ◌++◌, arith}
use ultra_display_os.Server.Discovery.{
  labels, split_label, encode_labels, encode_dns_name, add_label, finish, read_bytes, decode_loop,
  decode_dns_name,
}
use ultra_display_os.Server.Discovery.Decoding.{decode_dns_name_lem}
use ultra_display_os.Server.Discovery.RoundTrip.{join, decode-encode_dns_name}
use ultra_display_os.Server.Discovery.Clients.{
  DiscoveredClient, same_bytes, prune_stale_clients, heard, scan_round,
}
use ultra_display_os.Server.Discovery.Clients.Scan.{Distinct, AllFresh, scan, scan_lem}
use ultra_display_os.Server.Discovery.Clients.Keeping.{Seen, scan-Seen}

-- "_udp.local", and its bytes on the wire.
abbrev udp_local : List ℕ
udp_local = 95 ∷ 117 ∷ 100 ∷ 112 ∷ 46 ∷ 108 ∷ 111 ∷ 99 ∷ 97 ∷ 108 ∷ []

abbrev udp_local_bytes : List ℕ
udp_local_bytes = 4 ∷ 95 ∷ 117 ∷ 100 ∷ 112 ∷ 5 ∷ 108 ∷ 111 ∷ 99 ∷ 97 ∷ 108 ∷ 0 ∷ []

encode_test : encode_dns_name udp_local 500 ≡ some udp_local_bytes
unfolding encode_dns_name labels split_label encode_labels
encode_test = refl

encode_no_room_test : encode_dns_name udp_local 11 ≡ none
unfolding encode_dns_name labels split_label encode_labels
encode_no_room_test = refl

join_test : join [] (labels udp_local) ≡ udp_local
unfolding join labels split_label add_label
join_test = refl

-- "a" before a pointer to offset 2: the caller goes on behind the pointer.
pointer_test :
    decode_dns_name (9 ∷ 9 ∷ (udp_local_bytes ++ (1 ∷ 97 ∷ 0xc0 ∷ 2 ∷ []))) 14
    ≡ some (97 ∷ 46 ∷ udp_local, 18)
unfolding decode_dns_name decode_loop read_bytes add_label finish
pointer_test = refl

-- A pointer to itself.
decode_dns_name_lem_example :
    (name : List ℕ) × (next : ℕ) × (decode_dns_name (0xc0 ∷ 0 ∷ []) 0 ≡ some (name, next))
decode_dns_name_lem_example = decode_dns_name_lem (0xc0 ∷ 0 ∷ []) 0

decode-encode_dns_name_example :
    decode_dns_name (7 ∷ 7 ∷ (udp_local_bytes ++ (8 ∷ []))) 2
    ≡ some (join [] (labels udp_local), 2 + 12)
unfolding labels split_label
decode-encode_dns_name_example =
    decode-encode_dns_name udp_local udp_local_bytes (7 ∷ 7 ∷ []) (8 ∷ []) 500 encode_test
      (omega arith, omega arith, (omega arith, omega arith, tt))

abbrev client : ℕ → ℕ → DiscoveredClient
client address time = record {
  name = 97 ∷ [];
  ip = address ∷ [];
  port = 5000;
  fingerprint = [];
  last_seen = time;
}

scan_test :
    scan_round (client 1 0 ∷ client 2 9000000 ∷ []) (some (client 2 15000000)) 15000000
    ≡ (client 2 15000000 ∷ [], 1)
unfolding scan_round heard prune_stale_clients same_bytes
scan_test = refl

scan_lem_example :
    let clients =
      (scan_round
        (scan [] ((some (client 1 5), 6) ∷ (some (client 2 7), 8) ∷ []))
        (some (client 1 9))
        10).0 in
    Distinct clients × AllFresh 10 clients
scan_lem_example =
    scan_lem ((some (client 1 5), 6) ∷ (some (client 2 7), 8) ∷ []) (some (client 1 9)) 10

scan-Seen_example : Seen (2 ∷ []) 15000000 (
    scan (client 1 9000000 ∷ []) (
      (some (client 2 15000000), 15000000)
      ∷ (none, 16000000)
      ∷ (some (client 1 17000000), 18000000)
      ∷ []))
scan-Seen_example =
    scan-Seen (client 1 9000000 ∷ []) (client 2 15000000) 15000000
      ((none, 16000000) ∷ (some (client 1 17000000), 18000000) ∷ []) (omega arith)
      (omega arith, (omega arith, omega arith, tt))
