-- ===== src/Shared/Fec/Tests.antt =====
-- Parity of small blocks.
use ultra_display_os.Prelude.{
  ℕ, ◌*◌, ◌+◌, ◌≡◌, refl, List, [], ◌∷◌, ◌++◌, arith, length, get_or, replicate,
}
use ultra_display_os.Shared.Messages.{
  PacketHeader, PacketType, protocol_magic, header_bytes, type_code,
}
use ultra_display_os.Shared.Fec.{
  high, FecEncoder, new, set_level, gf_add, gf_mul, gf_mul_loop, max_len, xor_into, xor_all, stamp,
  encode_xor, divisor, coeff, mul_into, rs_row, rs_rows, encode_rs, group_size, encode_block,
  encode, decode,
}
use ultra_display_os.Shared.Fec.Recovery.{xor_recovers}
use ultra_display_os.Shared.Fec.Groups.{feed, feed_stuck}
use ultra_display_os.Shared.Fec.Blocks.{Packet, flatten, fed, parities, feed_lem}
use ultra_display_os.Shared.Fec.Cauchy.{AllBytes, encode_rs-eq-xor}

abbrev header : PacketHeader
header = record {
  magic = protocol_magic;
  type = PacketType.video;
  flags = 1;
  sequence_number = 70000;
  timestamp_us = 9;
  frame_number = 3;
  slice_index_and_total = 0x12;
  fec_group_id = 0;
  payload_length = 2;
  stream_id = 4;
  reserved_ecn = 0;
}

header_bytes_test :
    header_bytes header
    ≡ 0x44 ∷ 0x55 ∷ 0 ∷ 1 ∷ 112 ∷ 17 ∷ 1 ∷ 0 ∷ 9 ∷ 0 ∷ 0 ∷ 0 ∷ 3 ∷ 0 ∷ 0x12 ∷ 0 ∷ 2 ∷ 0 ∷ 4 ∷ 0 ∷ []
unfolding header_bytes type_code
header_bytes_test = refl

gf_mul_test : gf_mul 0x53 0xca ≡ 1
unfolding gf_mul gf_mul_loop
gf_mul_test = refl

abbrev short_block : List (List ℕ)
short_block = (1 ∷ 2 ∷ []) ∷ (4 ∷ 8 ∷ 16 ∷ []) ∷ []

encode_xor_test : encode_xor 5 short_block ≡ (5 ∷ 10 ∷ 16 ∷ []) ∷ []
unfolding encode_xor xor_all xor_into max_len stamp
encode_xor_test = refl

encode_rs_test : encode_rs 16 20 5 short_block ≡ replicate 4 (5 ∷ 10 ∷ 16 ∷ [])
unfolding encode_rs rs_rows rs_row mul_into gf_add gf_mul gf_mul_loop coeff divisor max_len stamp
encode_rs_test = refl

-- What the decoder returns is always nothing.
decode_test : decode header (1 ∷ 2 ∷ []) ≡ []
unfolding decode
decode_test = refl

-- A change of level keeps the block.
set_level_test :
    (encode (set_level new high) header (7 ∷ [])).0.data_block
    ≡ (header_bytes header ++ (7 ∷ [])) ∷ []
unfolding encode encode_block set_level group_size
set_level_test = refl

-- Packets of 22 bytes, and the parity of three of them in group 5.
abbrev packet : ℕ → List ℕ
packet b = header_bytes header ++ (b ∷ (b + 1) ∷ [])

abbrev parity : List ℕ
parity =
    0x44 ∷ 0x55 ∷ 2 ∷ 1 ∷ 112 ∷ 17 ∷ 1 ∷ 0 ∷ 9 ∷ 0 ∷ 0 ∷ 0 ∷ 3 ∷ 0 ∷ 0x12 ∷ 5 ∷ 2 ∷ 0 ∷ 4 ∷ 0 ∷ 0
    ∷ 5 ∷ []

packets_test : encode_xor 5 (packet 1 ∷ packet 2 ∷ packet 3 ∷ []) ≡ parity ∷ []
unfolding encode_xor xor_all xor_into max_len stamp header_bytes type_code
packets_test = refl

xor_recovers_example :
    get_or (xor_all parity (packet 1 ∷ packet 3 ∷ [])) 21 0 ≡ get_or (packet 2) 21 0
xor_recovers_example =
    xor_recovers 5 (packet 1 ∷ []) (packet 3 ∷ []) (packet 2) parity 21 packets_test (omega arith)
      (omega arith)

abbrev bytes_of_short_block : AllBytes short_block
bytes_of_short_block =
    ((omega arith, (omega arith, tt)), ((omega arith, (omega arith, (omega arith, tt))), tt))

encode_rs-eq-xor_example : encode_rs 16 20 5 short_block ≡ replicate 4 (5 ∷ 10 ∷ 16 ∷ [])
encode_rs-eq-xor_example =
    encode_rs-eq-xor 16 20 5 short_block (5 ∷ 10 ∷ 16 ∷ []) bytes_of_short_block encode_xor_test

abbrev five_kept : FecEncoder
five_kept = record {
  current_level = high;
  current_group_id = 255;
  data_block = packet 1 ∷ packet 2 ∷ packet 3 ∷ packet 4 ∷ packet 5 ∷ [];
}

abbrev six : ℕ → List Packet
six n =
    (header, n ∷ [])
    ∷ (header, 1 ∷ 2 ∷ [])
    ∷ (header, 2 ∷ [])
    ∷ (header, 3 ∷ [])
    ∷ (header, [])
    ∷ (header, 5 ∷ n ∷ [])
    ∷ []

-- The last group id before they begin again.
abbrev at_last_group : FecEncoder
at_last_group = record { current_level = high; current_group_id = 255; data_block = [] }

feed_lem_example :
    (feed at_last_group (flatten (six 7 ∷ six 8 ∷ []) ++ ((header, 9 ∷ []) ∷ [])) ≡ (
      fed at_last_group (six 7 ∷ six 8 ∷ []) ((header, 9 ∷ []) ∷ []),
      parities high 255 (six 7 ∷ six 8 ∷ []),
    ))
    × (length (parities high 255 (six 7 ∷ six 8 ∷ [])) ≡ 2 * 4)
feed_lem_example =
    feed_lem at_last_group (six 7 ∷ six 8 ∷ []) ((header, 9 ∷ []) ∷ []) (λ e. cc e) refl
      (omega arith) (refl, (refl, tt)) (omega arith)

-- Seven packets kept at the low level, when the high level is chosen.
abbrev overfull : FecEncoder
overfull = record {
  current_level = high;
  current_group_id = 0;
  data_block = packet 1 ∷ packet 2 ∷ packet 3 ∷ packet 4 ∷ packet 5 ∷ packet 6 ∷ packet 7 ∷ [];
}

feed_stuck_test :
    let (e', out) = feed overfull ((header, 1 ∷ []) ∷ (header, 2 ∷ []) ∷ []) in
    (out ≡ []) × (length e'.data_block ≡ 7 + 2) × (e'.current_group_id ≡ 0)
unfolding group_size
feed_stuck_test =
    feed_stuck overfull ((header, 1 ∷ []) ∷ (header, 2 ∷ []) ∷ []) (λ e. cc e) (omega arith)
