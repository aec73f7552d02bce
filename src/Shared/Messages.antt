-- ===== src/Shared/Messages.antt =====
-- shared/protocol/messages.hpp: the packet header and its bytes on the wire. The structure is packed,
-- and both targets (x86-64) store numbers with the low byte first.
use ultra_display_os.Prelude.{ℕ, ◌/◌, ◌%◌, List, [], ◌∷◌, ◌++◌}

pub data PacketType : Type 0 where
  video audio fec control ack nack cursor : PacketType

unfoldable pub type_code : PacketType → ℕ
type_code video = 0
type_code audio = 1
type_code fec = 2
type_code control = 3
type_code ack = 4
type_code nack = 5
type_code cursor = 6

pub record PacketHeader : Type 0 where
  pub magic : ℕ  -- uint16
  pub type : PacketType
  pub flags : ℕ  -- uint8
  pub sequence_number : ℕ  -- uint32
  pub timestamp_us : ℕ  -- uint32
  pub frame_number : ℕ  -- uint16
  pub slice_index_and_total : ℕ  -- uint8
  pub fec_group_id : ℕ  -- uint8
  pub payload_length : ℕ  -- uint16
  pub stream_id : ℕ  -- uint8
  pub reserved_ecn : ℕ  -- uint8

abbrev pub protocol_magic : ℕ
protocol_magic = 0x5544

-- A number as bytes, low byte first.
abbrev pub le16 : ℕ → List ℕ
le16 n = (n % 256) ∷ (n / 256 % 256) ∷ []

abbrev pub le32 : ℕ → List ℕ
le32 n = (n % 256) ∷ (n / 256 % 256) ∷ (n / 65536 % 256) ∷ (n / 16777216 % 256) ∷ []

-- sizeof(PacketHeader), and where FEC writes into it.
abbrev pub header_size : ℕ
header_size = 20

abbrev pub type_offset : ℕ
type_offset = 2

abbrev pub group_offset : ℕ
group_offset = 15

unfoldable pub header_bytes : PacketHeader → List ℕ
unfolding type_code
header_bytes h =
    le16 h.magic
    ++ (type_code h.type ∷ (h.flags % 256) ∷ le32 h.sequence_number
        ++ (le32 h.timestamp_us
            ++ (le16 h.frame_number
                ++ ((h.slice_index_and_total % 256) ∷ (h.fec_group_id % 256) ∷ le16 h.payload_length
                    ++ ((h.stream_id % 256) ∷ (h.reserved_ecn % 256) ∷ [])))))
