-- ===== src/Shared/Fec.antt =====
-- shared/transport/fec.cpp and fec.hpp: forward error correction over groups of packets.
pub mod Columns
pub mod Recovery
pub mod Groups
pub mod Blocks
pub mod Cauchy
mod Tests
use Prim.Native.Nat.{bit_and, bit_xor}
use ultra_display_os.Prelude.{
  ℕ, zero, suc, ◌+◌, ◌-◌, ◌*◌, ◌/◌, ◌%◌, ◌<◌, max, Bool, true, false, not, List, [], ◌∷◌, ◌++◌, leb,
  ◌==◌, if◌then◌else◌, length, set, replicate,
}
use ultra_display_os.Shared.Messages.{
  PacketHeader, header_bytes, header_size, type_offset, group_offset, type_code, PacketType,
}

pub data FecLevel : Type 0 where
  none low medium high : FecLevel

pub record FecEncoder : Type 0 where
  pub current_level : FecLevel
  pub current_group_id : ℕ  -- uint8
  pub data_block : List (List ℕ)

abbrev pub new : FecEncoder
new = record { current_level = none; current_group_id = 0; data_block = [] }

pub set_level : FecEncoder → FecLevel → FecEncoder
set_level e level = record e { current_level = level }

pub gf_add : ℕ → ℕ → ℕ
gf_add a b = bit_xor a b

-- One round of the loop for each of the eight bits of `b`.
gf_mul_loop : ℕ → ℕ → ℕ → ℕ → ℕ
gf_mul_loop zero p a b = p
gf_mul_loop (suc rounds) p a b =
    let p' : ℕ = if not (bit_and b 1 == 0) then bit_xor p a else p in
    let shifted : ℕ = a * 2 % 256 in
    let a' : ℕ = if not (bit_and a 0x80 == 0) then bit_xor shifted 0x11b % 256 else shifted in
    gf_mul_loop rounds p' a' (b / 2)

pub gf_mul : ℕ → ℕ → ℕ
unfolding gf_mul_loop
gf_mul a b = gf_mul_loop 8 0 a b

-- The longest packet of the block.
pub max_len : List (List ℕ) → ℕ
max_len [] = 0
max_len (pkt ∷ pkts) = max (length pkt) (max_len pkts)

-- `for (i = 0; i < pkt.size(); i++) parity[i] ^= pkt[i]`. A parity packet is as long as the longest.
pub xor_into : List ℕ → List ℕ → List ℕ
xor_into [] pkt = []
xor_into (p ∷ parity) [] = p ∷ parity
xor_into (p ∷ parity) (b ∷ pkt) = bit_xor p b ∷ xor_into parity pkt

pub xor_all : List ℕ → List (List ℕ) → List ℕ
xor_all parity [] = parity
xor_all parity (pkt ∷ pkts) = xor_all (xor_into parity pkt) pkts

-- The two fields of the header that mark a packet as parity of a group.
pub stamp : ℕ → List ℕ → List ℕ
unfolding type_code
stamp group parity =
    if leb header_size (length parity)
    then set (set parity type_offset (type_code PacketType.fec)) group_offset group
    else parity

pub encode_xor : ℕ → List (List ℕ) → List (List ℕ)
encode_xor group [] = []
encode_xor group (pkt ∷ pkts) =
    let block = pkt ∷ pkts in stamp group (xor_all (replicate (max_len block) 0) block) ∷ []

-- `static_cast<uint8_t>(1) / (static_cast<uint8_t>(p + k) ^ static_cast<uint8_t>(d))`, an integer
-- division, with its fallback. That the divisor is not 0 is proved of the group sizes in use.
pub divisor : ℕ → ℕ → ℕ → ℕ
divisor k p d = bit_xor ((p + k) % 256) (d % 256)

pub coeff : ℕ → ℕ → ℕ → ℕ
unfolding divisor
coeff k p d = let c = 1 / divisor k p d % 256 in if c == 0 then 1 else c

-- The same loop as `xor_into`, with each byte multiplied in the field.
pub mul_into : ℕ → List ℕ → List ℕ → List ℕ
mul_into c [] pkt = []
mul_into c (p ∷ parity) [] = p ∷ parity
mul_into c (p ∷ parity) (b ∷ pkt) = gf_add p (gf_mul c b) ∷ mul_into c parity pkt

-- The loop over the packets of the block, from index `d` on.
pub rs_row : ℕ → ℕ → ℕ → List ℕ → List (List ℕ) → List ℕ
rs_row k p d parity [] = parity
rs_row k p d parity (pkt ∷ pkts) = rs_row k p (d + 1) (mul_into (coeff k p d) parity pkt) pkts

-- The rows `p`, `p + 1`, … of the parity.
pub rs_rows : ℕ → ℕ → ℕ → ℕ → List (List ℕ) → List (List ℕ)
rs_rows zero p k group block = []
rs_rows (suc rows) p k group block =
    stamp group (rs_row k p 0 (replicate (max_len block) 0) block)
    ∷ rs_rows rows (p + 1) k group block

pub encode_rs : ℕ → ℕ → ℕ → List (List ℕ) → List (List ℕ)
encode_rs k n group [] = []
encode_rs k n group (pkt ∷ pkts) = rs_rows (n - k) 0 k group (pkt ∷ pkts)

-- The `switch` of `encode`: packets in a group, and with parity. FecLevel::None makes no groups.
pub group_size : FecLevel → ℕ
group_size none = 0
group_size low = 10
group_size medium = 16
group_size high = 6

pub total_size : FecLevel → ℕ
total_size none = 0
total_size low = 11
total_size medium = 20
total_size high = 10

pub parity_of : FecLevel → ℕ → List (List ℕ) → List (List ℕ)
parity_of none group block = []
parity_of low group block = encode_xor group block
parity_of medium group block = encode_rs (group_size medium) (total_size medium) group block
parity_of high group block = encode_rs (group_size high) (total_size high) group block

-- What `encode` does once the packet stands in the block.
pub encode_block : FecEncoder → FecLevel → List (List ℕ) → FecEncoder × List (List ℕ)
unfolding group_size
encode_block e none block = (record e { data_block = [] }, [])
encode_block e level block =
    if length block == group_size level
    then (
      record e { data_block = []; current_group_id = (e.current_group_id + 1) % 256 },
      parity_of level e.current_group_id block,
    )
    else (record e { data_block = block }, [])

pub encode : FecEncoder → PacketHeader → List ℕ → FecEncoder × List (List ℕ)
unfolding encode_block
encode e header payload =
    encode_block e e.current_level (e.data_block ++ ((header_bytes header ++ payload) ∷ []))

-- FecDecoder::decode ignores its arguments.
pub decode : PacketHeader → List ℕ → List (List ℕ)
decode header payload = []
