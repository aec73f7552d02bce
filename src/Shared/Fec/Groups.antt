-- ===== src/Shared/Fec/Groups.antt =====
-- How packets are gathered into groups.
use ultra_display_os.Prelude.{
  ℕ, zero, suc, ◌+◌, ◌-◌, ◌%◌, ◌≤◌, ◌≡◌, ◌≢◌, ◌⊎◌, refl, ap, ap₂, List, [], ◌∷◌, ◌++◌, arith,
  length, length-append, inl, inr,
}
use ultra_display_os.Shared.Messages.{PacketHeader, header_bytes}
use ultra_display_os.Shared.Fec.{
  FecLevel, none, low, medium, high, FecEncoder, group_size, total_size, encode_xor, rs_rows,
  encode_rs, parity_of, encode_block, encode,
}

length-rs_rows :
    (rows p k group : ℕ) (block : List (List ℕ)) → length (rs_rows rows p k group block) ≡ rows
unfolding rs_rows
length-rs_rows zero p k group block = refl
length-rs_rows (suc rows) p k group block = ap suc (length-rs_rows rows (p + 1) k group block)

-- A level makes as many parity packets as its sizes say.
pub length-parity_of :
    (level : FecLevel) (group : ℕ) (block : List (List ℕ))
    → block ≢ []
    → length (parity_of level group block) ≡ total_size level - group_size level
unfolding parity_of encode_xor encode_rs group_size total_size
length-parity_of level group [] h = absurd (h refl)
length-parity_of none group (pkt ∷ pkts) h = refl
length-parity_of low group (pkt ∷ pkts) h = refl
length-parity_of medium group (pkt ∷ pkts) h = length-rs_rows 4 0 16 group (pkt ∷ pkts)
length-parity_of high group (pkt ∷ pkts) h = length-rs_rows 4 0 6 group (pkt ∷ pkts)

-- The two outcomes of a packet at a level that makes groups.
abbrev pub Completes : FecEncoder → FecLevel → List (List ℕ) → FecEncoder × List (List ℕ) → Type 0
Completes e level block (e', out) =
    (e' ≡ record e { data_block = []; current_group_id = (e.current_group_id + 1) % 256 })
    × (out ≡ parity_of level e.current_group_id block)
    × (length out ≡ total_size level - group_size level)

abbrev pub Keeps : FecEncoder → List (List ℕ) → FecEncoder × List (List ℕ) → Type 0
Keeps e block (e', out) = (e' ≡ record e { data_block = block }) × (out ≡ [])

encode_block_lem :
    (e : FecEncoder) (level : FecLevel) (block : List (List ℕ))
    → level ≢ none
    → block ≢ []
    → ((length block ≡ group_size level) × Completes e level block (encode_block e level block))
      ⊎ ((length block ≢ group_size level) × Keeps e block (encode_block e level block))
unfolding encode_block
encode_block_lem e none block h b = absurd (h refl)
encode_block_lem e low block h b = ground (arith, length-parity_of low e.current_group_id block b)
encode_block_lem e medium block h b =
    ground (arith, length-parity_of medium e.current_group_id block b)
encode_block_lem e high block h b = ground (arith, length-parity_of high e.current_group_id block b)

abbrev pub with_packet : FecEncoder → PacketHeader → List ℕ → List (List ℕ)
with_packet e header payload = e.data_block ++ ((header_bytes header ++ payload) ∷ [])

with_packet-ne-nil :
    (e : FecEncoder) (header : PacketHeader) (payload : List ℕ) → with_packet e header payload ≢ []
with_packet-ne-nil e header payload h =
    omega (arith, ap length h, length-append e.data_block ((header_bytes header ++ payload) ∷ []))

-- At a level that makes groups, the packet with which the block reaches the level's group size clears
-- the block, counts the group id on modulo 256 and returns the level's parity of the whole block, of
-- as many packets as the two sizes differ by; any other packet is kept at the end of the block, with
-- nothing else changed and nothing returned.
pub encode_lem :
    (e : FecEncoder) (header : PacketHeader) (payload : List ℕ)
    → e.current_level ≢ none
    → ((length e.data_block + 1 ≡ group_size e.current_level)
        × Completes e e.current_level (with_packet e header payload) (encode e header payload))
      ⊎ ((length e.data_block + 1 ≢ group_size e.current_level)
          × Keeps e (with_packet e header payload) (encode e header payload))
unfolding encode
encode_lem e header payload h =
    rw (← length-append e.data_block ((header_bytes header ++ payload) ∷ [])) (
      encode_block_lem e e.current_level (with_packet e header payload) h
        (with_packet-ne-nil e header payload))

-- Packets fed one after the other, and all that comes back.
unfoldable pub feed : FecEncoder → List (PacketHeader × List ℕ) → FecEncoder × List (List ℕ)
feed e [] = (e, [])
feed e ((header, payload) ∷ packets) =
    let (e', out) = encode e header payload in
    let (last, rest) = feed e' packets in (last, out ++ rest)

encode_stuck :
    (e : FecEncoder) (header : PacketHeader) (payload : List ℕ)
    → e.current_level ≢ none
    → group_size e.current_level ≤ length e.data_block
    → encode e header payload ≡ (record e { data_block = with_packet e header payload }, [])
encode_stuck e header payload h l = elim (encode_lem e header payload h) [
  | inl (full, _) ↦ absurd (omega arith)
  | inr (_, (state, out)) ↦ ap₂ (λ s o. (s, o)) state out
]

-- A level chosen while the block is already as long as its group: from then on no packet at that
-- level ever completes a group, no parity is made, and the block keeps every packet.
pub feed_stuck :
    (e : FecEncoder) (packets : List (PacketHeader × List ℕ))
    → e.current_level ≢ none
    → group_size e.current_level ≤ length e.data_block
    → let (e', out) = feed e packets in
      (out ≡ [])
      × (length e'.data_block ≡ length e.data_block + length packets)
      × (e'.current_group_id ≡ e.current_group_id)
unfolding feed
feed_stuck e [] h l = (refl, omega arith, refl)
feed_stuck e ((header, payload) ∷ packets) h l =
    let kept = record e { data_block = with_packet e header payload } in
    let longer = length-append e.data_block ((header_bytes header ++ payload) ∷ []) in
    let (out, len, group) = feed_stuck kept packets h (omega (arith, longer)) in
    rw (encode_stuck e header payload h l) (out, omega (arith, len, longer), group)
