-- ===== src/Shared/Fec/Blocks.antt =====
-- A run of packets at one level, cut into groups.
use ultra_display_os.Prelude.{
  ℕ, suc, ◌+◌, ◌*◌, ◌%◌, ◌<◌, ◌≡◌, ◌≢◌, refl, sym, ap, ap₂, ◌∙◌, inl, inr, List, [], ◌∷◌, ◌++◌, map,
  arith, length, length-append, append-nil, append_assoc, mod_later,
}
use native.Mathlib.Nat.{mod-eq_of_lt}
use ultra_display_os.Shared.Messages.{PacketHeader, header_bytes}
use ultra_display_os.Shared.Fec.{
  FecLevel, none, low, medium, high, FecEncoder, group_size, total_size, encode_xor, encode_rs,
  parity_of, encode,
}
use ultra_display_os.Shared.Fec.Groups.{encode_lem, length-parity_of, feed}

-- The header and the payload of a packet, as `encode` is called with them.
abbrev pub Packet : Type 0
Packet = PacketHeader × List ℕ

abbrev pub bytes : Packet → List ℕ
bytes (header, payload) = header_bytes header ++ payload

-- The packets of a group, and its parity packets, by the comments of fec.hpp: one for ten, (20, 16) and (10, 6).
abbrev pub data_packets : FecLevel → ℕ
data_packets none = 0
data_packets low = 10
data_packets medium = 16
data_packets high = 6

abbrev pub parity_packets : FecLevel → ℕ
parity_packets none = 0
parity_packets low = 1
parity_packets medium = 4
parity_packets high = 4

abbrev pub parity : FecLevel → ℕ → List (List ℕ) → List (List ℕ)
parity none group block = []
parity low group block = encode_xor group block
parity medium group block = encode_rs 16 20 group block
parity high group block = encode_rs 6 10 group block

-- The parity of one group after the other, with group ids that are counted on modulo 256.
unfoldable pub parities : FecLevel → ℕ → List (List Packet) → List (List ℕ)
parities level group [] = []
parities level group (block ∷ blocks) =
    parity level group (map bytes block) ++ parities level ((group + 1) % 256) blocks

unfoldable pub flatten : List (List Packet) → List Packet
flatten [] = []
flatten (block ∷ blocks) = block ++ flatten blocks

abbrev pub AllOfSize : ℕ → List (List Packet) → Type 0
AllOfSize size [] = Unit {0}
AllOfSize size (block ∷ blocks) = (length block ≡ size) × AllOfSize size blocks

group_size-eq : (level : FecLevel) → group_size level ≡ data_packets level
unfolding group_size
group_size-eq none = refl
group_size-eq low = refl
group_size-eq medium = refl
group_size-eq high = refl

parity_of-eq :
    (level : FecLevel) (group : ℕ) (block : List (List ℕ))
    → parity_of level group block ≡ parity level group block
unfolding parity_of group_size total_size
parity_of-eq none group block = refl
parity_of-eq low group block = refl
parity_of-eq medium group block = refl
parity_of-eq high group block = refl

length-parity :
    (level : FecLevel) (group : ℕ) (block : List (List ℕ))
    → block ≢ []
    → length (parity level group block) ≡ parity_packets level
unfolding group_size total_size
length-parity none group block h = refl
length-parity low group block h =
    ap length (sym (parity_of-eq low group block)) ∙ length-parity_of low group block h
length-parity medium group block h =
    ap length (sym (parity_of-eq medium group block)) ∙ length-parity_of medium group block h
length-parity high group block h =
    ap length (sym (parity_of-eq high group block)) ∙ length-parity_of high group block h

encode_kept :
    (e : FecEncoder) (packet : Packet)
    → e.current_level ≢ none
    → length e.data_block + 1 < group_size e.current_level
    → encode e packet.0 packet.1
      ≡ (record e { data_block = e.data_block ++ (bytes packet ∷ []) }, [])
encode_kept e (header, payload) h l = elim (encode_lem e header payload h) [
  | inl (full, _) ↦ absurd (omega arith)
  | inr (_, (state, out)) ↦ ap₂ (λ s o. (s, o)) state out
]

-- What the group's last packet leaves.
abbrev next_group : FecEncoder → FecEncoder
next_group e = record e { data_block = []; current_group_id = (e.current_group_id + 1) % 256 }

encode_full :
    (e : FecEncoder) (packet : Packet)
    → e.current_level ≢ none
    → length e.data_block + 1 ≡ group_size e.current_level
    → encode e packet.0 packet.1 ≡ (
      next_group e,
      parity_of e.current_level e.current_group_id (e.data_block ++ (bytes packet ∷ [])),
    )
encode_full e (header, payload) h l = elim (encode_lem e header payload h) [
  | inl (_, (state, out, _)) ↦ ap₂ (λ s o. (s, o)) state out
  | inr (more, _) ↦ absurd (more l)
]

feed_partial :
    (e : FecEncoder) (packets : List Packet)
    → e.current_level ≢ none
    → length e.data_block + length packets < group_size e.current_level
    → feed e packets ≡ (record e { data_block = e.data_block ++ map bytes packets }, [])
unfolding feed
feed_partial e [] h l = ap (λ b. (record e { data_block = b }, [])) (sym (append-nil e.data_block))
feed_partial e (packet ∷ packets) h l =
    let kept = record e { data_block = e.data_block ++ (bytes packet ∷ []) } in
    rw (encode_kept e packet h (omega arith)) (
      ap (λ r. (r.0, r.1))
        (feed_partial kept packets h
          (omega (arith, length-append e.data_block (bytes packet ∷ []))))
      ∙ ap (λ b. (record e { data_block = b }, []))
          (append_assoc e.data_block (bytes packet ∷ []) (map bytes packets)))

feed_full :
    (e : FecEncoder) (packets : List Packet)
    → e.current_level ≢ none
    → length e.data_block < group_size e.current_level
    → length e.data_block + length packets ≡ group_size e.current_level
    → feed e packets ≡ (
      next_group e,
      parity_of e.current_level e.current_group_id (e.data_block ++ map bytes packets),
    )
unfolding feed
feed_full e [] h l k = absurd (omega (arith, k))
feed_full e (packet ∷ []) h l k = rw (encode_full e packet h (omega (arith, k))) (
    ap (λ out. (next_group e, out))
      (append-nil
        (parity_of e.current_level e.current_group_id (e.data_block ++ (bytes packet ∷ [])))))
feed_full e (packet ∷ second ∷ packets) h l k =
    let kept = record e { data_block = e.data_block ++ (bytes packet ∷ []) } in
    let longer = length-append e.data_block (bytes packet ∷ []) in
    rw (encode_kept e packet h (omega (arith, k))) (
      ap (λ r. (r.0, r.1))
        (feed_full kept (second ∷ packets) h (omega (arith, longer, k)) (omega (arith, longer, k)))
      ∙ ap (λ b. (next_group e, parity_of e.current_level e.current_group_id b))
          (append_assoc e.data_block (bytes packet ∷ []) (map bytes (second ∷ packets))))

feed-append :
    (e : FecEncoder) (xs ys : List Packet)
    → feed e (xs ++ ys) ≡ ((feed (feed e xs).0 ys).0, (feed e xs).1 ++ (feed (feed e xs).0 ys).1)
unfolding feed
feed-append e [] ys = refl
feed-append e (x ∷ xs) ys =
    let (e', out) = encode e x.0 x.1 in
    ap (λ r. (r.0, out ++ r.1)) (feed-append e' xs ys)
    ∙ ap (λ o. ((feed (feed e' xs).0 ys).0, o))
        (sym (append_assoc out (feed e' xs).1 (feed (feed e' xs).0 ys).1))

-- The encoder after some groups and a rest, all fed from an empty block.
abbrev pub fed : FecEncoder → List (List Packet) → List Packet → FecEncoder
fed e blocks rest = record e {
  data_block = map bytes rest;
  current_group_id = (e.current_group_id + length blocks) % 256;
}

feed_blocks :
    (e : FecEncoder) (blocks : List (List Packet)) (rest : List Packet)
    → e.current_level ≢ none
    → e.data_block ≡ []
    → e.current_group_id < 256
    → AllOfSize (data_packets e.current_level) blocks
    → length rest < data_packets e.current_level
    → feed e (flatten blocks ++ rest)
      ≡ (fed e blocks rest, parities e.current_level e.current_group_id blocks)
unfolding flatten parities
feed_blocks e [] rest h b g s l =
    let same : e.current_group_id ≡ (e.current_group_id + 0) % 256 =
      sym (mod-eq_of_lt g) ∙ ap (λ n. n % 256) (omega arith) in
    feed_partial e rest h (omega (arith, ap length b, group_size-eq e.current_level))
    ∙ ap₂ (λ block group. (record e { data_block = block; current_group_id = group }, []))
        (ap (λ xs. xs ++ map bytes rest) b) same
feed_blocks e (block ∷ blocks) rest h b g s l =
    let size = group_size-eq e.current_level in
    let full : feed e block
        ≡ (next_group e, parity e.current_level e.current_group_id (map bytes block)) =
      feed_full e block h (omega (arith, ap length b, size)) (omega (arith, ap length b, size, s.0))
      ∙ ap (λ out. (next_group e, out))
          (ap (λ xs. parity_of e.current_level e.current_group_id (xs ++ map bytes block)) b
            ∙ parity_of-eq e.current_level e.current_group_id (map bytes block)) in
    let later : ((e.current_group_id + 1) % 256 + length blocks) % 256
        ≡ (e.current_group_id + suc (length blocks)) % 256 =
      mod_later 256 (e.current_group_id + 1) (length blocks) ∙ ap (λ n. n % 256) (omega arith) in
    ap (feed e) (append_assoc block (flatten blocks) rest)
    ∙ feed-append e block (flatten blocks ++ rest)
    ∙ ap
        (λ r. ((feed r.0 (flatten blocks ++ rest)).0, r.1 ++ (feed r.0 (flatten blocks ++ rest)).1))
        full
    ∙ ap (λ r. (r.0, parity e.current_level e.current_group_id (map bytes block) ++ r.1))
        (feed_blocks (next_group e) blocks rest h refl (omega arith) s.1 l)
    ∙ ap
        (λ n. (
          record e { data_block = map bytes rest; current_group_id = n },
          parities e.current_level e.current_group_id (block ∷ blocks),
        ))
        later

suc-mul : (n m : ℕ) → suc n * m ≡ m + n * m
suc-mul n m = ground arith

no_data : (level : FecLevel) → level ≢ none → 0 ≢ data_packets level
no_data none h e = h refl
no_data low h e = omega (arith, e)
no_data medium h e = omega (arith, e)
no_data high h e = omega (arith, e)

length-parities :
    (level : FecLevel) (group : ℕ) (blocks : List (List Packet))
    → level ≢ none
    → AllOfSize (data_packets level) blocks
    → length (parities level group blocks) ≡ length blocks * parity_packets level
unfolding parities
length-parities level group [] h s = omega arith
length-parities level group ([] ∷ blocks) h s = absurd (no_data level h s.0)
length-parities level group ((packet ∷ block) ∷ blocks) h s =
    let first : length (parity level group (map bytes (packet ∷ block))) ≡ parity_packets level =
      length-parity level group (map bytes (packet ∷ block)) (λ e. omega (arith, ap length e)) in
    let rest = length-parities level ((group + 1) % 256) blocks h s.1 in
    let product : suc (length blocks) * parity_packets level
        ≡ parity_packets level + length blocks * parity_packets level =
      suc-mul (length blocks) (parity_packets level) in
    length-append (parity level group (map bytes (packet ∷ block)))
      (parities level ((group + 1) % 256) blocks)
    ∙ ap₂ (λ a b. a + b) first rest
    ∙ sym product

-- At a level that makes groups, from an empty block: of packets that are some full groups and a rest shorter than a
-- group, by the numbers that fec.hpp gives of the level, the encoder returns the parity packets of one group after
-- the other, each of all packets of its group and under a group id counted on modulo 256, and for each group as many
-- as the level has. The rest is kept, and nothing else.
pub feed_lem :
    (e : FecEncoder) (blocks : List (List Packet)) (rest : List Packet)
    → e.current_level ≢ none
    → e.data_block ≡ []
    → e.current_group_id < 256
    → AllOfSize (data_packets e.current_level) blocks
    → length rest < data_packets e.current_level
    → (feed e (flatten blocks ++ rest)
        ≡ (fed e blocks rest, parities e.current_level e.current_group_id blocks))
      × (length (parities e.current_level e.current_group_id blocks)
          ≡ length blocks * parity_packets e.current_level)
feed_lem e blocks rest h b g s l = (
  feed_blocks e blocks rest h b g s l,
  length-parities e.current_level e.current_group_id blocks h s,
)
