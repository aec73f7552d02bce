-- ===== src/Server/Discovery/Response/Parsing.antt =====
-- The parsing of a response ends, inside the packet, whatever the packet holds.
use Prim.Native.Nat.{bit_and}
use ultra_display_os.Prelude.{
  ℕ, zero, suc, ◌+◌, ◌%◌, ◌^◌, ◌≤◌, ◌<◌, ◌≡◌, ◌≢◌, ◌⊎◌, refl, Bool, true, false, not, ◌&&◌, Option,
  none, some, List, [], ◌∷◌, arith, ltb, leb, ◌==◌, length, get_elem?, Bool-cases, inl, inr,
}
use ultra_display_os.Server.Discovery.{decode_dns_name, read_bytes}
use ultra_display_os.Server.Discovery.Decoding.{
  get_elem?_inside, read_bytes_inside, decode_dns_name_lem,
}
use ultra_display_os.Server.Discovery.Response.{
  ◌>>=◌, read_u16, Found, skip_questions, txt_strings, address, record_data, records,
  parse_mdns_response,
}

-- The option holds something.
abbrev Is : {A : Type 0} → Option A → Type 0
Is {A = A} o = (a : A) × (o ≡ some a)

bind-Is :
    {A B : Type 0} (o : Option A) (f : A → Option B) → Is o → ((a : A) → Is (f a)) → Is (o >>= f)
bind-Is o f (a, e) h = rw e (h a)

read_u16-Is : (pkt : List ℕ) (i : ℕ) → i + 1 < length pkt → Is (read_u16 pkt i)
unfolding read_u16
read_u16-Is pkt i h =
    let (high, e) = get_elem?_inside pkt i (omega arith) in
    let (low, e') = get_elem?_inside pkt (i + 1) h in rw (e, e') (_, refl)

decode-Is : (pkt : List ℕ) (offset : ℕ) → Is (decode_dns_name pkt offset)
decode-Is pkt offset = let (name, next, e) = decode_dns_name_lem pkt offset in ((name, next), e)

-- A test, with the equation that each branch has.
test-Is :
    {A : Type 0} (b : Bool) (x y : Option A)
    → (b ≡ true → Is x)
    → (b ≡ false → Is y)
    → Is (elim b as (λ _. Option A) [ true ↦ x | false ↦ y ])
test-Is true x y h k = h refl
test-Is false x y h k = k refl

skip-Is : (count : ℕ) (pkt : List ℕ) (offset : ℕ) → Is (skip_questions count pkt offset)
unfolding skip_questions
skip-Is zero pkt offset = (_, refl)
skip-Is (suc count) pkt offset =
    test-Is (ltb offset (length pkt)) _ _
      (λ e. bind-Is (decode_dns_name pkt offset) _ (decode-Is pkt offset) (λ decoded.
        test-Is (ltb (length pkt) (decoded.1 + 4)) _ _ (λ e'. (_, refl))
          (λ e'. skip-Is count pkt (decoded.1 + 4))))
      (λ e. (_, refl))

txt-Is :
    (fuel : ℕ) (pkt : List ℕ) (txt_off end : ℕ) (fingerprint : List ℕ)
    → end ≤ length pkt
    → end ≤ txt_off + fuel
    → Is (txt_strings fuel pkt txt_off end fingerprint)
unfolding txt_strings
txt-Is zero pkt txt_off end fingerprint h f = elim (Bool-cases (ltb txt_off end)) [
  | inl e ↦ absurd (ground arith)
  | inr e ↦ rw (e, txt_strings) (_, refl)
]
txt-Is (suc fuel) pkt txt_off end fingerprint h f =
    test-Is (ltb txt_off end) _ _
      (λ e.
        bind-Is (get_elem? pkt txt_off) _ (get_elem?_inside pkt txt_off (ground arith)) (λ txt_len.
          test-Is (ltb end (txt_off + 1 + txt_len)) _ _ (λ e'. (_, refl))
            (λ e'.
              bind-Is (read_bytes pkt (txt_off + 1) txt_len) _
                (read_bytes_inside pkt (txt_off + 1) txt_len (ground arith))
                (λ txt. txt-Is fuel pkt (txt_off + 1 + txt_len) end _ h (omega arith)))))
      (λ e. (_, refl))

address-Is : (pkt : List ℕ) (i : ℕ) → i + 3 < length pkt → Is (address pkt i)
unfolding address
address-Is pkt i h =
    let (a, e) = get_elem?_inside pkt i (omega arith) in
    let (b, e') = get_elem?_inside pkt (i + 1) (omega arith) in
    let (c, e'') = get_elem?_inside pkt (i + 2) (omega arith) in
    let (d, e''') = get_elem?_inside pkt (i + 3) h in rw (e, e', e'', e''') (_, refl)

record_data-Is :
    (rr_type : ℕ) (pkt : List ℕ) (offset rd_len : ℕ) (f : Found)
    → offset + rd_len ≤ length pkt
    → Is (record_data rr_type pkt offset rd_len f)
unfolding record_data
record_data-Is rr_type pkt offset rd_len f h =
    test-Is (rr_type == 12) _ _
      (λ e. bind-Is (decode_dns_name pkt offset) _ (decode-Is pkt offset) (λ decoded. (_, refl)))
      (λ e.
        test-Is (rr_type == 33) _ _
          (λ e'.
            test-Is (leb 6 rd_len) _ _
              (λ l.
                bind-Is (read_u16 pkt (offset + 4)) _ (read_u16-Is pkt (offset + 4) (ground arith))
                  (λ port.
                    bind-Is (decode_dns_name pkt (offset + 6)) _ (decode-Is pkt (offset + 6))
                      (λ target. (_, refl))))
              (λ l. (_, refl)))
          (λ e'.
            test-Is (rr_type == 16) _ _
              (λ t.
                bind-Is (txt_strings rd_len pkt offset (offset + rd_len) f.fingerprint) _
                  (txt-Is rd_len pkt offset (offset + rd_len) f.fingerprint h (omega arith))
                  (λ fingerprint. (_, refl)))
              (λ t.
                test-Is ((rr_type == 1) && (rd_len == 4)) _ _
                  (λ a.
                    bind-Is (address pkt offset) _ (address-Is pkt offset (ground arith))
                      (λ ip. (_, refl)))
                  (λ a. (_, refl)))))

records-Is : (count : ℕ) (pkt : List ℕ) (offset : ℕ) (f : Found) → Is (records count pkt offset f)
unfolding records
records-Is zero pkt offset f = (_, refl)
records-Is (suc count) pkt offset f =
    test-Is (ltb offset (length pkt)) _ _
      (λ e. bind-Is (decode_dns_name pkt offset) _ (decode-Is pkt offset) (λ decoded.
        test-Is (ltb (length pkt) (decoded.1 + 10)) _ _ (λ e'. (_, refl))
          (λ e'.
            bind-Is (read_u16 pkt decoded.1) _ (read_u16-Is pkt decoded.1 (ground arith))
              (λ rr_type.
                bind-Is (read_u16 pkt (decoded.1 + 8)) _
                  (read_u16-Is pkt (decoded.1 + 8) (ground arith))
                  (λ rd_len.
                    test-Is (ltb (length pkt) (decoded.1 + 10 + rd_len)) _ _ (λ l. (_, refl))
                      (λ l.
                        bind-Is (record_data rr_type pkt (decoded.1 + 10) rd_len f) _
                          (record_data-Is rr_type pkt (decoded.1 + 10) rd_len f (ground arith))
                          (λ f'. records-Is count pkt (decoded.1 + 10 + rd_len) f')))))))
      (λ e. (_, refl))

-- The option holds something that satisfies the predicate.
abbrev Sat : {A : Type 0} → (A → Type 0) → Option A → Type 0
Sat {A = A} P o = (a : A) × (o ≡ some a) × P a

bind-Sat :
    {A B : Type 0} (P : B → Type 0) (o : Option A) (f : A → Option B)
    → Is o
    → ((a : A) → Sat P (f a))
    → Sat P (o >>= f)
bind-Sat P o f (a, e) h = rw e (h a)

test-Sat :
    {A : Type 0} (P : A → Type 0) (b : Bool) (x y : Option A)
    → Sat P x
    → Sat P y
    → Sat P (elim b as (λ _. Option A) [ true ↦ x | false ↦ y ])
test-Sat P true x y h k = h
test-Sat P false x y h k = k

skipped-Sat :
    {A : Type 0} (P : A → Type 0) (o : Option ℕ) (x : Option A) (y : ℕ → Option A)
    → Sat P x
    → ((n : ℕ) → Sat P (y n))
    → Sat P (elim o as (λ _. Option A) [ none ↦ x | some n ↦ y n ])
skipped-Sat P none x y h k = h
skipped-Sat P (some n) x y h k = k n

-- What the caller is told is false, or an address was found.
abbrev Answer : Bool × Found → Type 0
Answer (found, f) = (found ≡ false) ⊎ (f.ip ≢ [])

address_found : (found : Bool) (ip : List ℕ) → ((found && not (length ip == 0)) ≡ false) ⊎ (ip ≢ [])
address_found true [] = inl refl
address_found false [] = inl refl
address_found found (b ∷ ip) = inr (λ e. cc e)

parse-Sat : (pkt : List ℕ) (out : Found) → Sat Answer (parse_mdns_response pkt out)
unfolding parse_mdns_response
parse-Sat pkt out = elim (Bool-cases (ltb (length pkt) 12)) [
  | inl e ↦ rw (e, parse_mdns_response) (_, refl, inl refl)
  | inr e ↦
      let byte : (i : ℕ) → i + 1 < 12 → Is (read_u16 pkt i) =
        λ i l. read_u16-Is pkt i (ground arith) in
      rw (e, parse_mdns_response)
        (bind-Sat Answer (read_u16 pkt 2) _ (byte 2 (omega arith)) (λ flags.
          test-Sat Answer (bit_and flags 0x8000 == 0) _ _ (_, refl, inl refl)
            (bind-Sat Answer (read_u16 pkt 4) _ (byte 4 (omega arith)) (λ qd_count.
              bind-Sat Answer (read_u16 pkt 6) _ (byte 6 (omega arith)) (λ an_count.
                bind-Sat Answer (read_u16 pkt 10) _ (byte 10 (omega arith)) (λ ar_count.
                  bind-Sat Answer (skip_questions qd_count pkt 12) _ (skip-Is qd_count pkt 12)
                    (λ skipped.
                      skipped-Sat Answer skipped _ _ (_, refl, inl refl)
                        (λ offset.
                          bind-Sat Answer (read_u16 pkt 8) _ (byte 8 (omega arith)) (λ ns_count.
                            bind-Sat Answer
                              (records ((an_count + ar_count + ns_count) % 2 ^ 16) pkt offset
                                (record out { found_service = false }))
                              _ (records-Is _ pkt offset _)
                              (λ f. (_, refl, address_found f.found_service f.ip)))))))))))
]

-- Whatever the packet, the parsing ends and reads no byte outside the packet; and where it returns true, it has
-- found an address.
pub parse_mdns_response_lem :
    (pkt : List ℕ) (out : Found)
    → (found : Bool) × (f : Found) × (parse_mdns_response pkt out ≡ some (found, f))
      × ((found ≡ false) ⊎ (f.ip ≢ []))
parse_mdns_response_lem pkt out =
    let ((found, f), e, answer) = parse-Sat pkt out in (found, f, e, answer)
