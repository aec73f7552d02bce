-- ===== src/Server/Encoders/Frames.antt =====
-- What is encoded, and how packets are numbered, over all calls of a session.
use ultra_display_os.Prelude.{
  ℕ, ◌+◌, ◌%◌, ◌^◌, ◌≡◌, refl, Bool, true, false, List, [], ◌∷◌, ◌++◌, Option, none, some, arith,
  if-Is,
}
use ultra_display_os.Shared.Result.{Result, ok, err}
use ultra_display_os.Server.Encoders.{
  EncodedPacket, Nvenc, NvencCalls, encode_registered, nvenc_encode, Amf, numbered, amf_encode, Qsv,
  qsv_encode,
}

-- The textures that are encoded, of calls with a texture and outcomes each.
unfoldable pub encoded : Nvenc → List (ℕ × NvencCalls) → List (Option ℕ)
unfolding nvenc_encode
encoded t [] = []
encoded t ((texture, calls) ∷ rest) =
    let step = nvenc_encode t texture calls in step.0.1 ∷ encoded step.1 rest

-- Each frame is of `x`, or none.
abbrev pub AllOf : ℕ → List (Option ℕ) → Type 0
AllOf x [] = Unit
AllOf x (none ∷ ys) = AllOf x ys
AllOf x (some y ∷ ys) = (y ≡ x) × AllOf x ys

-- The same of what is encoded by one call.
abbrev OneOf : ℕ → Option ℕ → Type 0
OneOf x none = Unit
OneOf x (some y) = y ≡ x

cons-AllOf :
    (x : ℕ) (y : Option ℕ) (ys : List (Option ℕ)) → OneOf x y → AllOf x ys → AllOf x (y ∷ ys)
cons-AllOf x none ys h a = a
cons-AllOf x (some y) ys h a = (h, a)

encode_registered-OneOf : (x : ℕ) (calls : NvencCalls) → OneOf x (encode_registered x calls).1
unfolding encode_registered
encode_registered-OneOf x calls =
    if-Is (λ (r : Result (List EncodedPacket) × Option ℕ). OneOf x r.1) calls.maps
      (λ e.
        if-Is (λ (r : Result (List EncodedPacket) × Option ℕ). OneOf x r.1) calls.encodes
          (λ e. refl) (λ e. tt))
      (λ e. tt)

registered-AllOf :
    (t : Nvenc) (x : ℕ) (calls : List (ℕ × NvencCalls))
    → AllOf x (encoded (record t { registered_resource = some x }) calls)
unfolding encoded nvenc_encode
registered-AllOf t x [] = tt
registered-AllOf t x ((texture, outcome) ∷ calls) =
    cons-AllOf x (encode_registered x outcome).1
      (encoded (record t { registered_resource = some x }) calls)
      (encode_registered-OneOf x outcome) (registered-AllOf t x calls)

-- Once a texture is registered, in the first call of `encode` of a session, every frame that the session encodes
-- is one of that texture, whatever textures the calls are given.
pub encoded_first :
    (t : Nvenc) (x : ℕ) (outcome : NvencCalls) (calls : List (ℕ × NvencCalls))
    → outcome.registers ≡ true
    → AllOf x (encoded (record t { registered_resource = none }) ((x, outcome) ∷ calls))
unfolding encoded nvenc_encode
encoded_first t x outcome calls h =
    if-Is
      (λ (r : (Result (List EncodedPacket) × Option ℕ) × Nvenc).
        AllOf x (r.0.1 ∷ encoded r.1 calls))
      outcome.registers
      (λ e.
        cons-AllOf x (encode_registered x outcome).1
          (encoded (record t { registered_resource = some x }) calls)
          (encode_registered-OneOf x outcome) (registered-AllOf t x calls))
      (λ e. absurd (cc (h, e)))

-- The packets that calls of `encode` return, with their outcomes.
abbrev packets_of : Result (List EncodedPacket) → List EncodedPacket
packets_of (ok packets) = packets
packets_of (err e) = []

pub amf_packets : Amf → List (Bool × Bool × Option (List ℕ × Bool)) → List EncodedPacket
unfolding amf_encode
amf_packets t [] = []
amf_packets t ((created, submitted, output) ∷ rest) =
    let step = amf_encode t created submitted output in packets_of step.0 ++ amf_packets step.1 rest

pub qsv_packets : Qsv → List (Option (List ℕ × Bool)) → List EncodedPacket
unfolding qsv_encode
qsv_packets t [] = []
qsv_packets t (output ∷ rest) =
    let step = qsv_encode t output in packets_of step.0 ++ qsv_packets step.1 rest

-- Numbered one after the other, from `n` on, in 16 bits.
abbrev pub NumberedFrom : ℕ → List EncodedPacket → Type 0
NumberedFrom n [] = Unit
NumberedFrom n (p ∷ ps) = (p.frame_number ≡ n % 2 ^ 16) × NumberedFrom (n + 1) ps

next_number : (c n : ℕ) → c % 2 ^ 16 ≡ n % 2 ^ 16 → (c + 1) % 2 ^ 32 % 2 ^ 16 ≡ (n + 1) % 2 ^ 16
next_number c n h = omega arith

amf_NumberedFrom :
    (t : Amf) (n : ℕ) (calls : List (Bool × Bool × Option (List ℕ × Bool)))
    → t.frame_count % 2 ^ 16 ≡ n % 2 ^ 16
    → NumberedFrom n (amf_packets t calls)
unfolding amf_packets amf_encode numbered
amf_NumberedFrom t n [] h = tt
amf_NumberedFrom t n ((false, submitted, output) ∷ calls) h = amf_NumberedFrom t n calls h
amf_NumberedFrom t n ((true, false, output) ∷ calls) h = amf_NumberedFrom t n calls h
amf_NumberedFrom t n ((true, true, none) ∷ calls) h = amf_NumberedFrom t n calls h
amf_NumberedFrom t n ((true, true, some (bytes, is_idr)) ∷ calls) h = (
  h,
  amf_NumberedFrom (record t { frame_count = (t.frame_count + 1) % 2 ^ 32 }) (n + 1) calls
      (next_number t.frame_count n h),
)

qsv_NumberedFrom :
    (t : Qsv) (n : ℕ) (calls : List (Option (List ℕ × Bool)))
    → t.frame_count % 2 ^ 16 ≡ n % 2 ^ 16
    → NumberedFrom n (qsv_packets t calls)
unfolding qsv_packets qsv_encode numbered
qsv_NumberedFrom t n [] h = tt
qsv_NumberedFrom t n (none ∷ calls) h = qsv_NumberedFrom t n calls h
qsv_NumberedFrom t n (some (bytes, is_idr) ∷ calls) h = (
  h,
  qsv_NumberedFrom (record t { frame_count = (t.frame_count + 1) % 2 ^ 32 }) (n + 1) calls
      (next_number t.frame_count n h),
)

-- Whatever calls fail or give no frame, the packets of the sessions of AMF and QSV are numbered one after the
-- other in 16 bits, from the count of the frames before.
pub packets-NumberedFrom :
    (t : Amf) (u : Qsv) (amf_calls : List (Bool × Bool × Option (List ℕ × Bool)))
    (qsv_calls : List (Option (List ℕ × Bool)))
    → NumberedFrom t.frame_count (amf_packets t amf_calls)
      × NumberedFrom u.frame_count (qsv_packets u qsv_calls)
packets-NumberedFrom t u amf_calls qsv_calls = (
  amf_NumberedFrom t t.frame_count amf_calls refl,
  qsv_NumberedFrom u u.frame_count qsv_calls refl,
)
