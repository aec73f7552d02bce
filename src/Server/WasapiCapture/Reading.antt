-- ===== src/Server/WasapiCapture/Reading.antt =====
-- What server/audio/wasapi_capture.cpp reads, and after a stop.
use ultra_display_os.Prelude.{
  ℕ, ◌+◌, ◌*◌, ◌≡◌, refl, ap₂, ◌∙◌, ◌⊎◌, Bool, true, false, ◌&&◌, List, [], ◌∷◌, ◌==◌, if-Is,
  Option, none, some, length, take, length-append, length-take, length-replicate, arith, ◌≤◌,
}
use ultra_display_os.Prelude.Int.{ℤ, pos}
use ultra_display_os.Shared.Result.{Result, err, system_error}
use ultra_display_os.Shared.AudioFormat.{AudioFormat}
use ultra_display_os.Server.WasapiCapture.{
  WasapiCapture, start, stop, Buffer, samples_of, Round, no_buffer, last_buffer, more_after,
  read_loop, read_frames,
}

-- A buffer holds the samples of its frames.
abbrev Full : AudioFormat → Buffer → Type 0
Full format buffer = buffer.num_frames * format.channels ≤ length buffer.samples

abbrev pub AllFull : AudioFormat → List Round → Type 0
AllFull format [] = Unit
AllFull format (no_buffer ∷ rounds) = Unit
AllFull format (last_buffer buffer ∷ rounds) = Full format buffer
AllFull format (more_after buffer ∷ rounds) = Full format buffer × AllFull format rounds

-- The frames of the buffers that are got.
abbrev pub frames_of : List Round → ℕ
frames_of [] = 0
frames_of (no_buffer ∷ rounds) = 0
frames_of (last_buffer buffer ∷ rounds) = buffer.num_frames
frames_of (more_after buffer ∷ rounds) = buffer.num_frames + frames_of rounds

length-taken : (n : ℕ) (xs : List ℤ) → n ≤ length xs → length (take n xs) ≡ n
length-taken n xs h = omega (arith, length-take n xs)

length-samples_of :
    (format : AudioFormat) (buffer : Buffer)
    → (format.bit_depth ≡ 32) ⊎ (format.bit_depth ≡ 16)
    → Full format buffer
    → length (samples_of format buffer) ≡ buffer.num_frames * format.channels
unfolding samples_of
length-samples_of format buffer depth h =
    let count : ℕ = buffer.num_frames * format.channels in
    let Counted : List ℤ → Type 0 = λ xs. length xs ≡ count in
    if-Is Counted buffer.silent (λ e. length-replicate count (pos 0))
      (λ e.
        if-Is Counted (format.bit_depth == 32) (λ e'. length-taken count buffer.samples h)
          (λ e'.
            if-Is Counted (format.bit_depth == 16) (λ e''. length-taken count buffer.samples h)
              (λ e''. absurd (ground arith))))

-- From a device of 16 bits or of floating point, whose buffers hold the samples of their frames, the samples that
-- are read are as many as all the frames of the buffers have.
pub length-read_loop :
    (format : AudioFormat) (rounds : List Round)
    → (format.bit_depth ≡ 32) ⊎ (format.bit_depth ≡ 16)
    → AllFull format rounds
    → length (read_loop format rounds) ≡ frames_of rounds * format.channels
unfolding read_loop
length-read_loop format [] depth h = grind arith
length-read_loop format (no_buffer ∷ rounds) depth h = grind arith
length-read_loop format (last_buffer buffer ∷ rounds) depth h =
    length-samples_of format buffer depth h
length-read_loop format (more_after buffer ∷ rounds) depth h =
    let here = length-samples_of format buffer depth h.0 in
    let rest = length-read_loop format rounds depth h.1 in
    length-append (samples_of format buffer) (read_loop format rounds)
    ∙ ap₂ (λ a b. a + b) here rest
    ∙ grind arith

-- A reading that fails.
abbrev pub Deaf : Bool → Option (List Round) → Option (Result (Unit {0}) × WasapiCapture) → Type 0
Deaf signalled rounds none = Unit
Deaf signalled rounds (some (r, t)) = read_frames t signalled rounds ≡ some (err system_error)

no_event :
    (t : WasapiCapture) (signalled : Bool) (rounds : Option (List Round))
    → t.event_handle ≡ false
    → read_frames t signalled rounds ≡ some (err system_error)
unfolding read_frames
no_event t signalled rounds h =
    if-Is (λ r. r ≡ some (err system_error)) (t.is_capturing && t.event_handle && signalled)
      (λ e. absurd (ground arith)) (λ e. refl)

stop-no_event : (t : WasapiCapture) → (stop t).event_handle ≡ false
unfolding stop
stop-no_event t =
    if-Is (λ (u : WasapiCapture). u.event_handle ≡ false) (t.is_capturing && t.audio_client)
      (λ e. refl) (λ e. refl)

start-Deaf :
    (t : WasapiCapture) (started signalled : Bool) (rounds : Option (List Round))
    → t.event_handle ≡ false
    → Deaf signalled rounds (start t started)
unfolding start
start-Deaf t started signalled rounds h =
    if-Is (Deaf signalled rounds) t.is_capturing (λ e. no_event t signalled rounds h)
      (λ e.
        if-Is (Deaf signalled rounds) t.audio_client
          (λ c.
            if-Is (Deaf signalled rounds) started
              (λ s. no_event (record t { is_capturing = true }) signalled rounds h)
              (λ s. no_event t signalled rounds h))
          (λ c. tt))

-- After a stop and a start, every reading fails, whatever the device does: the event is closed and not made again.
pub stop_start-Deaf :
    (t : WasapiCapture) (started signalled : Bool) (rounds : Option (List Round))
    → Deaf signalled rounds (start (stop t) started)
stop_start-Deaf t started signalled rounds =
    start-Deaf (stop t) started signalled rounds (stop-no_event t)
