-- ===== src/Server/WasapiCapture.antt =====
-- server/audio/wasapi_capture.cpp and its header: the sound of a desktop, by the loopback of WASAPI. What a call
-- of the system comes back with is an argument. A sample is the number of 32768ths of full scale; a device of
-- floating point gives its samples as they are.
pub mod Reading
mod Tests
use ultra_display_os.Prelude.{
  ℕ, ◌*◌, ◌%◌, ◌^◌, Bool, true, false, ◌&&◌, List, [], ◌∷◌, ◌++◌, ◌==◌, if◌then◌else◌, take,
  replicate, Option, none, some,
}
use ultra_display_os.Prelude.Int.{ℤ, pos}
use ultra_display_os.Shared.Result.{Result, ok, err, system_error}
use ultra_display_os.Shared.AudioFormat.{AudioFormat, no_format}

pub record WasapiCapture : Type 0 where
  pub audio_client : Bool
  pub capture_client : Bool
  pub format : AudioFormat
  pub event_handle : Bool
  pub is_capturing : Bool

abbrev pub new : WasapiCapture
new = record {
  audio_client = false;
  capture_client = false;
  format = no_format;
  event_handle = false;
  is_capturing = false;
}

-- Of a mix format: its tag or that of its extension.
pub data Tag : Type 0 where
  ieee_float pcm other_extension not_extensible : Tag

pub record MixFormat : Type 0 where
  pub tag : Tag
  pub bits_per_sample : ℕ
  pub samples_per_sec : ℕ
  pub channels : ℕ

-- `none` for a format that is refused.
pub bit_depth : MixFormat → Option ℕ
bit_depth mix = elim mix.tag [
  | ieee_float ↦ some 32
  | pcm ↦ some (mix.bits_per_sample % 2 ^ 8)
  | other_extension ↦ none
  | not_extensible ↦ some (mix.bits_per_sample % 2 ^ 8)
]

-- The calls of `init` after that of the mix format.
pub record InitCalls : Type 0 where
  pub initialize : Bool
  pub create_event : Bool
  pub set_event_handle : Bool
  pub get_service : Bool

pub finish_init : WasapiCapture → InitCalls → Result (Unit {0}) × WasapiCapture
finish_init t calls =
    if calls.initialize
    then (let waiting = record t { event_handle = calls.create_event } in
        if calls.create_event && calls.set_event_handle
        then (let served = record waiting { capture_client = calls.get_service } in
            if calls.get_service then (ok tt, served) else (err system_error, served))
        else (err system_error, waiting))
    else (err system_error, t)

pub set_format : WasapiCapture → MixFormat → ℕ → WasapiCapture
set_format t mix bits = record t {
  format = record {
    sample_rate = mix.samples_per_sec;
    channels = mix.channels % 2 ^ 8;
    bit_depth = bits;
  };
}

-- `endpoint`: the enumerator and the endpoint are found. `activated` writes the pointer of the client.
pub init :
    WasapiCapture → Bool → Bool → Option MixFormat → InitCalls → Result (Unit {0}) × WasapiCapture
unfolding bit_depth finish_init set_format
init t false activated mix calls = (err system_error, t)
init t true false mix calls = (err system_error, record t { audio_client = false })
init t true true none calls = (err system_error, record t { audio_client = true })
init t true true (some mix) calls = elim (bit_depth mix) [
  | none ↦ (err system_error, record t { audio_client = true })
  | some bits ↦ finish_init (set_format (record t { audio_client = true }) mix bits) calls
]

-- `none` is a null pointer that is followed.
pub start : WasapiCapture → Bool → Option (Result (Unit {0}) × WasapiCapture)
start t started =
    if t.is_capturing
    then some (ok tt, t)
    else (if t.audio_client
        then (if started
            then some (ok tt, record t { is_capturing = true })
            else some (err system_error, t))
        else none)

pub stop : WasapiCapture → WasapiCapture
stop t =
    if t.is_capturing && t.audio_client
    then record t { is_capturing = false; event_handle = false }
    else record t { event_handle = false }

-- A buffer of the device: whether it is flagged silent, its number of frames and its samples.
pub record Buffer : Type 0 where
  pub silent : Bool
  pub num_frames : ℕ
  pub samples : List ℤ

-- What the frames of a buffer add.
pub samples_of : AudioFormat → Buffer → List ℤ
samples_of format buffer =
    if buffer.silent
    then replicate (buffer.num_frames * format.channels) (pos 0)
    else if format.bit_depth == 32
    then take (buffer.num_frames * format.channels) buffer.samples
    else if format.bit_depth == 16
    then take (buffer.num_frames * format.channels) buffer.samples
    else []

-- A round of the loop: the buffer, if GetBuffer succeeds, and whether the two calls after it do, with the next
-- packet's length not 0.
pub data Round : Type 0 where
  no_buffer : Round
  last_buffer : Buffer → Round
  more_after : Buffer → Round

-- The loop, for the rounds that it does.
pub read_loop : AudioFormat → List Round → List ℤ
unfolding samples_of
read_loop format [] = []
read_loop format (no_buffer ∷ rounds) = []
read_loop format (last_buffer buffer ∷ rounds) = samples_of format buffer
read_loop format (more_after buffer ∷ rounds) = samples_of format buffer ++ read_loop format rounds

-- `signalled` is the outcome of a wait for an event that exists; without one the wait fails. `rounds` is `none`
-- when the first GetNextPacketSize fails. A result `none` is a null pointer that is followed.
pub read_frames : WasapiCapture → Bool → Option (List Round) → Option (Result (List ℤ))
unfolding read_loop
read_frames t signalled rounds =
    if t.is_capturing && t.event_handle && signalled
    then (if t.capture_client
        then some (elim rounds [ none ↦ err system_error | some rs ↦ ok (read_loop t.format rs) ])
        else none)
    else some (err system_error)
