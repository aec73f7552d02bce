-- ===== src/Client/AlsaPlayback.antt =====
-- client/audio/alsa_playback.cpp and its header: samples written to a device of ALSA. What a call of the
-- library comes back with is an argument. A sample is a number, whatever it stands for.
pub mod Writing
mod Tests
use ultra_display_os.Prelude.{
  ℕ, ◌+◌, ◌*◌, ◌/◌, Bool, true, false, ◌&&◌, List, [], ◌∷◌, ◌++◌, ◌==◌, ltb, if◌then◌else◌, length,
  take, drop, Option, none, some,
}
use ultra_display_os.Shared.Result.{Result, ok, err, system_error}
use ultra_display_os.Shared.AudioFormat.{AudioFormat, no_format}

pub data PcmFormat : Type 0 where
  s16_le s24_le float_le : PcmFormat

-- Whether the handle is not null, and the format that the device is set to, if any.
pub record AlsaPlayback : Type 0 where
  pub pcm_handle : Bool
  pub format : AudioFormat
  pub pcm_format : Option PcmFormat

abbrev pub new : AlsaPlayback
new = record { pcm_handle = false; format = no_format; pcm_format = none }

pub choose_format : ℕ → PcmFormat
choose_format bit_depth =
    if bit_depth == 16 then s16_le else if bit_depth == 24 then s24_le else float_le

-- The six calls that are tested, in their order.
pub record HwCalls : Type 0 where
  pub any : Bool
  pub set_access : Bool
  pub set_format : Bool
  pub set_rate_near : Bool
  pub set_channels : Bool
  pub hw_params : Bool

pub setup_hw_params : AlsaPlayback → HwCalls → Result (Unit {0}) × AlsaPlayback
unfolding choose_format
setup_hw_params t calls =
    if calls.any && calls.set_access && calls.set_format && calls.set_rate_near
      && calls.set_channels && calls.hw_params
    then (ok tt, record t { pcm_format = some (choose_format t.format.bit_depth) })
    else (err system_error, t)

-- The end of `init`: the handle is closed when the setting fails.
pub finish : Result (Unit {0}) × AlsaPlayback → Result (Unit {0}) × AlsaPlayback
finish (ok v, t) = (ok tt, t)
finish (err e, t) = (err e, record t { pcm_handle = false })

-- `opened`: snd_pcm_open succeeds.
pub init : AlsaPlayback → AudioFormat → Bool → HwCalls → Result (Unit {0}) × AlsaPlayback
unfolding setup_hw_params finish
init t format opened calls =
    if opened
    then finish (setup_hw_params (record t { format = format; pcm_handle = true }) calls)
    else (err system_error, record t { format = format })

-- What snd_pcm_writei comes back with: the number of frames written, -EPIPE, -ESTRPIPE or another error. After
-- a suspension snd_pcm_resume is called until it is not -EAGAIN; how it ends changes nothing here.
pub data Written : Type 0 where
  wrote : ℕ → Written
  underrun suspended failed : Written

-- The loop, over the outcomes of its calls, with the samples that the device was given. The result is `none`
-- while the loop goes on.
pub write_loop :
    (channels : ℕ) (pcm_data : List ℕ) (frames written : ℕ)
    → List Written
    → List ℕ
    → Option (Result (Unit {0})) × List ℕ
write_loop channels pcm_data frames written [] given =
    (if ltb written frames then none else some (ok tt), given)
write_loop channels pcm_data frames written (wrote n ∷ outcomes) given =
    let more = given ++ take (n * channels) (drop (written * channels) pcm_data) in
    let rest = write_loop channels pcm_data frames (written + n) outcomes more in
    if ltb written frames then rest else (some (ok tt), given)
write_loop channels pcm_data frames written (underrun ∷ outcomes) given =
    let rest = write_loop channels pcm_data frames written outcomes given in
    if ltb written frames then rest else (some (ok tt), given)
write_loop channels pcm_data frames written (suspended ∷ outcomes) given =
    let rest = write_loop channels pcm_data frames written outcomes given in
    if ltb written frames then rest else (some (ok tt), given)
write_loop channels pcm_data frames written (failed ∷ outcomes) given =
    if ltb written frames then (some (err system_error), given) else (some (ok tt), given)

-- Of an opened device the number of channels is not 0, which ALSA refuses to set.
pub write_frames : AlsaPlayback → List ℕ → List Written → Option (Result (Unit {0})) × List ℕ
unfolding write_loop
write_frames t pcm_data outcomes =
    if t.pcm_handle
    then write_loop t.format.channels pcm_data (length pcm_data / t.format.channels) 0 outcomes []
    else (some (err system_error), [])
