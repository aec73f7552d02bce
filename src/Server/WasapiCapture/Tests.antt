-- ===== src/Server/WasapiCapture/Tests.antt =====
-- A capture of two channels.
use ultra_display_os.Prelude.{◌*◌, ◌≡◌, refl, inr, true, false, [], ◌∷◌, some, length, arith}
use ultra_display_os.Prelude.Int.{pos, negsuc}
use ultra_display_os.Shared.Result.{ok}
use ultra_display_os.Shared.AudioFormat.{AudioFormat}
use ultra_display_os.Server.WasapiCapture.{
  WasapiCapture, new, pcm, MixFormat, bit_depth, InitCalls, finish_init, set_format, init, start,
  stop, Buffer, samples_of, no_buffer, last_buffer, more_after, read_loop, read_frames,
}
use ultra_display_os.Server.WasapiCapture.Reading.{
  frames_of, length-read_loop, Deaf, stop_start-Deaf,
}

abbrev mix : MixFormat
mix = record { tag = pcm; bits_per_sample = 16; samples_per_sec = 48000; channels = 2 }

abbrev fine : InitCalls
fine = record {
  initialize = true;
  create_event = true;
  set_event_handle = true;
  get_service = true;
}

abbrev stereo : AudioFormat
stereo = record { sample_rate = 48000; channels = 2; bit_depth = 16 }

abbrev begun : WasapiCapture
begun = record {
  audio_client = true;
  capture_client = true;
  format = stereo;
  event_handle = true;
  is_capturing = false;
}

init_test : init new true true (some mix) fine ≡ (ok tt, begun)
unfolding init bit_depth finish_init set_format
init_test = refl

abbrev buffer : Buffer
buffer = record { silent = false; num_frames = 1; samples = pos 5 ∷ negsuc 5 ∷ [] }

abbrev silence : Buffer
silence = record { silent = true; num_frames = 1; samples = [] }

abbrev capturing : WasapiCapture
capturing = record begun { is_capturing = true }

start_test : start begun true ≡ some (ok tt, capturing)
unfolding start
start_test = refl

read_frames_test :
    read_frames capturing true (some (more_after buffer ∷ last_buffer silence ∷ []))
    ≡ some (ok (pos 5 ∷ negsuc 5 ∷ pos 0 ∷ pos 0 ∷ []))
unfolding read_frames read_loop samples_of
read_frames_test = refl

stop_test : (stop capturing).event_handle ≡ false
unfolding stop
stop_test = refl

-- From a device of 24 bits nothing is read but silence.
deep_test : read_loop (record stereo { bit_depth = 24 }) (more_after buffer ∷ no_buffer ∷ []) ≡ []
unfolding read_loop samples_of
deep_test = refl

length-read_loop_test :
    length (read_loop stereo (more_after buffer ∷ last_buffer buffer ∷ []))
    ≡ frames_of (more_after buffer ∷ last_buffer buffer ∷ []) * 2
length-read_loop_test =
    length-read_loop stereo (more_after buffer ∷ last_buffer buffer ∷ []) (inr refl)
      (omega arith, omega arith)

stop_start-Deaf_example : Deaf true (some (last_buffer buffer ∷ [])) (start (stop capturing) true)
stop_start-Deaf_example = stop_start-Deaf capturing true true (some (last_buffer buffer ∷ []))
