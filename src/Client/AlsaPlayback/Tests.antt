-- ===== src/Client/AlsaPlayback/Tests.antt =====
-- Two channels, and a device that underruns.
use ultra_display_os.Prelude.{ℕ, ◌≡◌, ◌/◌, refl, true, false, List, [], ◌∷◌, some, length, arith}
use ultra_display_os.Shared.Result.{ok, err, system_error}
use ultra_display_os.Shared.AudioFormat.{AudioFormat}
use ultra_display_os.Client.AlsaPlayback.{
  AlsaPlayback, new, s16_le, choose_format, HwCalls, setup_hw_params, finish, init, Written, wrote,
  underrun, suspended, failed, write_loop, write_frames,
}
use ultra_display_os.Client.AlsaPlayback.Writing.{
  Given, write_frames-Given, Ended, write_frames-ends,
}

abbrev stereo : AudioFormat
stereo = record { sample_rate = 48000; channels = 2; bit_depth = 16 }

abbrev fine : HwCalls
fine = record {
  any = true;
  set_access = true;
  set_format = true;
  set_rate_near = true;
  set_channels = true;
  hw_params = true;
}

abbrev opened : AlsaPlayback
opened = record { pcm_handle = true; format = stereo; pcm_format = some s16_le }

init_test : init new stereo true fine ≡ (ok tt, opened)
unfolding init setup_hw_params finish choose_format
init_test = refl

init-closed_test :
    init new stereo true (record fine { set_rate_near = false })
    ≡ (err system_error, record new { format = stereo })
unfolding init setup_hw_params finish
init-closed_test = refl

abbrev samples : List ℕ
samples = 1 ∷ 2 ∷ 3 ∷ 4 ∷ 5 ∷ 6 ∷ []

abbrev outcomes : List Written
outcomes = wrote 1 ∷ underrun ∷ wrote 1 ∷ suspended ∷ wrote 1 ∷ []

write_frames_test : write_frames opened samples outcomes ≡ (some (ok tt), samples)
unfolding write_frames write_loop
write_frames_test = refl

failed_test :
    write_frames opened samples (wrote 2 ∷ failed ∷ [])
    ≡ (some (err system_error), 1 ∷ 2 ∷ 3 ∷ 4 ∷ [])
unfolding write_frames write_loop
failed_test = refl

write_frames-Given_example :
    Given 2 samples (length samples / 2) (write_frames opened samples outcomes)
write_frames-Given_example =
    write_frames-Given opened samples outcomes refl (omega arith, (omega arith, (omega arith, tt)))

write_frames-ends_example : Ended (write_frames opened samples outcomes)
write_frames-ends_example = write_frames-ends opened samples outcomes (omega arith)
