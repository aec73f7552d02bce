-- ===== src/Server/Capture/Tests.antt =====
-- Two adapters with three monitors, and a capture of the second.
use ultra_display_os.Prelude.{◌≡◌, refl, true, false, List, [], ◌∷◌, none, some, ◌≢◌, arith}
use ultra_display_os.Shared.Result.{ok, err, invalid_parameter, system_error}
use ultra_display_os.Server.Capture.{
  Desc, Texture, DxgiCapture, new, Output, create_device, duplicate, init_duplication,
  search_outputs, search_adapters, open_monitor, after_device, init, create_staging_texture,
  ensure_staging_texture, FrameInfo, access_lost, invalid_call, acquired, reset, dirty_rects,
  copy_frame, after_staging, take_frame, answer, acquire_next_frame, release_frame,
}
use ultra_display_os.Server.Capture.Monitors.{init_lem}
use ultra_display_os.Server.Capture.Valid.{Reach, here, next, inits, acquires, Reach-safe}
use ultra_display_os.Server.Capture.Held.{HeldIfReturned, acquire_next_frame-held}
use ultra_display_os.Server.Capture.Stale.{From, lost, again-stale}

abbrev full_hd : Desc
full_hd = record { width = 1920; height = 1080; format = 87 }

abbrev monitor : Output
monitor = record { supported = true; duplicated = some full_hd }

abbrev old_monitor : Output
old_monitor = record { supported = false; duplicated = none }

abbrev adapters : List (List Output)
adapters = (old_monitor ∷ []) ∷ [] ∷ (monitor ∷ old_monitor ∷ []) ∷ []

abbrev started : DxgiCapture
started = record {
  device = some 1;
  duplication = true;
  staging_texture = none;
  metadata_size = 0;
  mode = full_hd;
  held = false;
}

init_test : init new (some 1) true adapters 1 ≡ (ok tt, started)
unfolding init create_device after_device search_adapters search_outputs open_monitor
    init_duplication duplicate
init_test = refl

init-none_test : (init new (some 1) true adapters 3).0 ≡ err invalid_parameter
unfolding init create_device after_device search_adapters search_outputs open_monitor
    init_duplication duplicate
init-none_test = refl

init_lem_test :
    init new (some 1) true adapters 1 ≡ init_duplication (record new { device = some 1 }) monitor
init_lem_test = init_lem new 1 adapters 1

abbrev shown : FrameInfo
shown = record {
  last_present_time = 5;
  last_mouse_update_time = 0;
  total_metadata_buffer_size = 32;
}

abbrev texture : Texture
texture = record { owner = 1; desc = full_hd }

abbrev captured : DxgiCapture
captured = record started { staging_texture = some texture; metadata_size = 32; held = true }

acquired_test :
    acquire_next_frame started (acquired shown (some full_hd)) true none
    ≡ some (
      ok (record {
        texture = texture;
        dirty_rects = [];
        shown = full_hd;
        has_cursor_update = false;
      }),
      captured,
    )
unfolding acquire_next_frame answer take_frame ensure_staging_texture create_staging_texture
    after_staging copy_frame dirty_rects
acquired_test = refl

-- A failure of the texture leaves the frame held, and the next call, which the system refuses while it is,
-- loses the device.
leak_test :
    (acquire_next_frame started (acquired shown (some full_hd)) false none
      ≡ some (err system_error, record started { held = true }))
    × (acquire_next_frame (record started { held = true }) invalid_call true none
        ≡ some (err system_error, reset started))
unfolding acquire_next_frame answer take_frame ensure_staging_texture create_staging_texture
    after_staging
leak_test = (refl, refl)

release_frame_test : (release_frame captured).held ≡ false
unfolding release_frame
release_frame_test = refl

started-Reach : Reach new started
unfolding init create_device after_device search_adapters search_outputs open_monitor
    init_duplication duplicate
started-Reach = next here (inits new (some 1) true adapters 1 refl)

captured-Reach : Reach new captured
captured-Reach =
    next started-Reach
      (acquires started captured _ (acquired shown (some full_hd)) true none acquired_test)

Reach-safe_example :
    (acquire_next_frame captured access_lost true none ≢ none) × (true ≡ true → true ≡ true)
Reach-safe_example = Reach-safe access_lost true none captured-Reach

acquire_next_frame-held_example :
    HeldIfReturned
      (acquired shown none)
      (acquire_next_frame started (acquired shown none) true none)
acquire_next_frame-held_example =
    acquire_next_frame-held started (acquired shown none) none
      ((λ e. λ n. absurd (cc n)), (λ n. refl)) refl

again-stale_example :
    (acquire_next_frame captured access_lost true none ≡ some (err system_error, lost captured))
    × From 1 2 (
        acquire_next_frame
          (init (lost captured) (some 2) true ((monitor ∷ []) ∷ []) 0).1
          (acquired shown (some full_hd))
          true
          none)
again-stale_example =
    again-stale captured texture 2 full_hd [] shown true none refl refl
      (λ n. absurd (omega (arith, n)))
