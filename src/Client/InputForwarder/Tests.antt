-- ===== src/Client/InputForwarder/Tests.antt =====
-- Two devices, and the entries of a directory.
use ultra_display_os.Prelude.{◌≡◌, refl, Bool, true, false, List, [], ◌∷◌, none, some}
use ultra_display_os.Shared.Result.{ok, err, system_error}
use ultra_display_os.Client.InputForwarder.{
  LinuxEvent, keyboard, bytes_of, payload_of, input_type_of, forward, read_device, poll_round,
  Entry, kept, evdev_fds, init,
}
use ultra_display_os.Client.InputForwarder.Order.{all_events, poll_round_lem}

abbrev press : LinuxEvent
press = record { tv_sec = 5; tv_usec = 200_000; event_type = 1; code = 30; value = 1 }

abbrev sync : LinuxEvent
sync = record press { event_type = 0 }

payload_test :
    payload_of press
    ≡ 5 ∷ 0 ∷ 0 ∷ 0 ∷ 0 ∷ 0 ∷ 0 ∷ 0 ∷ 64 ∷ 13 ∷ 3 ∷ 0 ∷ 0 ∷ 0 ∷ 0 ∷ 0 ∷ 1 ∷ 0 ∷ 30 ∷ 0 ∷ 1 ∷ 0 ∷ 0
      ∷ 0 ∷ []
unfolding payload_of bytes_of
payload_test = refl

abbrev devices : List (Bool × List LinuxEvent)
devices = (true, sync ∷ press ∷ []) ∷ (false, press ∷ []) ∷ []

poll_round_test :
    poll_round devices ≡ record { input_type = keyboard; payload = payload_of press } ∷ []
unfolding poll_round read_device forward input_type_of
poll_round_test = refl

poll_round_same : poll_round devices ≡ read_device (all_events devices)
poll_round_same = poll_round_lem devices

abbrev entries : List Entry
entries =
    record { is_event = false; fd = some 3; evdev = true; has_type = true }
    ∷ record { is_event = true; fd = some 4; evdev = true; has_type = true }
    ∷ record { is_event = true; fd = none; evdev = true; has_type = true }
    ∷ []

init_test : (init (some entries) ≡ (ok tt, 4 ∷ [])) × (init none ≡ (err system_error, []))
unfolding init evdev_fds kept
init_test = (refl, refl)
