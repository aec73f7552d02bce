-- ===== src/Server/VirtualInput/Tests.antt =====
-- The press of a key on a client.
use ultra_display_os.Prelude.{ℕ, ◌/◌, ◌≡◌, refl, true, List, [], ◌∷◌, arith, replicate, ◌++◌}
use ultra_display_os.Client.InputForwarder.{LinuxEvent, keyboard, mouse, bytes_of, payload_of}
use ultra_display_os.Server.VirtualInput.{
  number_of, code_of, value_of, key, wheel, inject_keyboard, inject_mouse, inject_of, inject_event,
}
use ultra_display_os.Server.VirtualInput.Layout.{Still, injected_lem}

-- The press of the key 30 at 200000 microseconds is injected as the release of the key 3.
abbrev press : LinuxEvent
press = record { tv_sec = 5; tv_usec = 200_000; event_type = 1; code = 30; value = 1 }

injected_test :
    inject_event (record { input_type = keyboard; payload = payload_of press }) ≡ key 3 true
unfolding inject_event inject_of inject_keyboard code_of value_of number_of payload_of bytes_of
injected_test = refl

abbrev zeros : List ℕ
zeros = replicate 8 0

-- A structure of the layout of Windows: a turn of the wheel.
wheel_test :
    inject_event
      (record { input_type = mouse; payload = zeros ++ (2 ∷ 0 ∷ 8 ∷ 0 ∷ 1 ∷ 0 ∷ 0 ∷ 0 ∷ []) })
    ≡ wheel 120
unfolding inject_event inject_of inject_mouse code_of value_of number_of
wheel_test = refl

injected_lem_example :
    (inject_event (record { input_type = keyboard; payload = payload_of press })
      ≡ key (200_000 / 65536) true)
    × Still (inject_event (record { input_type = mouse; payload = payload_of press }))
injected_lem_example = injected_lem press (omega arith)
