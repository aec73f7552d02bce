-- ===== src/Server/VirtualInput/Layout.antt =====
-- What server/input/virtual_input.cpp makes of the events that client/input/input_forwarder.cpp sends.
use ultra_display_os.Prelude.{◌*◌, ◌/◌, ◌%◌, ◌<◌, ◌≡◌, ap, ap₂, ◌^◌, if-Is, ◌==◌, true, arith}
use ultra_display_os.Client.InputForwarder.{LinuxEvent, keyboard, mouse, bytes_of, payload_of}
use ultra_display_os.Server.VirtualInput.{
  number_of, code_of, value_of, Injected, nothing, key, move_x, move_y, wheel, inject_keyboard,
  inject_mouse, inject_of, inject_event,
}

code_lem : (ev : LinuxEvent) → ev.tv_usec < 1_000_000 → code_of (payload_of ev) ≡ ev.tv_usec / 65536
unfolding code_of number_of payload_of bytes_of
code_lem ev h = omega arith

value_lem : (ev : LinuxEvent) → ev.tv_usec < 1_000_000 → value_of (payload_of ev) ≡ 0
unfolding value_of number_of payload_of bytes_of
value_lem ev h = omega arith

-- Nothing moves.
abbrev pub Still : Injected → Type 0
Still nothing = Unit
Still (key code up) = ⊥
Still (move_x d) = d ≡ 0
Still (move_y d) = d ≡ 0
Still (wheel d) = d ≡ 0

inject_keyboard_lem :
    (ev : LinuxEvent)
    → ev.tv_usec < 1_000_000
    → inject_keyboard (payload_of ev) ≡ key (ev.tv_usec / 65536) true
unfolding inject_keyboard
inject_keyboard_lem ev h =
    ap₂ (λ code value. key code (value == 0)) (code_lem ev h) (value_lem ev h)

inject_mouse-Still :
    (ev : LinuxEvent) → ev.tv_usec < 1_000_000 → Still (inject_mouse (payload_of ev))
unfolding inject_mouse
inject_mouse-Still ev h =
    let still = value_lem ev h in
    if-Is Still (code_of (payload_of ev) == 0) (λ e. still)
      (λ e.
        if-Is Still (code_of (payload_of ev) == 1) (λ e'. still)
          (λ e'.
            if-Is Still (code_of (payload_of ev) == 8) (λ e''. ap (λ v. v * 120 % 2 ^ 32) still)
              (λ e''. tt)))

-- Of an event that a client of 64-bit Linux sends, with its time in seconds and microseconds, Windows reads code
-- and value out of the time: whichever key is pressed or released, the release of the key of the microseconds'
-- upper part is injected, and whatever a mouse does, nothing moves.
pub injected_lem :
    (ev : LinuxEvent)
    → ev.tv_usec < 1_000_000
    → (inject_event (record { input_type = keyboard; payload = payload_of ev })
        ≡ key (ev.tv_usec / 65536) true)
      × Still (inject_event (record { input_type = mouse; payload = payload_of ev }))
unfolding inject_event inject_of payload_of bytes_of
injected_lem ev h = (inject_keyboard_lem ev h, inject_mouse-Still ev h)
