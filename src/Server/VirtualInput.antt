-- ===== src/Server/VirtualInput.antt =====
-- server/input/virtual_input.cpp and its header: the events of the client, given to Windows. The structure
-- `linux_input_event` has the layout of Windows, where a long has 4 bytes.
pub mod Layout
mod Tests
use ultra_display_os.Prelude.{
  ℕ, ◌+◌, ◌*◌, ◌%◌, ◌^◌, List, [], ◌∷◌, ◌==◌, ltb, if◌then◌else◌, length, take, drop, Bool, true,
  false,
}
use ultra_display_os.Client.InputForwarder.{InputType, keyboard, mouse, gamepad, InputEvent}

pub number_of : List ℕ → ℕ
number_of [] = 0
number_of (b ∷ bytes) = b + 256 * number_of bytes

-- sizeof(linux_input_event): the time has 8 bytes.
abbrev pub event_size : ℕ
event_size = 16

pub code_of : List ℕ → ℕ
unfolding number_of
code_of payload = number_of (take 2 (drop 10 payload))

pub value_of : List ℕ → ℕ
unfolding number_of
value_of payload = number_of (take 4 (drop 12 payload))

-- What SendInput is given, if it is called: a scan code, and whether the key goes up; a move; or a turn of the wheel.
pub data Injected : Type 0 where
  nothing : Injected
  key : ℕ → Bool → Injected
  move_x move_y wheel : ℕ → Injected

pub inject_keyboard : List ℕ → Injected
unfolding code_of value_of
inject_keyboard payload = key (code_of payload) (value_of payload == 0)

pub inject_mouse : List ℕ → Injected
unfolding code_of value_of
inject_mouse payload =
    if code_of payload == 0
    then move_x (value_of payload)
    else if code_of payload == 1
    then move_y (value_of payload)
    else if code_of payload == 8
    then wheel (value_of payload * 120 % 2 ^ 32)
    else nothing

pub inject_of : InputType → List ℕ → Injected
unfolding inject_keyboard inject_mouse
inject_of keyboard payload = inject_keyboard payload
inject_of mouse payload = inject_mouse payload
inject_of gamepad payload = nothing

pub inject_event : InputEvent → Injected
unfolding inject_of
inject_event event =
    if ltb (length event.payload) event_size
    then nothing
    else inject_of event.input_type event.payload
