-- ===== src/Client/InputForwarder.antt =====
-- client/input/input_forwarder.cpp and its header: the events of the client's devices, as they are sent. What a
-- call of the system comes back with is an argument. The structures have the layout of 64-bit Linux.
pub mod Order
mod Tests
use ultra_display_os.Prelude.{
  ℕ, zero, suc, ◌/◌, ◌%◌, Bool, true, false, ◌&&◌, List, [], ◌∷◌, ◌++◌, if◌then◌else◌, length, ltb,
  ◌==◌, Option, none, some,
}
use ultra_display_os.Shared.Result.{Result, ok, err, system_error}

-- struct input_event.
pub record LinuxEvent : Type 0 where
  pub tv_sec : ℕ
  pub tv_usec : ℕ
  pub event_type : ℕ  -- uint16
  pub code : ℕ  -- uint16
  pub value : ℕ  -- uint32

pub data InputType : Type 0 where
  keyboard mouse gamepad : InputType

pub record InputEvent : Type 0 where
  pub input_type : InputType
  pub payload : List ℕ

-- The bytes of a number, the lowest first.
unfoldable pub bytes_of : ℕ → ℕ → List ℕ
bytes_of zero n = []
bytes_of (suc k) n = n % 256 ∷ bytes_of k (n / 256)

-- The copy of the structure.
unfoldable pub payload_of : LinuxEvent → List ℕ
unfolding bytes_of
payload_of ev =
    bytes_of 8 ev.tv_sec
    ++ (bytes_of 8 ev.tv_usec
        ++ (bytes_of 2 ev.event_type ++ (bytes_of 2 ev.code ++ bytes_of 4 ev.value)))

-- EV_KEY, EV_REL and EV_ABS.
unfoldable pub input_type_of : ℕ → Option InputType
input_type_of event_type =
    if event_type == 1
    then some keyboard
    else if event_type == 2
    then some mouse
    else if event_type == 3
    then some gamepad
    else none

-- The event that is sent for one that is read, if any.
pub forward : LinuxEvent → Option InputEvent
unfolding payload_of input_type_of
forward ev = elim (input_type_of ev.event_type) [
  | none ↦ none
  | some input_type ↦ some (record { input_type = input_type; payload = payload_of ev })
]

-- The loop that reads a device until it has no event left.
pub read_device : List LinuxEvent → List InputEvent
unfolding forward
read_device [] = []
read_device (ev ∷ evs) = elim (forward ev) [
  | none ↦ read_device evs
  | some event ↦ event ∷ read_device evs
]

-- A round of the loop: the devices, with whether POLLIN is set and their events.
pub poll_round : List (Bool × List LinuxEvent) → List InputEvent
unfolding read_device
poll_round [] = []
poll_round ((readable, evs) ∷ devices) =
    (if readable then read_device evs else []) ++ poll_round devices

-- An entry of /dev/input: whether its name begins with `event`, its descriptor, if it opens, whether libevdev takes it,
-- and whether it has one of the three types.
pub record Entry : Type 0 where
  pub is_event : Bool
  pub fd : Option ℕ
  pub evdev : Bool
  pub has_type : Bool

pub kept : Entry → Option ℕ
kept entry = if entry.is_event && entry.evdev && entry.has_type then entry.fd else none

pub evdev_fds : List Entry → List ℕ
unfolding kept
evdev_fds [] = []
evdev_fds (entry ∷ entries) = elim (kept entry) [
  | none ↦ evdev_fds entries
  | some fd ↦ fd ∷ evdev_fds entries
]

-- `entries` is `none` when the directory cannot be opened. The second result are the descriptors.
pub init : Option (List Entry) → Result (Unit {0}) × List ℕ
unfolding evdev_fds
init none = (err system_error, [])
init (some entries) =
    (if ltb 0 (length (evdev_fds entries)) then ok tt else err system_error, evdev_fds entries)
