-- ===== src/Client/InputForwarder/Order.antt =====
-- In which order client/input/input_forwarder.cpp sends events.
use ultra_display_os.Prelude.{
  ◌≡◌, refl, ap, ap₂, ◌∙◌, sym, Bool, true, false, List, [], ◌∷◌, ◌++◌, if◌then◌else◌, Option, none,
  some,
}
use ultra_display_os.Client.InputForwarder.{
  LinuxEvent, InputEvent, forward, read_device, poll_round,
}

abbrev pub all_events : List (Bool × List LinuxEvent) → List LinuxEvent
all_events [] = []
all_events ((readable, evs) ∷ devices) = (if readable then evs else []) ++ all_events devices

with_event :
    (o : Option InputEvent) (xs ys : List InputEvent)
    → elim o [ none ↦ xs ++ ys | some e ↦ e ∷ (xs ++ ys) ]
      ≡ elim o [ none ↦ xs | some e ↦ e ∷ xs ] ++ ys
with_event none xs ys = refl
with_event (some e) xs ys = refl

read_device-append :
    (xs ys : List LinuxEvent) → read_device (xs ++ ys) ≡ read_device xs ++ read_device ys
unfolding read_device
read_device-append [] ys = refl
read_device-append (x ∷ xs) ys =
    ap (λ zs. elim (forward x) [ none ↦ zs | some e ↦ e ∷ zs ]) (read_device-append xs ys)
    ∙ with_event (forward x) (read_device xs) (read_device ys)

readable_test :
    (readable : Bool) (evs : List LinuxEvent)
    → (if readable then read_device evs else []) ≡ read_device (if readable then evs else [])
unfolding read_device
readable_test true evs = refl
readable_test false evs = refl

-- A round sends what is sent for the events of all readable devices, one device after the other, in their order.
pub poll_round_lem :
    (devices : List (Bool × List LinuxEvent))
    → poll_round devices ≡ read_device (all_events devices)
unfolding poll_round read_device
poll_round_lem [] = refl
poll_round_lem ((readable, evs) ∷ devices) =
    ap₂ (λ xs ys. xs ++ ys) (readable_test readable evs) (poll_round_lem devices)
    ∙ sym (read_device-append (if readable then evs else []) (all_events devices))
