-- ===== src/Server/TrayApp/Monitors.antt =====
-- The list of monitors of server/gui/tray_app.cpp, and the notices.
use ultra_display_os.Prelude.{
  ℕ, ◌<◌, ◌≡◌, ◌↔◌, refl, sym, ap, ◌∙◌, Bool, true, false, List, [], ◌∷◌, ◌++◌, map, append-nil,
  append_assoc, length, length-map, ltb, leb, if◌then◌else◌, if-Is, none, some, arith,
}
use ultra_display_os.Server.TrayApp.{
  TrayApp, DisplayDevice, friendly_name, add_monitors, enumerate_monitors, show_notification,
  show_pairing_dialog, pairing_accepted,
}

abbrev pub only_active : List DisplayDevice → List DisplayDevice
only_active [] = []
only_active (d ∷ ds) = if d.active then d ∷ only_active ds else only_active ds

abbrev pub shown_name : DisplayDevice → List ℕ
shown_name d = friendly_name d.device_name d.device_string

active_test :
    (active : Bool) (names : List (List ℕ)) (d : DisplayDevice) (rest : List DisplayDevice)
    → (if active then names ++ (shown_name d ∷ []) else names) ++ map shown_name rest
      ≡ names ++ map shown_name (if active then d ∷ rest else rest)
active_test true names d rest = append_assoc names (shown_name d ∷ []) (map shown_name rest)
active_test false names d rest = refl

add_monitors_lem :
    (ds : List DisplayDevice) (names : List (List ℕ))
    → add_monitors ds names ≡ names ++ map shown_name (only_active ds)
unfolding add_monitors
add_monitors_lem [] names = sym (append-nil names)
add_monitors_lem (d ∷ ds) names =
    add_monitors_lem ds (if d.active then names ++ (shown_name d ∷ []) else names)
    ∙ active_test d.active names d (only_active ds)

-- The names of the monitors are those of the active adapters, in their order. The first is selected, if there
-- is one.
pub enumerate_monitors_lem :
    (t : TrayApp) (devices : List DisplayDevice)
    → ((enumerate_monitors t devices).0.monitor_names ≡ map shown_name (only_active devices))
      × ((enumerate_monitors t devices).1
          ≡ (if ltb 0 (length (only_active devices)) then some 0 else none))
unfolding enumerate_monitors
enumerate_monitors_lem t devices = (
  add_monitors_lem devices [],
  ap (λ n. if ltb 0 n then some 0 else none)
      (ap length (add_monitors_lem devices []) ∙ length-map (only_active devices) shown_name),
)

-- To accept a pairing ends the program exactly when the name of the device has more than 237 bytes.
pub accept_IsNone :
    (t : TrayApp) (device_name : List ℕ)
    → (show_pairing_dialog t device_name true ≡ none) ↔ (237 < length device_name)
unfolding show_pairing_dialog show_notification
accept_IsNone t device_name =
    if-Is (λ o. (o ≡ none) ↔ (237 < length device_name))
      (leb 256 (length (pairing_accepted ++ device_name))) (λ e. ((λ n. ground arith), (λ l. refl)))
      (λ e. ((λ n. absurd (cc n)), (λ l. absurd (ground arith))))
