-- ===== src/Server/TrayApp/Tests.antt =====
-- A window with two adapters, of which one is active, whose messages switch tabs and end it.
use ultra_display_os.Prelude.{
  ℕ, ◌≡◌, ◌<◌, ◌↔◌, refl, true, false, List, [], ◌∷◌, map, none, some, ltb, length, if◌then◌else◌,
  replicate,
}
use ultra_display_os.Prelude.Int.{pos}
use ultra_display_os.Server.Discovery.Clients.{DiscoveredClient}
use ultra_display_os.Server.TrayControls.{
  separator, combo_fps, slider_bandwidth, handle, same_control, tab_controls,
}
use ultra_display_os.Server.TrayApp.{
  TrayApp, new, show_all, show_tab_controls, same_int, on_tab_changed, widen, show_pairing_dialog,
  update_device_list, DisplayDevice, friendly_name, add_monitors, enumerate_monitors,
  create_controls, init, idm_exit, other_id, wm_command, wm_notify, wm_hscroll, select, command,
  selection_changed, scrolled, handle_message, close,
}
use ultra_display_os.Server.TrayApp.Life.{Reach, begun, next, handles, IsAlive, Reach-IsAlive}
use ultra_display_os.Server.TrayApp.Tabs.{ShowsTab, Reach-ShowsTab}
use ultra_display_os.Server.TrayApp.Monitors.{
  only_active, shown_name, enumerate_monitors_lem, accept_IsNone,
}

abbrev adapters : List DisplayDevice
adapters =
    record { active = false; device_name = 49 ∷ []; device_string = none }
    ∷ record { active = true; device_name = 50 ∷ []; device_string = some (77 ∷ []) }
    ∷ []

abbrev app : TrayApp
app = (init new true true true adapters).1

abbrev on_network : TrayApp
on_network = handle_message app (wm_notify true (pos 2)) []

abbrev exited : TrayApp
exited = handle_message on_network (wm_command idm_exit false none (pos 0)) []

init_test : app.monitor_names ≡ (50 ∷ 32 ∷ 8212 ∷ 32 ∷ 77 ∷ []) ∷ []
unfolding init create_controls show_tab_controls enumerate_monitors add_monitors friendly_name
init_test = refl

selected_test :
    (handle_message app (wm_command other_id true (some combo_fps) (pos 3)) []).settings.fps_index
    ≡ pos 3
unfolding init create_controls show_tab_controls enumerate_monitors handle_message command
    selection_changed select same_control handle
selected_test = refl

scrolled_test :
    (handle_message app (wm_hscroll (some slider_bandwidth) (pos 500)) []).bandwidth_text ≡ pos 500
unfolding init create_controls show_tab_controls enumerate_monitors handle_message scrolled
    same_control handle
scrolled_test = refl

abbrev client : DiscoveredClient
client = record { name = 65 ∷ 195 ∷ []; ip = 49 ∷ []; port = 0; fingerprint = []; last_seen = 0 }

-- The byte 195 becomes the wide character 65475.
rows_test :
    (update_device_list (record app { shown = true }) (client ∷ [])).rows
    ≡ record { name = 65 ∷ 65475 ∷ []; ip = 49 ∷ [] } ∷ []
unfolding update_device_list widen init create_controls show_tab_controls enumerate_monitors
    show_all tab_controls same_control handle
rows_test = refl

close_test : (close app).quit ≡ true
unfolding close init create_controls show_tab_controls enumerate_monitors
close_test = refl

switched : Reach adapters on_network
unfolding init create_controls show_tab_controls enumerate_monitors
switched = next begun (handles app (wm_notify true (pos 2)) [] refl tt)

Reach-ShowsTab_example :
    ShowsTab on_network.current_tab on_network.visible × (on_network.visible separator ≡ false)
Reach-ShowsTab_example = Reach-ShowsTab switched

on_network_window : on_network.window ≡ true
unfolding handle_message on_tab_changed show_tab_controls same_int init create_controls
    enumerate_monitors
on_network_window = refl

Reach-IsAlive_example : IsAlive exited
Reach-IsAlive_example = Reach-IsAlive (
    next switched
      (handles on_network (wm_command idm_exit false none (pos 0)) [] on_network_window tt))

abbrev long_name : List ℕ
long_name = replicate 238 65

enumerate_monitors_lem_test :
    ((enumerate_monitors new adapters).0.monitor_names ≡ map shown_name (only_active adapters))
    × ((enumerate_monitors new adapters).1
        ≡ (if ltb 0 (length (only_active adapters)) then some 0 else none))
enumerate_monitors_lem_test = enumerate_monitors_lem new adapters

accept_IsNone_test : (show_pairing_dialog new long_name true ≡ none) ↔ (237 < length long_name)
accept_IsNone_test = accept_IsNone new long_name
