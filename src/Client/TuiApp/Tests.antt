-- ===== src/Client/TuiApp/Tests.antt =====
-- Keys on the application and on the screen of servers.
use ultra_display_os.Prelude.{◌≡◌, ◌≢◌, refl, true, false, List, [], ◌∷◌}
use ultra_display_os.Client.TuiApp.{
  home, overlay, new, set_overlay_mode, Event, f1, f3, escape, catch_event, DiscoveredServer,
  DiscoveryScreen, new_screen, add_server, on_connect_attempt, enter, out_of_bounds, connects,
  connect_selected, handle_key,
}
use ultra_display_os.Client.TuiApp.Overlay.{press_all, Shows, press_all-Shows}
use ultra_display_os.Client.TuiApp.Selection.{begun, adds, sets, Reach-inside}

abbrev pressed : List Event
pressed = escape ∷ f1 ∷ f3 ∷ []

press_all_test :
    catch_event (record { is_overlay_mode = true; current_screen = overlay }) f1
    ≡ (true, record { is_overlay_mode = false; current_screen = home })
unfolding catch_event set_overlay_mode
press_all_test = refl

press_all-Shows_test :
    Shows (press_all new pressed).is_overlay_mode (press_all new pressed).current_screen
press_all-Shows_test = press_all-Shows pressed

abbrev server : DiscoveredServer
server = record { name = 97 ∷ []; ip_address = 49 ∷ []; latency_ms = 3; is_paired = false }

abbrev screen : DiscoveryScreen
screen = on_connect_attempt (add_server new_screen server)

enter_test : (handle_key screen screen.servers enter).0 ≡ connects server
unfolding handle_key connect_selected on_connect_attempt add_server
enter_test = refl

Reach-inside_example : (handle_key screen screen.servers enter).0 ≢ out_of_bounds
Reach-inside_example =
    Reach-inside enter (sets (add_server new_screen server) (adds new_screen server begun))
