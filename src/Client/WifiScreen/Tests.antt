-- ===== src/Client/WifiScreen/Tests.antt =====
-- A scan that finds two networks, one of them twice.
use ultra_display_os.Prelude.{ℕ, ◌≡◌, ◌≢◌, refl, false, List, [], ◌∷◌, ◌++◌, none, some}
use ultra_display_os.Server.Discovery.Clients.{same_bytes}
use ultra_display_os.Client.WifiScreen.{
  WifiScreen, new, drop_newline, known, add_lines, no_networks_found, scan_networks, begins,
  has_part, command_start, command_end, connect_to_network, nothing, out_of_bounds, connects,
  connect_selected, press_connect, arrow_down, arrow_up, handle_event,
}
use ultra_display_os.Client.WifiScreen.Selection.{Distinct, begun, events, Reach-inside}

abbrev lines : List (List ℕ)
lines = (97 ∷ 10 ∷ []) ∷ (98 ∷ 10 ∷ []) ∷ (97 ∷ 10 ∷ []) ∷ (10 ∷ []) ∷ []

abbrev found : WifiScreen
found = record { networks = (97 ∷ []) ∷ (98 ∷ []) ∷ []; selected_index = 0; password_input = [] }

new_test : new (some lines) ≡ found
unfolding new scan_networks add_lines drop_newline known same_bytes
new_test = refl

new-none_test : (new none).networks ≡ no_networks_found ∷ []
unfolding new scan_networks
new-none_test = refl

handle_event_test : handle_event found arrow_up ≡ (false, found)
unfolding handle_event
handle_event_test = refl

abbrev no_found : WifiScreen
no_found = record { networks = no_networks_found ∷ []; selected_index = 0; password_input = [] }

press_connect_test : press_connect no_found no_found.networks ≡ (nothing, no_found)
unfolding press_connect has_part begins
press_connect_test = refl

-- The name `"; reboot; "` ends the quotes of the command, and runs a command of its own.
abbrev reboot : List ℕ
reboot = 34 ∷ 59 ∷ 32 ∷ 114 ∷ 101 ∷ 98 ∷ 111 ∷ 111 ∷ 116 ∷ 59 ∷ 32 ∷ 34 ∷ []

injection_test :
    (press_connect (record found { networks = reboot ∷ [] }) (reboot ∷ [])).0
    ≡ connects (command_start ++ (reboot ++ (34 ∷ 32 ∷ 34 ∷ command_end)))
unfolding press_connect has_part begins connect_selected connect_to_network
injection_test = refl

Reach-inside_example :
    Distinct (handle_event (new (some lines)) arrow_down).1.networks
    × ((press_connect
          (handle_event (new (some lines)) arrow_down).1
          (handle_event (new (some lines)) arrow_down).1.networks).0
        ≢ out_of_bounds)
Reach-inside_example = Reach-inside (events (new (some lines)) arrow_down (begun (some lines)))
