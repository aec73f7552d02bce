-- ===== src/Client/WifiScreen.antt =====
-- client/tui/screens/wifi_screen.cpp and its header: the networks that a scan finds, the selection among them,
-- and the command that connects. The layout of the screen is left out, and the status text, which nothing reads.
pub mod Selection
mod Tests
use ultra_display_os.Prelude.{
  ℕ, zero, suc, ◌+◌, ◌-◌, Bool, true, false, not, ◌&&◌, ◌||◌, List, [], ◌∷◌, ◌++◌, ◌==◌, ltb,
  if◌then◌else◌, length, get_elem?, Option, none, some,
}
use ultra_display_os.Server.Discovery.Clients.{same_bytes}

-- A string is a list of bytes. The callbacks' `is_scanning_` is true only inside of a scan.
pub record WifiScreen : Type 0 where
  pub networks : List (List ℕ)
  pub selected_index : ℕ
  pub password_input : List ℕ

abbrev pub newline : ℕ
newline = 10

-- `back` and `pop_back`.
pub drop_newline : List ℕ → List ℕ
drop_newline [] = []
drop_newline (b ∷ []) = if b == newline then [] else b ∷ []
drop_newline (b ∷ c ∷ rest) = b ∷ drop_newline (c ∷ rest)

-- `std::find`.
pub known : List ℕ → List (List ℕ) → Bool
unfolding same_bytes
known ssid [] = false
known ssid (n ∷ networks) = same_bytes n ssid || known ssid networks

abbrev pub is_empty : List ℕ → Bool
is_empty [] = true
is_empty (b ∷ bytes) = false

-- The loop over what fgets reads: the lines of the command.
pub add_lines : List (List ℕ) → List (List ℕ) → List (List ℕ)
unfolding drop_newline known
add_lines networks [] = networks
add_lines networks (line ∷ lines) =
    let ssid = drop_newline line in
    add_lines
      (if not (is_empty ssid) && not (known ssid networks)
        then networks ++ (ssid ∷ [])
        else networks)
      lines

-- The texts `No networks` and `No networks found. (Is Wi-Fi adapter present?)`.
abbrev pub no_networks : List ℕ
no_networks = 78 ∷ 111 ∷ 32 ∷ 110 ∷ 101 ∷ 116 ∷ 119 ∷ 111 ∷ 114 ∷ 107 ∷ 115 ∷ []

abbrev pub no_networks_found : List ℕ
no_networks_found =
    no_networks
    ++ (32 ∷ 102 ∷ 111 ∷ 117 ∷ 110 ∷ 100 ∷ 46 ∷ 32 ∷ 40 ∷ 73 ∷ 115 ∷ 32 ∷ 87 ∷ 105 ∷ 45 ∷ 70 ∷ 105
        ∷ 32 ∷ 97 ∷ 100 ∷ 97 ∷ 112 ∷ 116 ∷ 101 ∷ 114 ∷ 32 ∷ 112 ∷ 114 ∷ 101 ∷ 115 ∷ 101 ∷ 110 ∷ 116
        ∷ 63 ∷ 41 ∷ [])

abbrev pub or_notice : List (List ℕ) → List (List ℕ)
or_notice [] = no_networks_found ∷ []
or_notice (n ∷ networks) = n ∷ networks

-- `lines` is `none` when the command cannot be run.
pub scan_networks : WifiScreen → Option (List (List ℕ)) → WifiScreen
unfolding add_lines
scan_networks t none = record t { networks = or_notice []; selected_index = 0 }
scan_networks t (some lines) = record t {
  networks = or_notice (add_lines [] lines);
  selected_index = 0;
}

-- The constructor, which scans.
pub new : Option (List (List ℕ)) → WifiScreen
unfolding scan_networks
new lines = scan_networks (record { networks = []; selected_index = 0; password_input = [] }) lines

-- Whether a string begins with another, and whether it has it anywhere: `find`.
pub begins : List ℕ → List ℕ → Bool
begins [] bytes = true
begins (p ∷ part) [] = false
begins (p ∷ part) (b ∷ bytes) = (p == b) && begins part bytes

pub has_part : List ℕ → List ℕ → Bool
unfolding begins
has_part part [] = begins part []
has_part part (b ∷ bytes) = begins part (b ∷ bytes) || has_part part bytes

-- `wpa_passphrase "`, `" "` and `" > /tmp/wpa_supplicant.conf`.
abbrev pub command_start : List ℕ
command_start =
    119 ∷ 112 ∷ 97 ∷ 95 ∷ 112 ∷ 97 ∷ 115 ∷ 115 ∷ 112 ∷ 104 ∷ 114 ∷ 97 ∷ 115 ∷ 101 ∷ 32 ∷ 34 ∷ []

abbrev pub command_middle : List ℕ
command_middle = 34 ∷ 32 ∷ 34 ∷ []

abbrev pub command_end : List ℕ
command_end =
    34 ∷ 32 ∷ 62 ∷ 32 ∷ 47 ∷ 116 ∷ 109 ∷ 112 ∷ 47 ∷ 119 ∷ 112 ∷ 97 ∷ 95 ∷ 115 ∷ 117 ∷ 112 ∷ 112
    ∷ 108 ∷ 105 ∷ 99 ∷ 97 ∷ 110 ∷ 116 ∷ 46 ∷ 99 ∷ 111 ∷ 110 ∷ 102 ∷ []

-- The first command that the shell is given; the other four are constants.
pub connect_to_network : WifiScreen → List ℕ → List ℕ → List ℕ × WifiScreen
connect_to_network t ssid password = (
  command_start ++ (ssid ++ (command_middle ++ (password ++ command_end))),
  record t { password_input = [] },
)

-- What a press of the button does: nothing, a read out of bounds, or a command.
pub data Press : Type 0 where
  nothing out_of_bounds : Press
  connects : List ℕ → Press

pub connect_selected : WifiScreen → Option (List ℕ) → Press × WifiScreen
unfolding connect_to_network
connect_selected t none = (out_of_bounds, t)
connect_selected t (some ssid) =
    let (command, u) = connect_to_network t ssid t.password_input in (connects command, u)

pub press_connect : WifiScreen → List (List ℕ) → Press × WifiScreen
unfolding has_part connect_selected
press_connect t [] = (nothing, t)
press_connect t (first ∷ rest) =
    if has_part no_networks first
    then (nothing, t)
    else connect_selected t (get_elem? t.networks t.selected_index)

pub data Event : Type 0 where
  arrow_up arrow_down other : Event

-- The size is at least 1 when `networks_.size() - 1` is computed.
pub handle_event : WifiScreen → Event → Bool × WifiScreen
handle_event t arrow_up =
    if ltb 0 t.selected_index
    then (true, record t { selected_index = t.selected_index - 1 })
    else (false, t)
handle_event t arrow_down =
    if ltb t.selected_index (length t.networks - 1)
    then (true, record t { selected_index = t.selected_index + 1 })
    else (false, t)
handle_event t other = (false, t)
