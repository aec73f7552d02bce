-- ===== src/Client/TuiApp.antt =====
-- client/tui/app.cpp, client/tui/screens/discovery_screen.cpp and their headers: which screen is shown, and the
-- selection of a server. The layout of the screens is left out.
pub mod Overlay
pub mod Selection
mod Tests
use ultra_display_os.Prelude.{
  ℕ, zero, suc, ◌+◌, ◌-◌, Bool, true, false, not, List, [], ◌∷◌, ◌++◌, ltb, if◌then◌else◌, length,
  get_elem?, Option, none, some,
}

pub data ScreenId : Type 0 where
  home settings diagnostics wifi pairing overlay : ScreenId

pub record TuiApp : Type 0 where
  pub is_overlay_mode : Bool
  pub current_screen : ScreenId

abbrev pub new : TuiApp
new = record { is_overlay_mode = false; current_screen = wifi }

pub set_overlay_mode : TuiApp → Bool → TuiApp
set_overlay_mode t is_overlay = record t {
  is_overlay_mode = is_overlay;
  current_screen = if is_overlay then overlay else home;
}

pub navigate_to : TuiApp → ScreenId → TuiApp
navigate_to t screen = if not t.is_overlay_mode then record t { current_screen = screen } else t

pub data Event : Type 0 where
  f1 f3 escape other : Event

-- Whether the event is taken.
pub catch_event : TuiApp → Event → Bool × TuiApp
unfolding set_overlay_mode navigate_to
catch_event t f1 = (true, set_overlay_mode t (not t.is_overlay_mode))
catch_event t f3 = (true, navigate_to t wifi)
catch_event t escape = if not t.is_overlay_mode then (true, navigate_to t home) else (false, t)
catch_event t other = (false, t)

-- The children of the tab container, by the number of the screen.
pub child : ScreenId → Option ScreenId
child home = some home
child settings = some settings
child diagnostics = some diagnostics
child wifi = some wifi
child pairing = none
child overlay = none

pub record DiscoveredServer : Type 0 where
  pub name : List ℕ
  pub ip_address : List ℕ
  pub latency_ms : ℕ
  pub is_paired : Bool

-- `connect_callback` is whether the callback is set.
pub record DiscoveryScreen : Type 0 where
  pub servers : List DiscoveredServer
  pub selected_index : ℕ
  pub connect_callback : Bool

abbrev pub new_screen : DiscoveryScreen
new_screen = record { servers = []; selected_index = 0; connect_callback = false }

pub add_server : DiscoveryScreen → DiscoveredServer → DiscoveryScreen
add_server t server = record t { servers = t.servers ++ (server ∷ []) }

pub on_connect_attempt : DiscoveryScreen → DiscoveryScreen
on_connect_attempt t = record t { connect_callback = true }

pub data Key : Type 0 where
  arrow_up arrow_down enter other_key : Key

-- What a key does: it is not taken, or it is, or the callback is called with a server, or with a read out of bounds.
pub data Answer : Type 0 where
  ignored taken out_of_bounds : Answer
  connects : DiscoveredServer → Answer

pub connect_selected : Option DiscoveredServer → Answer
connect_selected none = out_of_bounds
connect_selected (some server) = connects server

-- The servers are those of the screen.
pub handle_key : DiscoveryScreen → List DiscoveredServer → Key → Answer × DiscoveryScreen
unfolding connect_selected
handle_key t [] key = (ignored, t)
handle_key t (s ∷ servers) arrow_up =
    if ltb 0 t.selected_index
    then (taken, record t { selected_index = t.selected_index - 1 })
    else (ignored, t)
handle_key t (s ∷ servers) arrow_down =
    if ltb t.selected_index (length (s ∷ servers) - 1)
    then (taken, record t { selected_index = t.selected_index + 1 })
    else (ignored, t)
handle_key t (s ∷ servers) enter =
    if t.connect_callback
    then (connect_selected (get_elem? (s ∷ servers) t.selected_index), t)
    else (taken, t)
handle_key t (s ∷ servers) other_key = (ignored, t)
