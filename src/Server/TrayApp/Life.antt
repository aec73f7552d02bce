-- ===== src/Server/TrayApp/Life.antt =====
-- The messages that a window of server/gui/tray_app.cpp gets, one after the other, and how its life ends.
use ultra_display_os.Prelude.{
  ℕ, ◌≡◌, refl, Bool, true, false, not, List, if-Is, Option, none, some, ◌==◌, ap, sym, ◌&&◌,
}
use ultra_display_os.Prelude.Int.{ℤ}
use ultra_display_os.Server.Discovery.Clients.{DiscoveredClient}
use ultra_display_os.Server.TrayControls.{Control, same_control, slider_bandwidth, device_list}
use ultra_display_os.Server.TrayApp.{
  TrayApp, new, on_tab_changed, show_tab_controls, update_device_list, DisplayDevice,
  enumerate_monitors, create_controls, init, CommandId, idm_open, idm_exit, idc_btn_scan,
  idc_btn_connect, idc_btn_disconnect, other_id, Click, right_up, double_click, other_click,
  Message, wm_close, wm_destroy, wm_size, other_message, wm_tray_icon, wm_command, wm_hscroll,
  wm_notify, wm_timer, command, selection_changed, scrolled, clicked, timer, handle_message, close,
}

-- A message reaches the handler while there is a window. WM_DESTROY comes from the handler alone.
abbrev pub Enabled : Message → Type 0
Enabled wm_destroy = ⊥
Enabled wm_close = Unit {0}
Enabled wm_size = Unit {0}
Enabled other_message = Unit {0}
Enabled (wm_tray_icon click) = Unit {0}
Enabled (wm_command id changed from sel) = Unit {0}
Enabled (wm_hscroll from p) = Unit {0}
Enabled (wm_notify of_tab new_tab) = Unit {0}
Enabled (wm_timer timer_id) = Unit {0}

pub data Step : TrayApp → TrayApp → Type 0 where
  handles :
      (t : TrayApp) (m : Message) (clients : List DiscoveredClient)
      → t.window ≡ true
      → Enabled m
      → Step t (handle_message t m clients)
  closes : (t : TrayApp) → Step t (close t)

-- From a window that is begun.
pub data Reach (devices : List DisplayDevice) : TrayApp → Type 0 where
  begun : Reach devices (init new true true true devices).1
  next : {t u : TrayApp} → Reach devices t → Step t u → Reach devices u

-- Icon and timers last as long as the window, the quit message is posted when it ends, and no scan goes on
-- without it.
abbrev pub IsAlive : TrayApp → Type 0
IsAlive t =
    (t.icon ≡ t.window)
    × (t.device_timer ≡ t.window)
    × (t.stats_timer ≡ t.window)
    × (t.quit ≡ not t.window)
    × (t.window ≡ false → t.scanning ≡ false)

-- What `handle_message` does to a list of parts that no message but the commands changes.
abbrev SameLife : TrayApp → TrayApp → Type 0
SameLife t u =
    (u.window ≡ t.window)
    × (u.icon ≡ t.icon)
    × (u.device_timer ≡ t.device_timer)
    × (u.stats_timer ≡ t.stats_timer)
    × (u.quit ≡ t.quit)
    × (u.scanning ≡ t.scanning)

same : (t : TrayApp) → SameLife t t
same t = (refl, refl, refl, refl, refl, refl)

IsAlive-SameLife : (t u : TrayApp) → SameLife t u → IsAlive t → IsAlive u
IsAlive-SameLife t u (w, i, d, s, q, c) a = (
  cc (w, i, a.0),
  cc (w, d, a.1),
  cc (w, s, a.2),
  cc (ap not w, q, a.3),
  λ h. cc (c, a.4 (cc (w, h))),
)

on_tab_changed-SameLife : (t : TrayApp) (new_tab : ℤ) → SameLife t (on_tab_changed t new_tab)
unfolding on_tab_changed show_tab_controls
on_tab_changed-SameLife t new_tab = if-Is (SameLife t) _ (λ e. same t) (λ e. same t)

timer-SameLife :
    (t : TrayApp) (timer_id : ℕ) (clients : List DiscoveredClient)
    → SameLife t (timer t timer_id clients)
unfolding timer update_device_list
timer-SameLife t timer_id clients =
    if-Is (SameLife t) (timer_id == 1)
      (λ e. if-Is (SameLife t) (t.shown && t.visible device_list) (λ e. same t) (λ e. same t))
      (λ e. same t)

scrolled-SameLife : (t : TrayApp) (from : Option Control) (p : ℤ) → SameLife t (scrolled t from p)
unfolding scrolled
scrolled-SameLife t none p = same t
scrolled-SameLife t (some c) p =
    if-Is (SameLife t) (same_control c slider_bandwidth) (λ e. same t) (λ e. same t)

clicked-SameLife : (t : TrayApp) (click : Click) → SameLife t (clicked t click)
unfolding clicked
clicked-SameLife t right_up = same t
clicked-SameLife t double_click = same t
clicked-SameLife t other_click = same t

selection_changed-SameLife :
    (t : TrayApp) (changed : Bool) (from : Option Control) (sel : ℤ)
    → SameLife t (selection_changed t changed from sel)
unfolding selection_changed
selection_changed-SameLife t false from sel = same t
selection_changed-SameLife t true none sel = same t
selection_changed-SameLife t true (some combo) sel = same t

command-IsAlive :
    (t : TrayApp) (id : CommandId) → t.window ≡ true → IsAlive t → IsAlive (command t id)
unfolding command
command-IsAlive t idm_open h a = a
command-IsAlive t idm_exit h a = (refl, refl, refl, refl, λ e. refl)
command-IsAlive t idc_btn_scan h a = (a.0, a.1, a.2, a.3, λ e. absurd (cc (h, e)))
command-IsAlive t idc_btn_connect h a = a
command-IsAlive t idc_btn_disconnect h a = a
command-IsAlive t other_id h a = a

handle_message-IsAlive :
    (t : TrayApp) (m : Message) (clients : List DiscoveredClient)
    → t.window ≡ true
    → Enabled m
    → IsAlive t
    → IsAlive (handle_message t m clients)
unfolding handle_message
handle_message-IsAlive t wm_close clients h e a = a
handle_message-IsAlive t wm_destroy clients h e a = absurd e
handle_message-IsAlive t wm_size clients h e a = a
handle_message-IsAlive t other_message clients h e a = a
handle_message-IsAlive t (wm_tray_icon click) clients h e a =
    IsAlive-SameLife t (clicked t click) (clicked-SameLife t click) a
handle_message-IsAlive t (wm_command id changed from sel) clients h e a =
    IsAlive-SameLife (command t id) (selection_changed (command t id) changed from sel)
      (selection_changed-SameLife (command t id) changed from sel) (command-IsAlive t id h a)
handle_message-IsAlive t (wm_hscroll from p) clients h e a =
    IsAlive-SameLife t (scrolled t from p) (scrolled-SameLife t from p) a
handle_message-IsAlive t (wm_notify false new_tab) clients h e a = a
handle_message-IsAlive t (wm_notify true new_tab) clients h e a =
    IsAlive-SameLife t (on_tab_changed t new_tab) (on_tab_changed-SameLife t new_tab) a
handle_message-IsAlive t (wm_timer timer_id) clients h e a =
    IsAlive-SameLife t (timer t timer_id clients) (timer-SameLife t timer_id clients) a

close-IsAlive : (t : TrayApp) → IsAlive t → IsAlive (close t)
unfolding close
close-IsAlive t a =
    if-Is IsAlive t.window (λ e. (refl, refl, refl, refl, λ e. refl))
      (λ e. (sym e, a.1, a.2, a.3, λ e. refl))

init-IsAlive : (devices : List DisplayDevice) → IsAlive (init new true true true devices).1
unfolding init create_controls show_tab_controls enumerate_monitors
init-IsAlive devices = (refl, refl, refl, refl, λ e. absurd (cc e))

-- Whatever the messages of a window that is begun: as long as it exists, its icon and both timers do, and no
-- quit message is posted. Once it is gone, icon and timers are removed, no scan goes on, and the quit message
-- is posted.
pub Reach-IsAlive : {devices : List DisplayDevice} {t : TrayApp} → Reach devices t → IsAlive t
Reach-IsAlive {devices = devices} begun = init-IsAlive devices
Reach-IsAlive (next r (handles t m clients h e)) =
    handle_message-IsAlive t m clients h e (Reach-IsAlive r)
Reach-IsAlive (next r (closes t)) = close-IsAlive t (Reach-IsAlive r)
