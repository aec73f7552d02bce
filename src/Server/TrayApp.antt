-- ===== src/Server/TrayApp.antt =====
-- server/gui/tray_app.cpp and its header: the window of the server and its icon. What a call of the system
-- comes back with is an argument, or stands in the message. A string of wide characters is a list of numbers.
pub mod Tabs
pub mod Life
pub mod Monitors
mod Tests
use ultra_display_os.Prelude.{
  ℕ, zero, suc, ◌+◌, Bool, true, false, not, ◌&&◌, List, [], ◌∷◌, ◌++◌, map, ◌==◌, ltb, leb,
  if◌then◌else◌, length, Option, none, some,
}
use ultra_display_os.Prelude.Int.{ℤ, pos, negsuc}
use ultra_display_os.Server.TrayControls.{
  Control, combo_monitor, combo_resolution, combo_fps, combo_codec, combo_quality, slider_bandwidth,
  device_list, same_control, tab_controls,
}
use ultra_display_os.Server.Discovery.Clients.{DiscoveredClient}

pub record DisplaySettings : Type 0 where
  pub monitor_index : ℤ
  pub resolution_index : ℤ
  pub fps_index : ℤ
  pub codec_index : ℤ
  pub quality_index : ℤ
  pub bandwidth_mbps : ℤ

abbrev pub default_settings : DisplaySettings
default_settings = record {
  monitor_index = pos 0;
  resolution_index = pos 0;
  fps_index = pos 1;
  codec_index = pos 0;
  quality_index = pos 1;
  bandwidth_mbps = pos 200;
}

-- A row of the list view.
pub record Row : Type 0 where
  pub name : List ℕ
  pub ip : List ℕ

-- With it what the system keeps for the windows: whether the window exists and is shown, the icon, the
-- timers, which controls have the style WS_VISIBLE, the rows of the list, and whether the quit message is
-- posted. `scanning` is the discovery's `running_`, and `balloons` counts the notices that were shown.
pub record TrayApp : Type 0 where
  pub window : Bool
  pub shown : Bool
  pub icon : Bool
  pub device_timer : Bool
  pub stats_timer : Bool
  pub scanning : Bool
  pub quit : Bool
  pub visible : Control → Bool
  pub current_tab : ℤ
  pub settings : DisplaySettings
  pub bandwidth_text : ℤ
  pub rows : List Row
  pub monitor_names : List (List ℕ)
  pub balloons : ℕ

abbrev pub new : TrayApp
new = record {
  window = false;
  shown = false;
  icon = false;
  device_timer = false;
  stats_timer = false;
  scanning = false;
  quit = false;
  visible = λ c. false;
  current_tab = pos 0;
  settings = default_settings;
  bandwidth_text = pos 0;
  rows = [];
  monitor_names = [];
  balloons = 0;
}

-- ShowWindow of a list of controls.
pub show_all : List Control → Bool → (Control → Bool) → Control → Bool
unfolding same_control
show_all [] cmd visible c = visible c
show_all (d ∷ ds) cmd visible c =
    show_all ds cmd (λ e. if same_control d e then cmd else visible e) c

pub show_tab_controls : TrayApp → ℤ → Bool → TrayApp
unfolding show_all tab_controls
show_tab_controls t tab_index show = record t {
  visible = show_all (tab_controls tab_index) show t.visible;
}

unfoldable pub same_int : ℤ → ℤ → Bool
same_int (pos a) (pos b) = a == b
same_int (pos a) (negsuc b) = false
same_int (negsuc a) (pos b) = false
same_int (negsuc a) (negsuc b) = a == b

pub on_tab_changed : TrayApp → ℤ → TrayApp
unfolding show_tab_controls same_int
on_tab_changed t new_tab =
    if same_int new_tab t.current_tab
    then t
    else record (show_tab_controls (show_tab_controls t t.current_tab false) new_tab true) {
      current_tab = new_tab;
    }

-- A byte as a wide character: a char is signed.
pub widen : ℕ → ℕ
widen b = if ltb b 128 then b else b + 65280

-- `none` is the end of the program: wcscpy_s admits 63 characters of a title and 255 of a text.
pub show_notification : TrayApp → List ℕ → List ℕ → Option TrayApp
show_notification t title message =
    if leb 64 (length title)
    then none
    else (if leb 256 (length message) then none else some (record t { balloons = t.balloons + 1 }))

-- `accepted`: the answer is IDYES. The title has the 12 characters of UltraDisplay, and the text begins with
-- `Pairing accepted: `.
abbrev pub title : List ℕ
title = 85 ∷ 108 ∷ 116 ∷ 114 ∷ 97 ∷ 68 ∷ 105 ∷ 115 ∷ 112 ∷ 108 ∷ 97 ∷ 121 ∷ []

abbrev pub pairing_accepted : List ℕ
pairing_accepted =
    80 ∷ 97 ∷ 105 ∷ 114 ∷ 105 ∷ 110 ∷ 103 ∷ 32 ∷ 97 ∷ 99 ∷ 99 ∷ 101 ∷ 112 ∷ 116 ∷ 101 ∷ 100 ∷ 58
    ∷ 32 ∷ []

pub show_pairing_dialog : TrayApp → List ℕ → Bool → Option TrayApp
unfolding show_notification
show_pairing_dialog t device_name accepted =
    if accepted then show_notification t title (pairing_accepted ++ device_name) else some t

-- The list view is visible when the window is, and its own style says so.
pub update_device_list : TrayApp → List DiscoveredClient → TrayApp
unfolding widen
update_device_list t clients =
    if t.shown && t.visible device_list
    then record t {
      rows =
          map (λ client. record { name = map widen client.name; ip = map widen client.ip }) clients;
    }
    else t

-- An adapter, as EnumDisplayDevicesW gives it: its state, its name and the text of its monitor, if any.
pub record DisplayDevice : Type 0 where
  pub active : Bool
  pub device_name : List ℕ
  pub device_string : Option (List ℕ)

-- ` — `
abbrev pub dash : List ℕ
dash = 32 ∷ 8212 ∷ 32 ∷ []

pub friendly_name : List ℕ → Option (List ℕ) → List ℕ
friendly_name name none = name
friendly_name name (some []) = name
friendly_name name (some (c ∷ device_string)) = name ++ (dash ++ (c ∷ device_string))

-- The loop over the adapters.
pub add_monitors : List DisplayDevice → List (List ℕ) → List (List ℕ)
unfolding friendly_name
add_monitors [] names = names
add_monitors (d ∷ ds) names =
    add_monitors ds
      (if d.active then names ++ (friendly_name d.device_name d.device_string ∷ []) else names)

-- With the items of the combo box, which are the names, and its selection.
pub enumerate_monitors : TrayApp → List DisplayDevice → TrayApp × Option ℕ
unfolding add_monitors
enumerate_monitors t devices =
    let names = add_monitors devices [] in
    (record t { monitor_names = names }, if ltb 0 (length names) then some 0 else none)

-- The end of `create_controls`, once all the controls are created, and invisible.
pub create_controls : TrayApp → TrayApp
unfolding show_tab_controls
create_controls t =
    let created = record t {
      visible = λ c. false;
      current_tab = pos 0;
      bandwidth_text = t.settings.bandwidth_mbps;
    } in
    show_tab_controls (show_tab_controls (show_tab_controls created (pos 0) true) (pos 1) false)
      (pos 2) false

-- The three calls that can fail, in their order.
pub init : TrayApp → Bool → Bool → Bool → List DisplayDevice → Bool × TrayApp
unfolding create_controls enumerate_monitors
init t false registered created devices = (false, t)
init t true false created devices = (false, t)
init t true true false devices = (false, t)
init t true true true devices =
    let made = create_controls (record t { window = true }) in
    let listed = (enumerate_monitors (record made { icon = true }) devices).0 in
    (true, record listed { device_timer = true; stats_timer = true })

-- What a message of the tray icon is about.
pub data Click : Type 0 where
  right_up double_click other_click : Click

-- The ids of gui_resources.h that a command is tested for, and all others.
pub data CommandId : Type 0 where
  idm_open idm_exit idc_btn_scan idc_btn_connect idc_btn_disconnect other_id : CommandId

-- The messages, with what the handler asks of the sender: the selection of a combo box, the place of the
-- slider, the selected tab. `from` is the handle of lParam, if it is that of a control.
pub data Message : Type 0 where
  wm_close wm_destroy wm_size other_message : Message
  wm_tray_icon : Click → Message
  wm_command : CommandId → Bool → Option Control → ℤ → Message
  wm_hscroll : Option Control → ℤ → Message
  wm_notify : Bool → ℤ → Message
  wm_timer : ℕ → Message

-- The branches on the combo box whose selection changed.
pub select : DisplaySettings → Control → ℤ → DisplaySettings
unfolding same_control
select s combo sel =
    if same_control combo combo_monitor
    then record s { monitor_index = sel }
    else if same_control combo combo_resolution
    then record s { resolution_index = sel }
    else if same_control combo combo_fps
    then record s { fps_index = sel }
    else if same_control combo combo_codec
    then record s { codec_index = sel }
    else if same_control combo combo_quality
    then record s { quality_index = sel }
    else s

abbrev pub destroyed : TrayApp → TrayApp
destroyed t = record t {
  device_timer = false;
  stats_timer = false;
  scanning = false;
  icon = false;
  quit = true;
}

-- The switch on the id of a command. DestroyWindow calls the handler with WM_DESTROY, and ends the window.
pub command : TrayApp → CommandId → TrayApp
command t idm_open = record t { shown = true }
command t idm_exit = record (destroyed t) { window = false; shown = false }
command t idc_btn_scan = record t { scanning = true }
command t idc_btn_connect = record t { balloons = t.balloons + 1 }
command t idc_btn_disconnect = record t { balloons = t.balloons + 1 }
command t other_id = t

-- `changed`: the code of the notification is CBN_SELCHANGE.
pub selection_changed : TrayApp → Bool → Option Control → ℤ → TrayApp
unfolding select
selection_changed t false from sel = t
selection_changed t true none sel = t
selection_changed t true (some combo) sel = record t { settings = select t.settings combo sel }

pub scrolled : TrayApp → Option Control → ℤ → TrayApp
unfolding same_control
scrolled t none p = t
scrolled t (some c) p =
    if same_control c slider_bandwidth
    then (let moved = record (t.settings) { bandwidth_mbps = p } in
        record t { settings = moved; bandwidth_text = p })
    else t

-- A click on the icon: the menu that a right click opens sends its choice as a command.
pub clicked : TrayApp → Click → TrayApp
clicked t right_up = t
clicked t double_click = record t { shown = true }
clicked t other_click = t

-- TIMER_DEVICE_REFRESH; the texts that `update_stats` writes are those that the controls are created with.
pub timer : TrayApp → ℕ → List DiscoveredClient → TrayApp
unfolding update_device_list
timer t timer_id clients = if timer_id == 1 then update_device_list t clients else t

-- `clients` are those of the discovery.
pub handle_message : TrayApp → Message → List DiscoveredClient → TrayApp
unfolding command selection_changed scrolled clicked on_tab_changed timer
handle_message t wm_close clients = record t { shown = false }
handle_message t wm_destroy clients = destroyed t
handle_message t (wm_tray_icon click) clients = clicked t click
handle_message t (wm_command id changed from sel) clients =
    selection_changed (command t id) changed from sel
handle_message t (wm_hscroll from p) clients = scrolled t from p
handle_message t (wm_notify false new_tab) clients = t
handle_message t (wm_notify true new_tab) clients = on_tab_changed t new_tab
handle_message t (wm_timer timer_id) clients = timer t timer_id clients
handle_message t wm_size clients = t
handle_message t other_message clients = t

-- The destructor. DestroyWindow fails on a window that is gone.
pub close : TrayApp → TrayApp
close t =
    if t.window
    then record (destroyed t) { window = false; shown = false }
    else record t { scanning = false; icon = false }
