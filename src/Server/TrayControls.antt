-- ===== src/Server/TrayControls.antt =====
-- server/gui/tray_app.cpp and gui_resources.h: the controls of the window, as they are created. Fonts, styles
-- of a control's look and the wording of labels are left out.
pub mod Layout
mod Tests
use ultra_display_os.Prelude.{
  ℕ, zero, suc, Bool, List, [], ◌∷◌, ◌++◌, ◌==◌, ◌||◌, false, Option, none, some,
}
use ultra_display_os.Prelude.Int.{ℤ, pos, negsuc, ◌+ℤ◌, ◌-ℤ◌}

-- The children of the tab control, in the order of their creation.
pub data Control : Type 0 where
  device_list btn_scan btn_connect btn_disconnect : Control
  label_monitor combo_monitor label_resolution combo_resolution label_fps combo_fps : Control
  label_codec combo_codec label_quality combo_quality : Control
  label_bandwidth slider_bandwidth static_bandwidth separator : Control
  label_latency static_latency label_fps_stat static_fps_stat : Control
  label_bitrate static_bitrate label_packetloss static_packetloss : Control

-- What stands for the handle of its window.
unfoldable pub handle : Control → ℕ
handle device_list = 0
handle btn_scan = 1
handle btn_connect = 2
handle btn_disconnect = 3
handle label_monitor = 4
handle combo_monitor = 5
handle label_resolution = 6
handle combo_resolution = 7
handle label_fps = 8
handle combo_fps = 9
handle label_codec = 10
handle combo_codec = 11
handle label_quality = 12
handle combo_quality = 13
handle label_bandwidth = 14
handle slider_bandwidth = 15
handle static_bandwidth = 16
handle separator = 17
handle label_latency = 18
handle static_latency = 19
handle label_fps_stat = 20
handle static_fps_stat = 21
handle label_bitrate = 22
handle static_bitrate = 23
handle label_packetloss = 24
handle static_packetloss = 25

unfoldable pub same_control : Control → Control → Bool
unfolding handle
same_control c d = handle c == handle d

pub data WindowClass : Type 0 where
  list_view button static combo_box track_bar : WindowClass

pub record Rect : Type 0 where
  pub left : ℤ
  pub top : ℤ
  pub right : ℤ
  pub bottom : ℤ

-- Of the arguments of CreateWindowExW: the class, the place and the size. All the controls here have the
-- tab control for parent, and the style WS_CHILD without WS_VISIBLE.
pub record Created : Type 0 where
  pub control : Control
  pub window_class : WindowClass
  pub x : ℤ
  pub y : ℤ
  pub w : ℤ
  pub h : ℤ

abbrev pub content_left : ℤ
content_left = pos 16

abbrev pub label_h : ℤ
label_h = pos 18

abbrev pub button_w : ℤ
button_w = pos 90

abbrev pub button_h : ℤ
button_h = pos 28

abbrev pub combo_w : ℤ
combo_w = pos 200

abbrev pub row_spacing : ℤ
row_spacing = pos 34

pub create_devices_tab : Rect → List Created
create_devices_tab rc =
    let x : ℤ = rc.left +ℤ content_left in
    let y : ℤ = rc.top +ℤ pos 10 in
    let list_w : ℤ = rc.right -ℤ rc.left -ℤ pos 32 in
    let list_h : ℤ = rc.bottom -ℤ rc.top -ℤ pos 60 in
    let btn_y : ℤ = y +ℤ list_h +ℤ pos 8 in
    record { control = device_list; window_class = list_view; x = x; y = y; w = list_w; h = list_h }
    ∷ record {
      control = btn_scan;
      window_class = button;
      x = x;
      y = btn_y;
      w = button_w;
      h = button_h;
    }
    ∷ record {
      control = btn_connect;
      window_class = button;
      x = x +ℤ button_w +ℤ pos 8;
      y = btn_y;
      w = button_w;
      h = button_h;
    }
    ∷ record {
      control = btn_disconnect;
      window_class = button;
      x = x +ℤ pos 196;
      y = btn_y;
      w = button_w;
      h = button_h;
    }
    ∷ []

-- `make_row`, which makes a label and a combo box below the rows before.
pub make_row : Rect → ℤ → Control → Control → List Created
make_row rc y label_out combo_out =
    let x_label : ℤ = rc.left +ℤ content_left in
    record {
      control = label_out;
      window_class = static;
      x = x_label;
      y = y +ℤ pos 3;
      w = pos 100;
      h = label_h;
    }
    ∷ record {
      control = combo_out;
      window_class = combo_box;
      x = x_label +ℤ pos 110;
      y = y;
      w = combo_w;
      h = pos 200;
    }
    ∷ []

pub create_display_tab : Rect → List Created
unfolding make_row
create_display_tab rc =
    let y : ℤ = rc.top +ℤ pos 14 in
    let y₁ : ℤ = y +ℤ row_spacing in
    let y₂ : ℤ = y₁ +ℤ row_spacing in
    let y₃ : ℤ = y₂ +ℤ row_spacing in
    make_row rc y label_monitor combo_monitor
    ++ make_row rc y₁ label_resolution combo_resolution
    ++ make_row rc y₂ label_fps combo_fps
    ++ make_row rc y₃ label_codec combo_codec
    ++ make_row rc (y₃ +ℤ row_spacing) label_quality combo_quality

pub make_stat_row : Rect → ℤ → Control → Control → List Created
make_stat_row rc y label_out value_out =
    let x_label : ℤ = rc.left +ℤ content_left in
    record {
      control = label_out;
      window_class = static;
      x = x_label;
      y = y +ℤ pos 1;
      w = pos 120;
      h = label_h;
    }
    ∷ record {
      control = value_out;
      window_class = static;
      x = x_label +ℤ pos 130;
      y = y +ℤ pos 1;
      w = pos 200;
      h = label_h;
    }
    ∷ []

pub create_network_tab : Rect → List Created
unfolding make_stat_row
create_network_tab rc =
    let x_label : ℤ = rc.left +ℤ content_left in
    let x_value : ℤ = x_label +ℤ pos 130 in
    let y : ℤ = rc.top +ℤ pos 14 in
    let y₁ : ℤ = y +ℤ pos 50 in
    let y₂ : ℤ = y₁ +ℤ pos 28 in
    let y₃ : ℤ = y₂ +ℤ row_spacing in
    let y₄ : ℤ = y₃ +ℤ row_spacing in
    record {
      control = label_bandwidth;
      window_class = static;
      x = x_label;
      y = y +ℤ pos 3;
      w = pos 120;
      h = label_h;
    }
      ∷ record {
        control = slider_bandwidth;
        window_class = track_bar;
        x = x_value;
        y = y;
        w = pos 280;
        h = pos 30;
      }
      ∷ record {
        control = static_bandwidth;
        window_class = static;
        x = x_value +ℤ pos 290;
        y = y +ℤ pos 5;
        w = pos 100;
        h = label_h;
      }
      ∷ record {
        control = separator;
        window_class = static;
        x = x_label;
        y = y₁;
        w = pos 300;
        h = label_h;
      }
      ∷ make_stat_row rc y₂ label_latency static_latency
    ++ make_stat_row rc y₃ label_fps_stat static_fps_stat
    ++ make_stat_row rc y₄ label_bitrate static_bitrate
    ++ make_stat_row rc (y₄ +ℤ row_spacing) label_packetloss static_packetloss

-- The number of items of a combo box but that of the monitors.
unfoldable pub item_count : Control → Option ℕ
item_count combo_resolution = some 5
item_count combo_fps = some 5
item_count combo_codec = some 3
item_count combo_quality = some 3
item_count _ = none

-- The controls that `show_tab_controls` names.
unfoldable pub tab_controls : ℤ → List Control
tab_controls (pos zero) = device_list ∷ btn_scan ∷ btn_connect ∷ btn_disconnect ∷ []
tab_controls (pos (suc zero)) =
    label_monitor ∷ combo_monitor ∷ label_resolution ∷ combo_resolution ∷ label_fps ∷ combo_fps
    ∷ label_codec ∷ combo_codec ∷ label_quality ∷ combo_quality ∷ []
tab_controls (pos (suc (suc zero))) =
    label_bandwidth ∷ slider_bandwidth ∷ static_bandwidth ∷ label_latency ∷ static_latency
    ∷ label_fps_stat ∷ static_fps_stat ∷ label_bitrate ∷ static_bitrate ∷ label_packetloss
    ∷ static_packetloss ∷ []
tab_controls (pos (suc (suc (suc n)))) = []
tab_controls (negsuc n) = []

unfoldable pub mem : Control → List Control → Bool
unfolding same_control
mem c [] = false
mem c (d ∷ ds) = same_control d c || mem c ds
