-- ===== src/Server/TrayControls/Tests.antt =====
-- The content of the tabs in a window of 700 by 500.
use ultra_display_os.Prelude.{◌≡◌, refl, ◌++◌, arith, some, none, false, true}
use ultra_display_os.Prelude.Int.{pos, ◌+ℤ◌}
use ultra_display_os.Server.TrayControls.{
  Rect, create_devices_tab, create_display_tab, create_network_tab, item_count, combo_fps,
  combo_codec, btn_scan, separator, device_list, handle, same_control, mem, tab_controls,
}
use ultra_display_os.Server.TrayControls.Layout.{Inside, All, created_Inside}

abbrev content : Rect
content = record { left = pos 4; top = pos 24; right = pos 664; bottom = pos 441 }

item_count_test :
    (item_count combo_fps ≡ some 5)
    × (item_count combo_codec ≡ some 3)
    × (item_count btn_scan ≡ none)
unfolding item_count
item_count_test = (refl, refl, refl)

mem_test :
    (mem separator (tab_controls (pos 2)) ≡ false) × (mem device_list (tab_controls (pos 0)) ≡ true)
unfolding mem same_control handle tab_controls
mem_test = (refl, refl)

created_Inside_test :
    All
      (Inside content)
      (create_devices_tab content ++ (create_display_tab content ++ create_network_tab content))
unfolding ◌+ℤ◌
created_Inside_test = created_Inside content (omega arith) (omega arith)
