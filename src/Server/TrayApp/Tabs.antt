-- ===== src/Server/TrayApp/Tabs.antt =====
-- Which controls of server/gui/tray_app.cpp are visible.
use ultra_display_os.Prelude.{
  ℕ, zero, suc, ◌≡◌, refl, sym, ap, ap₂, ◌∙◌, Bool, true, false, not, ◌&&◌, ◌||◌, List, [], ◌∷◌,
  ◌==◌, ==_iff, if◌then◌else◌, if-Is, Bool-cases, inl, inr, arith, Option, none, some,
}
use ultra_display_os.Prelude.Int.{ℤ, pos, negsuc}
use ultra_display_os.Server.Discovery.Clients.{DiscoveredClient}
use ultra_display_os.Server.TrayControls.{
  Control, separator, handle, same_control, tab_controls, mem, slider_bandwidth, device_list,
}
use ultra_display_os.Server.TrayApp.{
  TrayApp, new, show_all, show_tab_controls, same_int, on_tab_changed, update_device_list,
  DisplayDevice, enumerate_monitors, create_controls, init, CommandId, idm_open, idm_exit,
  idc_btn_scan, idc_btn_connect, idc_btn_disconnect, other_id, Click, right_up, double_click,
  other_click, Message, wm_close, wm_destroy, wm_size, other_message, wm_tray_icon, wm_command,
  wm_hscroll, wm_notify, wm_timer, command, selection_changed, scrolled, clicked, timer,
  handle_message, close,
}
use ultra_display_os.Server.TrayApp.Life.{Reach, begun, next, handles, closes}

or_test :
    (same member cmd v : Bool)
    → (if member then cmd else (if same then cmd else v)) ≡ (if same || member then cmd else v)
or_test true true cmd v = refl
or_test true false cmd v = refl
or_test false true cmd v = refl
or_test false false cmd v = refl

show_all_lem :
    (ds : List Control) (cmd : Bool) (visible : Control → Bool) (c : Control)
    → show_all ds cmd visible c ≡ (if mem c ds then cmd else visible c)
unfolding show_all mem
show_all_lem [] cmd visible c = refl
show_all_lem (d ∷ ds) cmd visible c =
    show_all_lem ds cmd (λ e. if same_control d e then cmd else visible e) c
    ∙ or_test (same_control d c) (mem c ds) cmd (visible c)

-- What is visible while `tab` is the current tab.
abbrev pub ShowsTab : ℤ → (Control → Bool) → Type 0
ShowsTab tab visible = (c : Control) → visible c ≡ mem c (tab_controls tab)

switch_test :
    (old new v : Bool) → v ≡ old → (if new then true else (if old then false else v)) ≡ new
switch_test true true v h = refl
switch_test false true v h = refl
switch_test true false v h = refl
switch_test false false v h = h

on_tab_changed-ShowsTab :
    (t : TrayApp) (new_tab : ℤ)
    → ShowsTab t.current_tab t.visible
    → ShowsTab (on_tab_changed t new_tab).current_tab (on_tab_changed t new_tab).visible
unfolding on_tab_changed show_tab_controls
on_tab_changed-ShowsTab t new_tab h =
    if-Is (λ (u : TrayApp). ShowsTab u.current_tab u.visible) (same_int new_tab t.current_tab)
      (λ e. h)
      (λ e. λ c.
        show_all_lem (tab_controls new_tab) true
          (show_all (tab_controls t.current_tab) false t.visible) c
        ∙ ap (λ v. if mem c (tab_controls new_tab) then true else v)
            (show_all_lem (tab_controls t.current_tab) false t.visible c)
        ∙ switch_test (mem c (tab_controls t.current_tab)) (mem c (tab_controls new_tab))
            (t.visible c) (h c))

-- The lists of the tabs have no control in common.
apart : List Control → List Control → Bool
unfolding mem
apart [] ds = true
apart (c ∷ cs) ds = not (mem c ds) && apart cs ds

mem-same : (c d : Control) (ds : List Control) → same_control d c ≡ true → mem c ds ≡ mem d ds
unfolding mem
mem-same c d [] h = refl
mem-same c d (e ∷ es) h =
    ap₂ (λ a b. a || b) (ap (λ n. handle e == n) (sym ((==_iff (handle d) (handle c)).0 h)))
      (mem-same c d es h)

mem-apart :
    (c : Control) (cs ds : List Control) → apart cs ds ≡ true → mem c cs ≡ true → mem c ds ≡ false
unfolding mem apart
mem-apart c [] ds h m = absurd (cc m)
mem-apart c (d ∷ cs) ds h m = elim (Bool-cases (same_control d c)) [
  | inl e ↦ mem-same c d ds e ∙ ground arith
  | inr e ↦ mem-apart c cs ds (ground arith) (ground arith)
]

first_test :
    (first second third : Bool)
    → (first ≡ true → second ≡ false)
    → (first ≡ true → third ≡ false)
    → (if third then false else (if second then false else (if first then true else false))) ≡ first
first_test true true third h k = absurd (cc (h refl))
first_test true false true h k = absurd (cc (k refl))
first_test true false false h k = refl
first_test false true true h k = refl
first_test false true false h k = refl
first_test false false true h k = refl
first_test false false false h k = refl

create_controls-ShowsTab :
    (t : TrayApp) → ShowsTab (create_controls t).current_tab (create_controls t).visible
unfolding create_controls show_tab_controls apart mem tab_controls same_control handle
create_controls-ShowsTab t c =
    let none_yet : Control → Bool = λ d. false in
    let one : Control → Bool = show_all (tab_controls (pos 0)) true none_yet in
    let two : Control → Bool = show_all (tab_controls (pos 1)) false one in
    show_all_lem (tab_controls (pos 2)) false two c
    ∙ ap (λ v. if mem c (tab_controls (pos 2)) then false else v)
        (show_all_lem (tab_controls (pos 1)) false one c
          ∙ ap (λ v. if mem c (tab_controls (pos 1)) then false else v)
              (show_all_lem (tab_controls (pos 0)) true none_yet c))
    ∙ first_test (mem c (tab_controls (pos 0))) (mem c (tab_controls (pos 1)))
        (mem c (tab_controls (pos 2)))
        (mem-apart c (tab_controls (pos 0)) (tab_controls (pos 1)) refl)
        (mem-apart c (tab_controls (pos 0)) (tab_controls (pos 2)) refl)

abbrev Shown : TrayApp → Type 0
Shown t = ShowsTab t.current_tab t.visible

command-Shown : (t : TrayApp) (id : CommandId) → Shown t → Shown (command t id)
unfolding command
command-Shown t idm_open h = h
command-Shown t idm_exit h = h
command-Shown t idc_btn_scan h = h
command-Shown t idc_btn_connect h = h
command-Shown t idc_btn_disconnect h = h
command-Shown t other_id h = h

selection_changed-Shown :
    (t : TrayApp) (changed : Bool) (from : Option Control) (sel : ℤ)
    → Shown t
    → Shown (selection_changed t changed from sel)
unfolding selection_changed
selection_changed-Shown t false from sel h = h
selection_changed-Shown t true none sel h = h
selection_changed-Shown t true (some combo) sel h = h

scrolled-Shown : (t : TrayApp) (from : Option Control) (p : ℤ) → Shown t → Shown (scrolled t from p)
unfolding scrolled
scrolled-Shown t none p h = h
scrolled-Shown t (some c) p h = if-Is Shown (same_control c slider_bandwidth) (λ e. h) (λ e. h)

clicked-Shown : (t : TrayApp) (click : Click) → Shown t → Shown (clicked t click)
unfolding clicked
clicked-Shown t right_up h = h
clicked-Shown t double_click h = h
clicked-Shown t other_click h = h

timer-Shown :
    (t : TrayApp) (timer_id : ℕ) (clients : List DiscoveredClient)
    → Shown t
    → Shown (timer t timer_id clients)
unfolding timer update_device_list
timer-Shown t timer_id clients h =
    if-Is Shown (timer_id == 1)
      (λ e. if-Is Shown (t.shown && t.visible device_list) (λ e. h) (λ e. h)) (λ e. h)

handle_message-Shown :
    (t : TrayApp) (m : Message) (clients : List DiscoveredClient)
    → Shown t
    → Shown (handle_message t m clients)
unfolding handle_message
handle_message-Shown t wm_close clients h = h
handle_message-Shown t wm_destroy clients h = h
handle_message-Shown t wm_size clients h = h
handle_message-Shown t other_message clients h = h
handle_message-Shown t (wm_tray_icon click) clients h = clicked-Shown t click h
handle_message-Shown t (wm_command id changed from sel) clients h =
    selection_changed-Shown (command t id) changed from sel (command-Shown t id h)
handle_message-Shown t (wm_hscroll from p) clients h = scrolled-Shown t from p h
handle_message-Shown t (wm_notify false new_tab) clients h = h
handle_message-Shown t (wm_notify true new_tab) clients h = on_tab_changed-ShowsTab t new_tab h
handle_message-Shown t (wm_timer timer_id) clients h = timer-Shown t timer_id clients h

close-Shown : (t : TrayApp) → Shown t → Shown (close t)
unfolding close
close-Shown t h = if-Is Shown t.window (λ e. h) (λ e. h)

Reach-Shown : {devices : List DisplayDevice} {t : TrayApp} → Reach devices t → Shown t
unfolding init enumerate_monitors
Reach-Shown begun = create_controls-ShowsTab (record new { window = true })
Reach-Shown (next r (handles t m clients h e)) = handle_message-Shown t m clients (Reach-Shown r)
Reach-Shown (next r (closes t)) = close-Shown t (Reach-Shown r)

not_separator : (tab : ℤ) → mem separator (tab_controls tab) ≡ false
unfolding mem tab_controls same_control handle
not_separator (pos zero) = refl
not_separator (pos (suc zero)) = refl
not_separator (pos (suc (suc zero))) = refl
not_separator (pos (suc (suc (suc n)))) = refl
not_separator (negsuc n) = refl

-- Whatever the messages of a window that is begun, the controls that are visible are those that
-- `show_tab_controls` names for the current tab, and no others. The line above the statistics is one of no
-- tab, and never visible.
pub Reach-ShowsTab :
    {devices : List DisplayDevice} {t : TrayApp}
    → Reach devices t
    → ShowsTab t.current_tab t.visible × (t.visible separator ≡ false)
Reach-ShowsTab {t = t} r = (Reach-Shown r, Reach-Shown r separator ∙ not_separator t.current_tab)
