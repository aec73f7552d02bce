-- ===== src/Client/TuiApp/Overlay.antt =====
-- The mode of client/tui/app.cpp and the screen that it shows.
use ultra_display_os.Prelude.{
  ◌≡◌, refl, ◌⊎◌, inl, inr, Bool, true, false, not, List, [], ◌∷◌, none, some, if-Is, ap, ◌∙◌,
  if◌then◌else◌, sym,
}
use ultra_display_os.Client.TuiApp.{
  ScreenId, home, wifi, overlay, TuiApp, new, set_overlay_mode, navigate_to, Event, f1, f3, escape,
  other, catch_event, child,
}

-- The overlay is the current screen exactly in overlay mode, and else home or wifi.
abbrev Mode : Bool → ScreenId → Type 0
Mode true screen = screen ≡ overlay
Mode false screen = (screen ≡ home) ⊎ (screen ≡ wifi)

abbrev pub Agrees : TuiApp → Type 0
Agrees t = Mode t.is_overlay_mode t.current_screen

pub press_all : TuiApp → List Event → TuiApp
unfolding catch_event
press_all t [] = t
press_all t (e ∷ events) = press_all (catch_event t e).1 events

toggled-Mode : (b : Bool) → Mode b (if b then overlay else home)
toggled-Mode true = refl
toggled-Mode false = inl refl

left-Mode :
    (b : Bool) (screen : ScreenId)
    → not b ≡ true
    → (screen ≡ home) ⊎ (screen ≡ wifi)
    → Mode b screen
left-Mode true screen e h = absurd (cc e)
left-Mode false screen e h = h

navigate_to-Agrees :
    (t : TuiApp) (screen : ScreenId)
    → (screen ≡ home) ⊎ (screen ≡ wifi)
    → Agrees t
    → Agrees (navigate_to t screen)
unfolding navigate_to
navigate_to-Agrees t screen h a =
    if-Is Agrees (not t.is_overlay_mode) (λ e. left-Mode t.is_overlay_mode screen e h) (λ e. a)

catch_event-Agrees : (t : TuiApp) (e : Event) → Agrees t → Agrees (catch_event t e).1
unfolding catch_event set_overlay_mode
catch_event-Agrees t f1 a = toggled-Mode (not t.is_overlay_mode)
catch_event-Agrees t f3 a = navigate_to-Agrees t wifi (inr refl) a
catch_event-Agrees t escape a =
    if-Is (λ (r : Bool × TuiApp). Agrees r.1) (not t.is_overlay_mode)
      (λ e. navigate_to-Agrees t home (inl refl) a) (λ e. a)
catch_event-Agrees t other a = a

press_all-Agrees : (t : TuiApp) (events : List Event) → Agrees t → Agrees (press_all t events)
unfolding press_all
press_all-Agrees t [] a = a
press_all-Agrees t (e ∷ events) a =
    press_all-Agrees (catch_event t e).1 events (catch_event-Agrees t e a)

-- Whether the tab container has a child for the screen, by the mode.
abbrev pub Shows : Bool → ScreenId → Type 0
Shows true screen = (screen ≡ overlay) × (child screen ≡ none)
Shows false screen = child screen ≡ some screen

Mode-Shows : (b : Bool) (screen : ScreenId) → Mode b screen → Shows b screen
unfolding child
Mode-Shows true screen h = (h, ap child h)
Mode-Shows false screen (inl h) = ap child h ∙ ap some (sym h)
Mode-Shows false screen (inr h) = ap child h ∙ ap some (sym h)

-- After any keys, in overlay mode the current screen is the overlay, which is no child of the tab container, and
-- outside of that mode it is a screen that is.
pub press_all-Shows :
    (events : List Event)
    → Shows (press_all new events).is_overlay_mode (press_all new events).current_screen
press_all-Shows events =
    Mode-Shows (press_all new events).is_overlay_mode (press_all new events).current_screen
      (press_all-Agrees new events (inr refl))
