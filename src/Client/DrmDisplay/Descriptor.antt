-- ===== src/Client/DrmDisplay/Descriptor.antt =====
-- What client/compositor/drm_display.c chooses, and the descriptor that it leaves open.
use ultra_display_os.Prelude.{
  ℕ, ◌≡◌, ◌≢◌, ◌⊎◌, inl, inr, refl, subst, Bool, true, false, List, [], ◌∷◌, if-Is, Option-Is,
  Option, none, some,
}
use ultra_display_os.Client.DrmDisplay.{
  DrmContext, blank, Connector, usable, first_connected, Resources, choose, drm_init,
}

-- Some connector of the list is connected and has a mode.
abbrev pub IsConnected : Connector → Type 0
IsConnected c = (c.connected ≡ true) × (c.first_mode ≢ none)

abbrev pub Has : List (Option Connector) → Type 0
Has [] = ⊥
Has (none ∷ cs) = Has cs
Has (some c ∷ cs) = IsConnected c ⊎ Has cs

abbrev NotConnected : Connector → Option (Connector × ℕ) → Type 0
NotConnected c r = r ≡ none → ¬ IsConnected c

usable_none : (c : Connector) → NotConnected c (usable c)
unfolding usable
usable_none c =
    if-Is (NotConnected c) c.connected
      (λ e. Option-Is (NotConnected c) c.first_mode (λ n h k. k.1 n) (λ m e' h. absurd (cc h)))
      (λ e h k. absurd (cc (e, k.0)))

abbrev Usable : Connector → Option (Connector × ℕ) → Type 0
Usable c none = Unit
Usable c (some f) = IsConnected c

usable-Usable : (c : Connector) → Usable c (usable c)
unfolding usable
usable-Usable c =
    if-Is (Usable c) c.connected
      (λ e. Option-Is (Usable c) c.first_mode (λ n. tt) (λ m e'. (e, λ n. absurd (cc (e', n)))))
      (λ e. tt)

-- A connector is chosen exactly if some one is connected and has a mode.
abbrev Decides : List (Option Connector) → Option (Connector × ℕ) → Type 0
Decides cs none = ¬ Has cs
Decides cs (some f) = Has cs

later-Decides :
    (c : Connector) (cs : List (Option Connector)) (r : Option (Connector × ℕ))
    → usable c ≡ none
    → Decides cs r
    → Decides (some c ∷ cs) r
later-Decides c cs none e h = λ k. elim k [ inl a ↦ usable_none c e a | inr a ↦ h a ]
later-Decides c cs (some f) e h = inr h

first_connected-Decides : (cs : List (Option Connector)) → Decides cs (first_connected cs)
unfolding first_connected
first_connected-Decides [] = λ h. h
first_connected-Decides (none ∷ cs) = first_connected-Decides cs
first_connected-Decides (some c ∷ cs) =
    Option-Is (Decides (some c ∷ cs)) (usable c)
      (λ e. later-Decides c cs (first_connected cs) e (first_connected-Decides cs))
      (λ found e. inl (subst (Usable c) e (usable-Usable c)))

-- The end of an initialisation that has its resources: it succeeds with a display, or fails without one; the
-- descriptor is open in both cases.
abbrev pub Ends : ℕ → List (Option Connector) → Bool × DrmContext → Type 0
Ends d cs (true, ctx) = Has cs × (ctx.open_fd ≡ some d)
Ends d cs (false, ctx) = (¬ Has cs) × (ctx.open_fd ≡ some d)

choose-Ends :
    (ctx : DrmContext) (res : Resources) (d : ℕ) (f : Option (Connector × ℕ))
    → ctx.open_fd ≡ some d
    → Decides res.connectors f
    → Ends d res.connectors (choose ctx res f)
unfolding choose
choose-Ends ctx res d none e h = (h, e)
choose-Ends ctx res d (some (conn, m)) e h = (h, e)

-- Once the resources of the device are got, `drm_init` succeeds exactly if some connector is connected and has a
-- mode. If none is, it fails and leaves the descriptor open.
pub drm_init-Ends :
    (d : ℕ) (res : Resources) → Ends d res.connectors (drm_init (some d) true (some res))
unfolding drm_init
drm_init-Ends d res =
    choose-Ends (record blank { fd = some d; open_fd = some d }) res d
      (first_connected res.connectors) refl (first_connected-Decides res.connectors)
