-- ===== src/Client/TuiApp/Selection.antt =====
-- The selection of client/tui/screens/discovery_screen.cpp, whatever happens to the screen.
use ultra_display_os.Prelude.{
  ℕ, ◌-◌, ◌<◌, ◌≡◌, ◌≢◌, refl, ◌⊎◌, inl, inr, List, [], ◌∷◌, ltb, length, length-append, get_elem?,
  get_elem?-eq-get_or, arith, if-Is, ap, sym, subst,
}
use ultra_display_os.Client.TuiApp.{
  DiscoveredServer, DiscoveryScreen, new_screen, add_server, on_connect_attempt, Key, arrow_up,
  arrow_down, enter, other_key, Answer, out_of_bounds, connect_selected, handle_key,
}

-- A screen of servers, from its constructor on.
pub data Reach : DiscoveryScreen → Type 0 where
  begun : Reach new_screen
  adds : (t : DiscoveryScreen) (server : DiscoveredServer) → Reach t → Reach (add_server t server)
  sets : (t : DiscoveryScreen) → Reach t → Reach (on_connect_attempt t)
  keys : (t : DiscoveryScreen) (key : Key) → Reach t → Reach (handle_key t t.servers key).1

-- The selection is inside, once there is a server.
abbrev Selected : DiscoveryScreen → Type 0
Selected t = (t.selected_index < length t.servers) ⊎ (t.selected_index ≡ 0)

add_server-Selected :
    (t : DiscoveryScreen) (s : DiscoveredServer) → Selected t → Selected (add_server t s)
unfolding add_server
add_server-Selected t s (inl h) = inl (omega (arith, length-append t.servers (s ∷ [])))
add_server-Selected t s (inr h) = inr h

handle_key-Selected :
    (t : DiscoveryScreen) (servers : List DiscoveredServer) (key : Key)
    → servers ≡ t.servers
    → Selected t
    → Selected (handle_key t servers key).1
unfolding handle_key
handle_key-Selected t [] key e h = h
handle_key-Selected t (s ∷ servers) arrow_up e h =
    if-Is (λ (r : Answer × DiscoveryScreen). Selected r.1) (ltb 0 t.selected_index)
      (λ l. inl (elim h [ inl k ↦ omega arith | inr k ↦ absurd (ground arith) ])) (λ l. h)
handle_key-Selected t (s ∷ servers) arrow_down e h =
    if-Is (λ (r : Answer × DiscoveryScreen). Selected r.1)
      (ltb t.selected_index (length (s ∷ servers) - 1)) (λ l. inl (ground (arith, ap length e)))
      (λ l. h)
handle_key-Selected t (s ∷ servers) enter e h =
    if-Is (λ (r : Answer × DiscoveryScreen). Selected r.1) t.connect_callback (λ l. h) (λ l. h)
handle_key-Selected t (s ∷ servers) other_key e h = h

Reach-Selected : {t : DiscoveryScreen} → Reach t → Selected t
unfolding on_connect_attempt
Reach-Selected begun = inr refl
Reach-Selected (adds t s r) = add_server-Selected t s (Reach-Selected r)
Reach-Selected (sets t r) = Reach-Selected r
Reach-Selected (keys t key r) = handle_key-Selected t t.servers key refl (Reach-Selected r)

connect_selected-inside :
    (servers : List DiscoveredServer) (d : DiscoveredServer) (i : ℕ)
    → i < length servers
    → connect_selected (get_elem? servers i) ≢ out_of_bounds
unfolding connect_selected
connect_selected-inside servers d i h =
    subst (λ o. connect_selected o ≢ out_of_bounds) (sym (get_elem?-eq-get_or servers i d h))
      (λ e. absurd (cc e))

handle_key-inside :
    (t : DiscoveryScreen) (servers : List DiscoveredServer) (key : Key)
    → servers ≡ t.servers
    → Selected t
    → (handle_key t servers key).0 ≢ out_of_bounds
unfolding handle_key
handle_key-inside t [] key e h = λ n. absurd (cc n)
handle_key-inside t (s ∷ servers) arrow_up e h =
    if-Is (λ (r : Answer × DiscoveryScreen). r.0 ≢ out_of_bounds) (ltb 0 t.selected_index)
      (λ l n. absurd (cc n)) (λ l n. absurd (cc n))
handle_key-inside t (s ∷ servers) arrow_down e h =
    if-Is (λ (r : Answer × DiscoveryScreen). r.0 ≢ out_of_bounds)
      (ltb t.selected_index (length (s ∷ servers) - 1)) (λ l n. absurd (cc n))
      (λ l n. absurd (cc n))
handle_key-inside t (s ∷ servers) enter e h =
    let inside : t.selected_index < length (s ∷ servers) = elim h [
      | inl k ↦ omega (arith, ap length e)
      | inr k ↦ omega arith
    ] in
    if-Is (λ (r : Answer × DiscoveryScreen). r.0 ≢ out_of_bounds) t.connect_callback
      (λ l. connect_selected-inside (s ∷ servers) s t.selected_index inside) (λ l n. absurd (cc n))
handle_key-inside t (s ∷ servers) other_key e h = λ n. absurd (cc n)

-- Whatever servers are found and keys pressed, no key reads a server out of bounds.
pub Reach-inside :
    {t : DiscoveryScreen} (key : Key) → Reach t → (handle_key t t.servers key).0 ≢ out_of_bounds
Reach-inside {t = t} key r = handle_key-inside t t.servers key refl (Reach-Selected r)
