-- ===== src/Client/WifiScreen/Selection.antt =====
-- The networks and the selection of client/tui/screens/wifi_screen.cpp, whatever happens to the screen.
use ultra_display_os.Prelude.{
  ℕ, ◌-◌, ◌<◌, ◌≡◌, ◌≢◌, refl, sym, ap₂, subst, ◌∙◌, Bool, false, not, ◌&&◌, ◌==◌, ltb, List, [],
  ◌∷◌, ◌++◌, length, get_elem?, get_or, get_elem?-eq-get_or, Option, none, some, arith, if-Is,
}
use ultra_display_os.Server.Discovery.Clients.{same_bytes}
use ultra_display_os.Client.WifiScreen.{
  WifiScreen, new, drop_newline, known, is_empty, add_lines, or_notice, no_networks, scan_networks,
  has_part, connect_to_network, Press, out_of_bounds, connect_selected, press_connect, Event,
  arrow_up, arrow_down, other, handle_event,
}

-- No network is there twice.
abbrev pub Distinct : List (List ℕ) → Type 0
Distinct [] = Unit
Distinct (n ∷ networks) = (known n networks ≡ false) × Distinct networks

abbrev pub IsValid : WifiScreen → Type 0
IsValid t = (t.selected_index < length t.networks) × Distinct t.networks

same_bytes_comm : (xs ys : List ℕ) → same_bytes xs ys ≡ same_bytes ys xs
unfolding same_bytes
same_bytes_comm [] [] = refl
same_bytes_comm [] (y ∷ ys) = refl
same_bytes_comm (x ∷ xs) [] = refl
same_bytes_comm (x ∷ xs) (y ∷ ys) =
    let heads : (x == y) ≡ (y == x) = ground arith in
    ap₂ (λ a b. a && b) heads (same_bytes_comm xs ys)

known-append :
    (n ssid : List ℕ) (networks : List (List ℕ))
    → known n networks ≡ false
    → same_bytes ssid n ≡ false
    → known n (networks ++ (ssid ∷ [])) ≡ false
unfolding known
known-append n ssid [] h k = ground arith
known-append n ssid (m ∷ networks) h k =
    ground (arith, known-append n ssid networks (ground arith) k)

Distinct-append :
    (ssid : List ℕ) (networks : List (List ℕ))
    → known ssid networks ≡ false
    → Distinct networks
    → Distinct (networks ++ (ssid ∷ []))
unfolding known
Distinct-append ssid [] h d = (refl, tt)
Distinct-append ssid (n ∷ networks) h d = (
  known-append n ssid networks d.0 (same_bytes_comm ssid n ∙ ground arith),
  Distinct-append ssid networks (ground arith) d.1,
)

Distinct-add_lines :
    (networks lines : List (List ℕ)) → Distinct networks → Distinct (add_lines networks lines)
unfolding add_lines
Distinct-add_lines networks [] d = d
Distinct-add_lines networks (line ∷ lines) d =
    if-Is (λ (ns : List (List ℕ)). Distinct (add_lines ns lines))
      (not (is_empty (drop_newline line)) && not (known (drop_newline line) networks))
      (λ e.
        Distinct-add_lines (networks ++ (drop_newline line ∷ [])) lines
          (Distinct-append (drop_newline line) networks (ground arith) d))
      (λ e. Distinct-add_lines networks lines d)

noticed-IsValid :
    (networks : List (List ℕ))
    → Distinct networks
    → (0 < length (or_notice networks)) × Distinct (or_notice networks)
unfolding known
noticed-IsValid [] d = (omega arith, (refl, tt))
noticed-IsValid (n ∷ networks) d = (omega arith, d)

scan_networks-IsValid :
    (t : WifiScreen) (lines : Option (List (List ℕ))) → IsValid (scan_networks t lines)
unfolding scan_networks
scan_networks-IsValid t none = noticed-IsValid [] tt
scan_networks-IsValid t (some lines) =
    noticed-IsValid (add_lines [] lines) (Distinct-add_lines [] lines tt)

handle_event-IsValid : (t : WifiScreen) (e : Event) → IsValid t → IsValid (handle_event t e).1
unfolding handle_event
handle_event-IsValid t arrow_up v =
    if-Is (λ (r : Bool × WifiScreen). IsValid r.1) (ltb 0 t.selected_index)
      (λ e. (omega (arith, v.0), v.1)) (λ e. v)
handle_event-IsValid t arrow_down v =
    if-Is (λ (r : Bool × WifiScreen). IsValid r.1) (ltb t.selected_index (length t.networks - 1))
      (λ e. (ground arith, v.1)) (λ e. v)
handle_event-IsValid t other v = v

connect_selected-IsValid :
    (t : WifiScreen) (ssid : Option (List ℕ)) → IsValid t → IsValid (connect_selected t ssid).1
unfolding connect_selected connect_to_network
connect_selected-IsValid t none v = v
connect_selected-IsValid t (some ssid) v = v

press_connect-IsValid :
    (t : WifiScreen) (networks : List (List ℕ)) → IsValid t → IsValid (press_connect t networks).1
unfolding press_connect
press_connect-IsValid t [] v = v
press_connect-IsValid t (first ∷ rest) v =
    if-Is (λ (r : Press × WifiScreen). IsValid r.1) (has_part no_networks first) (λ e. v)
      (λ e. connect_selected-IsValid t (get_elem? t.networks t.selected_index) v)

-- A screen that scans, is scanned again, gets keys and typed passwords, and has its button pressed.
pub data Reach : WifiScreen → Type 0 where
  begun : (lines : Option (List (List ℕ))) → Reach (new lines)
  scans :
      (t : WifiScreen) (lines : Option (List (List ℕ))) → Reach t → Reach (scan_networks t lines)
  events : (t : WifiScreen) (e : Event) → Reach t → Reach (handle_event t e).1
  types :
      (t : WifiScreen) (password : List ℕ)
      → Reach t
      → Reach (record t { password_input = password })
  presses : (t : WifiScreen) → Reach t → Reach (press_connect t t.networks).1

Reach-IsValid : {t : WifiScreen} → Reach t → IsValid t
unfolding new
Reach-IsValid (begun lines) =
    scan_networks-IsValid (record { networks = []; selected_index = 0; password_input = [] }) lines
Reach-IsValid (scans t lines r) = scan_networks-IsValid t lines
Reach-IsValid (events t e r) = handle_event-IsValid t e (Reach-IsValid r)
Reach-IsValid (types t password r) = Reach-IsValid r
Reach-IsValid (presses t r) = press_connect-IsValid t t.networks (Reach-IsValid r)

connect_selected-inside :
    (t : WifiScreen) (ssid : List ℕ) → (connect_selected t (some ssid)).0 ≢ out_of_bounds
unfolding connect_selected connect_to_network
connect_selected-inside t ssid e = absurd (cc e)

press_connect-inside :
    (t : WifiScreen) (networks : List (List ℕ))
    → t.selected_index < length t.networks
    → (press_connect t networks).0 ≢ out_of_bounds
unfolding press_connect
press_connect-inside t [] h = λ e. absurd (cc e)
press_connect-inside t (first ∷ rest) h =
    if-Is (λ (r : Press × WifiScreen). r.0 ≢ out_of_bounds) (has_part no_networks first)
      (λ n e. absurd (cc e))
      (λ n.
        subst (λ o. (connect_selected t o).0 ≢ out_of_bounds)
          (sym (get_elem?-eq-get_or t.networks t.selected_index [] h))
          (connect_selected-inside t (get_or t.networks t.selected_index [])))

-- Whatever scans, keys, passwords and presses there are, no network is in the list twice, and the button does not
-- read a network out of bounds.
pub Reach-inside :
    {t : WifiScreen}
    → Reach t
    → Distinct t.networks × ((press_connect t t.networks).0 ≢ out_of_bounds)
Reach-inside {t = t} r = let v = Reach-IsValid r in (v.1, press_connect-inside t t.networks v.0)
