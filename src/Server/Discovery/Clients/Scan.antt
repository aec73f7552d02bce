-- ===== src/Server/Discovery/Clients/Scan.antt =====
-- What the list of clients holds over a scan.
use ultra_display_os.Prelude.{
  ℕ, ◌-◌, ◌≤◌, ◌≡◌, false, not, ◌||◌, Option, none, some, List, [], ◌∷◌, arith, ltb, ◌==◌,
  Bool-cases, inl, inr,
}
use ultra_display_os.Server.Discovery.Clients.{
  DiscoveredClient, stale_timeout, same_bytes, prune_stale_clients, heard, scan_round,
}

-- No client of the list has the address.
abbrev pub Absent : List ℕ → List DiscoveredClient → Type 0
Absent ip [] = Unit {0}
Absent ip (c ∷ clients) = (same_bytes ip c.ip ≡ false) × Absent ip clients

-- No two clients have the same address.
abbrev pub Distinct : List DiscoveredClient → Type 0
Distinct [] = Unit {0}
Distinct (c ∷ clients) = Absent c.ip clients × Distinct clients

-- Each client was seen lately.
abbrev pub AllFresh : ℕ → List DiscoveredClient → Type 0
AllFresh now [] = Unit {0}
AllFresh now (c ∷ clients) = (now - c.last_seen ≤ stale_timeout) × AllFresh now clients

prune-Absent :
    (now : ℕ) (ip : List ℕ) (clients : List DiscoveredClient)
    → Absent ip clients
    → Absent ip (prune_stale_clients now clients)
unfolding prune_stale_clients
prune-Absent now ip [] h = tt
prune-Absent now ip (c ∷ clients) h = elim (Bool-cases (ltb stale_timeout (now - c.last_seen))) [
  | inl e ↦ rw e (prune-Absent now ip clients h.1)
  | inr e ↦ rw e (h.0, prune-Absent now ip clients h.1)
]

prune-Distinct :
    (now : ℕ) (clients : List DiscoveredClient)
    → Distinct clients
    → Distinct (prune_stale_clients now clients)
unfolding prune_stale_clients
prune-Distinct now [] h = tt
prune-Distinct now (c ∷ clients) h = elim (Bool-cases (ltb stale_timeout (now - c.last_seen))) [
  | inl e ↦ rw e (prune-Distinct now clients h.1)
  | inr e ↦ rw e (prune-Absent now c.ip clients h.0, prune-Distinct now clients h.1)
]

prune-AllFresh :
    (now : ℕ) (clients : List DiscoveredClient) → AllFresh now (prune_stale_clients now clients)
unfolding prune_stale_clients
prune-AllFresh now [] = tt
prune-AllFresh now (c ∷ clients) = elim (Bool-cases (ltb stale_timeout (now - c.last_seen))) [
  | inl e ↦ rw e (prune-AllFresh now clients)
  | inr e ↦ rw e (ground arith, prune-AllFresh now clients)
]

heard-Absent :
    (ip : List ℕ) (clients : List DiscoveredClient) (client : DiscoveredClient)
    → same_bytes ip client.ip ≡ false
    → Absent ip clients
    → Absent ip (heard clients client).0
unfolding heard
heard-Absent ip [] client e h = (e, tt)
heard-Absent ip (c ∷ clients) client e h = elim (Bool-cases (same_bytes c.ip client.ip)) [
  | inl s ↦ elim (Bool-cases (not (same_bytes c.name client.name) || not (c.port == client.port))) [
    | inl d ↦ rw (s, d, heard) h
    | inr d ↦ rw (s, d, heard) h
  ]
  | inr s ↦ rw (s, heard) (h.0, heard-Absent ip clients client e h.1)
]

heard-Distinct :
    (clients : List DiscoveredClient) (client : DiscoveredClient)
    → Distinct clients
    → Distinct (heard clients client).0
unfolding heard
heard-Distinct [] client h = (tt, tt)
heard-Distinct (c ∷ clients) client h = elim (Bool-cases (same_bytes c.ip client.ip)) [
  | inl s ↦ elim (Bool-cases (not (same_bytes c.name client.name) || not (c.port == client.port))) [
    | inl d ↦ rw (s, d, heard) h
    | inr d ↦ rw (s, d, heard) h
  ]
  | inr s ↦
      rw (s, heard) (heard-Absent c.ip clients client s h.0, heard-Distinct clients client h.1)
]

round-Distinct :
    (clients : List DiscoveredClient) (response : Option DiscoveredClient) (now : ℕ)
    → Distinct clients
    → Distinct (scan_round clients response now).0
unfolding scan_round
round-Distinct clients none now h = prune-Distinct now clients h
round-Distinct clients (some client) now h =
    prune-Distinct now (heard clients client).0 (heard-Distinct clients client h)

-- The list after a scan of some rounds.
unfoldable pub scan :
    List DiscoveredClient → List (Option DiscoveredClient × ℕ) → List DiscoveredClient
scan clients [] = clients
scan clients ((response, now) ∷ rounds) = scan (scan_round clients response now).0 rounds

scan-Distinct :
    (clients : List DiscoveredClient) (rounds : List (Option DiscoveredClient × ℕ))
    → Distinct clients
    → Distinct (scan clients rounds)
unfolding scan
scan-Distinct clients [] h = h
scan-Distinct clients ((response, now) ∷ rounds) h =
    scan-Distinct (scan_round clients response now).0 rounds (round-Distinct clients response now h)

round-AllFresh :
    (clients : List DiscoveredClient) (response : Option DiscoveredClient) (now : ℕ)
    → AllFresh now (scan_round clients response now).0
unfolding scan_round
round-AllFresh clients none now = prune-AllFresh now clients
round-AllFresh clients (some client) now = prune-AllFresh now (heard clients client).0

-- After any rounds of a scan, and one more, no two clients of the list have the same address, and each was seen
-- within the ten seconds before the end of the last round.
pub scan_lem :
    (rounds : List (Option DiscoveredClient × ℕ)) (response : Option DiscoveredClient) (now : ℕ)
    → let clients = (scan_round (scan [] rounds) response now).0 in
      Distinct clients × AllFresh now clients
scan_lem rounds response now = (
  round-Distinct (scan [] rounds) response now (scan-Distinct [] rounds tt),
  round-AllFresh (scan [] rounds) response now,
)
