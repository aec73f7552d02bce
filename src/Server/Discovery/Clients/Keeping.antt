-- ===== src/Server/Discovery/Clients/Keeping.antt =====
-- That the list of clients keeps those that were heard lately.
use ultra_display_os.Prelude.{
  ℕ, ◌-◌, ◌≤◌, ◌≡◌, ◌⊎◌, refl, true, false, not, ◌||◌, Option, none, some, List, [], ◌∷◌, arith,
  ltb, ◌==◌, Bool-cases, inl, inr,
}
use ultra_display_os.Server.Discovery.Clients.{
  DiscoveredClient, stale_timeout, same_bytes, prune_stale_clients, heard, scan_round,
}
use ultra_display_os.Server.Discovery.Clients.Scan.{scan}

-- A client of the list has the address, and was seen at the time or later.
abbrev pub Seen : List ℕ → ℕ → List DiscoveredClient → Type 0
Seen ip time [] = ⊥
Seen ip time (c ∷ clients) =
    ((same_bytes c.ip ip ≡ true) × (time ≤ c.last_seen)) ⊎ Seen ip time clients

-- The rounds come after the time and end within ten seconds of it.
abbrev pub Within : ℕ → List (Option DiscoveredClient × ℕ) → Type 0
Within time [] = Unit {0}
Within time ((none, now) ∷ rounds) = (now - time ≤ stale_timeout) × Within time rounds
Within time ((some client, now) ∷ rounds) =
    (time ≤ client.last_seen) × (now - time ≤ stale_timeout) × Within time rounds

same_bytes_refl : (xs : List ℕ) → same_bytes xs xs ≡ true
unfolding same_bytes
same_bytes_refl [] = refl
same_bytes_refl (x ∷ xs) = ground (arith, same_bytes_refl xs)

heard-Seen :
    (clients : List DiscoveredClient) (client : DiscoveredClient)
    → Seen client.ip client.last_seen (heard clients client).0
unfolding heard
heard-Seen [] client = inl (same_bytes_refl client.ip, omega arith)
heard-Seen (c ∷ clients) client = elim (Bool-cases (same_bytes c.ip client.ip)) [
  | inl s ↦ elim (Bool-cases (not (same_bytes c.name client.name) || not (c.port == client.port))) [
    | inl d ↦ rw (s, d, heard) (inl (s, omega arith))
    | inr d ↦ rw (s, d, heard) (inl (s, omega arith))
  ]
  | inr s ↦ rw (s, heard) (inr (heard-Seen clients client))
]

-- The other clients are kept, and those that are heard again are seen later.
heard-keeps :
    (ip : List ℕ) (time : ℕ) (clients : List DiscoveredClient) (client : DiscoveredClient)
    → time ≤ client.last_seen
    → Seen ip time clients
    → Seen ip time (heard clients client).0
unfolding heard
heard-keeps ip time [] client l h = absurd h
heard-keeps ip time (c ∷ clients) client l (inl (same, seen)) =
    elim (Bool-cases (same_bytes c.ip client.ip)) [
      | inl s ↦
          elim (Bool-cases (not (same_bytes c.name client.name) || not (c.port == client.port))) [
            | inl d ↦ rw (s, d, heard) (inl (same, l))
            | inr d ↦ rw (s, d, heard) (inl (same, l))
          ]
      | inr s ↦ rw (s, heard) (inl (same, seen))
    ]
heard-keeps ip time (c ∷ clients) client l (inr h) = elim (Bool-cases (same_bytes c.ip client.ip)) [
  | inl s ↦ elim (Bool-cases (not (same_bytes c.name client.name) || not (c.port == client.port))) [
    | inl d ↦ rw (s, d, heard) (inr h)
    | inr d ↦ rw (s, d, heard) (inr h)
  ]
  | inr s ↦ rw (s, heard) (inr (heard-keeps ip time clients client l h))
]

prune-Seen :
    (now time : ℕ) (ip : List ℕ) (clients : List DiscoveredClient)
    → now - time ≤ stale_timeout
    → Seen ip time clients
    → Seen ip time (prune_stale_clients now clients)
unfolding prune_stale_clients
prune-Seen now time ip [] f h = h
prune-Seen now time ip (c ∷ clients) f (inl (same, seen)) =
    let kept : ltb stale_timeout (now - c.last_seen) ≡ false = ground arith in
    rw kept (inl (same, seen))
prune-Seen now time ip (c ∷ clients) f (inr h) =
    elim (Bool-cases (ltb stale_timeout (now - c.last_seen))) [
      | inl e ↦ rw e (prune-Seen now time ip clients f h)
      | inr e ↦ rw e (inr (prune-Seen now time ip clients f h))
    ]

scan-keeps :
    (ip : List ℕ) (time : ℕ) (clients : List DiscoveredClient)
    (rounds : List (Option DiscoveredClient × ℕ))
    → Within time rounds
    → Seen ip time clients
    → Seen ip time (scan clients rounds)
unfolding scan scan_round
scan-keeps ip time clients [] w h = h
scan-keeps ip time clients ((none, now) ∷ rounds) (f, w) h =
    scan-keeps ip time (scan_round clients none now).0 rounds w (prune-Seen now time ip clients f h)
scan-keeps ip time clients ((some client, now) ∷ rounds) (l, f, w) h =
    scan-keeps ip time (scan_round clients (some client) now).0 rounds w
      (prune-Seen now time ip (heard clients client).0 f (heard-keeps ip time clients client l h))

-- A client whose response is heard in a round is in the list after this round and after any that follow it and end
-- within ten seconds of the response, whatever they hear: under its address, and seen when it was heard or later.
pub scan-Seen :
    (clients : List DiscoveredClient) (client : DiscoveredClient) (now : ℕ)
    (rounds : List (Option DiscoveredClient × ℕ))
    → now - client.last_seen ≤ stale_timeout
    → Within client.last_seen rounds
    → Seen client.ip client.last_seen (scan clients ((some client, now) ∷ rounds))
unfolding scan scan_round
scan-Seen clients client now rounds f w =
    scan-keeps client.ip client.last_seen (scan_round clients (some client) now).0 rounds w (
      prune-Seen now client.last_seen client.ip (heard clients client).0 f
        (heard-Seen clients client))
