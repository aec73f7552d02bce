-- ===== src/Server/Discovery/Clients.antt =====
-- server/gui/discovery.cpp and its header: the list of the clients found. Times are in microseconds of the steady
-- clock; each reading of it is an argument. The lock, and the sockets of the scan thread, are left out.
pub mod Scan
pub mod Keeping
use ultra_display_os.Prelude.{
  ℕ, ◌+◌, ◌-◌, Bool, true, false, not, ◌&&◌, ◌||◌, Option, none, some, List, [], ◌∷◌, ltb, ◌==◌,
  if◌then◌else◌, length,
}

pub record DiscoveredClient : Type 0 where
  pub name : List ℕ
  pub ip : List ℕ
  pub port : ℕ  -- uint16
  pub fingerprint : List ℕ
  pub last_seen : ℕ

abbrev pub stale_timeout : ℕ
stale_timeout = 10_000_000

-- `==` of two strings.
unfoldable pub same_bytes : List ℕ → List ℕ → Bool
same_bytes [] [] = true
same_bytes [] (y ∷ ys) = false
same_bytes (x ∷ xs) [] = false
same_bytes (x ∷ xs) (y ∷ ys) = (x == y) && same_bytes xs ys

unfoldable pub prune_stale_clients : ℕ → List DiscoveredClient → List DiscoveredClient
prune_stale_clients now [] = []
prune_stale_clients now (c ∷ clients) =
    let rest = prune_stale_clients now clients in
    if ltb stale_timeout (now - c.last_seen) then rest else c ∷ rest

-- What a parsed response does to the list, and whether the callback is called for it.
unfoldable pub heard : List DiscoveredClient → DiscoveredClient → List DiscoveredClient × Bool
unfolding same_bytes
heard [] client = (client ∷ [], true)
heard (c ∷ clients) client =
    let rest = heard clients client in
    if same_bytes c.ip client.ip
    then (if not (same_bytes c.name client.name) || not (c.port == client.port)
        then (
          record c {
            last_seen = client.last_seen;
            name = client.name;
            port = client.port;
            fingerprint = client.fingerprint;
          }
              ∷ clients,
          true,
        )
        else (record c { last_seen = client.last_seen } ∷ clients, false))
    else (c ∷ rest.0, rest.1)

-- A round of the scan: the response that was parsed, if any, at one time, and the pruning at a later one.
-- The second result is how often the callback is called.
unfoldable pub scan_round :
    List DiscoveredClient → Option DiscoveredClient → ℕ → List DiscoveredClient × ℕ
unfolding heard prune_stale_clients
scan_round clients response now =
    let after : List DiscoveredClient × Bool = elim response [
      | none ↦ (clients, false)
      | some client ↦ heard clients client
    ] in
    let kept = prune_stale_clients now after.0 in
    let pruned : ℕ = if length kept == length after.0 then 0 else 1 in
    (kept, if after.1 then 1 + pruned else pruned)
