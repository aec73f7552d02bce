-- ===== src/Server/Transport/Stall.antt =====
-- How many receives the system holds, over all that may happen to a transport.
use ultra_display_os.Prelude.{ℕ, ◌-◌, ◌≤◌, ◌<◌, ◌≡◌, refl, ◌∙◌, true, List, [], ◌∷◌, arith}
use ultra_display_os.Server.Transport.{
  ServerTransport, new, Io, done, pending, failed, post_receive, init, Completion, broken_read,
  broken_write, broken, wrote, woken, read, worker, send, take_front,
}

-- The system completes only what it holds.
abbrev pub Enabled : ServerTransport → Completion → Type 0
Enabled t broken_read = 0 < t.reads
Enabled t (read bytes) = 0 < t.reads
Enabled t broken_write = 0 < t.writes
Enabled t wrote = 0 < t.writes
Enabled t broken = Unit {0}
Enabled t woken = Unit {0}

-- A turn of the worker, a call of `send`, or the end of a call of `receive`.
pub data Step : ServerTransport → ServerTransport → Type 0 where
  completes :
      (t : ServerTransport) (c : Completion) (io : Io) → Enabled t c → Step t (worker t c io)
  sends :
      (t : ServerTransport) (payload : List ℕ) (stream_id : ℕ) (io : Io)
      → Step t (send t payload stream_id io).2
  receives : (t : ServerTransport) → Step t (take_front t t.queue).1

pub data Reach (s : ServerTransport) : ServerTransport → Type 0 where
  here : Reach s s
  next : {t u : ServerTransport} → Reach s t → Step t u → Reach s u

reads-worker :
    (t : ServerTransport) (c : Completion) (io : Io) → Enabled t c → (worker t c io).reads ≤ t.reads
unfolding worker post_receive
reads-worker t broken_read io h = ground arith
reads-worker t broken_write io h = ground arith
reads-worker t broken io h = omega arith
reads-worker t woken io h = omega arith
reads-worker t wrote io h = ground arith
reads-worker t (read []) io h = ground arith
reads-worker t (read (b ∷ bytes)) done h = ground arith
reads-worker t (read (b ∷ bytes)) pending h = ground arith
reads-worker t (read (b ∷ bytes)) failed h = ground arith

take_front_same :
    (t : ServerTransport) (queue : List (List ℕ))
    → ((take_front t queue).1.reads ≡ t.reads)
      × ((take_front t queue).1.bytes_received ≡ t.bytes_received)
unfolding take_front
take_front_same t [] = (refl, refl)
take_front_same t (front ∷ rest) = (refl, refl)

send_same :
    (t : ServerTransport) (payload : List ℕ) (stream_id : ℕ) (io : Io)
    → ((send t payload stream_id io).2.reads ≡ t.reads)
      × ((send t payload stream_id io).2.bytes_received ≡ t.bytes_received)
unfolding send
send_same t payload stream_id done = (refl, refl)
send_same t payload stream_id pending = (refl, refl)
send_same t payload stream_id failed = (refl, refl)

reads-Step : {t u : ServerTransport} → Step t u → u.reads ≤ t.reads
reads-Step (completes t c io h) = reads-worker t c io h
reads-Step (sends t payload stream_id io) = omega (arith, (send_same t payload stream_id io).0)
reads-Step (receives t) = omega (arith, (take_front_same t t.queue).0)

reads-Reach : {s t : ServerTransport} → Reach s t → t.reads ≤ s.reads
reads-Reach here = omega arith
reads-Reach (next r st) = omega (arith, reads-Reach r, reads-Step st)

received-worker :
    (t : ServerTransport) (c : Completion) (io : Io)
    → t.reads ≡ 0
    → Enabled t c
    → (worker t c io).bytes_received ≡ t.bytes_received
unfolding worker
received-worker t (read bytes) io h e = absurd (omega arith)
received-worker t broken_read io h e = absurd (omega arith)
received-worker t broken_write io h e = ground arith
received-worker t broken io h e = refl
received-worker t woken io h e = refl
received-worker t wrote io h e = ground arith

received-Step :
    {t u : ServerTransport} → Step t u → t.reads ≡ 0 → u.bytes_received ≡ t.bytes_received
received-Step (completes t c io e) h = received-worker t c io h e
received-Step (sends t payload stream_id io) h = (send_same t payload stream_id io).1
received-Step (receives t) h = (take_front_same t t.queue).1

-- Once the system holds no receive, nothing is received any more.
pub Reach-stalled :
    {s t : ServerTransport}
    → Reach s t
    → s.reads ≡ 0
    → (t.reads ≡ 0) × (t.bytes_received ≡ s.bytes_received)
Reach-stalled here h = (h, refl)
Reach-stalled (next r st) h =
    let (none_left, same) = Reach-stalled r h in
    (omega (arith, reads-Step st), received-Step st none_left ∙ same)

reads-init : (io : Io) → (init new true true true io).1.reads ≤ 1
unfolding init post_receive
reads-init done = omega arith
reads-init pending = omega arith
reads-init failed = omega arith

running-worker :
    (t : ServerTransport) (c : Completion) (io : Io) → (worker t c io).running ≡ t.running
unfolding worker post_receive
running-worker t broken_read io = ground arith
running-worker t broken_write io = ground arith
running-worker t broken io = refl
running-worker t woken io = refl
running-worker t wrote io = ground arith
running-worker t (read []) io = ground arith
running-worker t (read (b ∷ bytes)) done = ground arith
running-worker t (read (b ∷ bytes)) pending = ground arith
running-worker t (read (b ∷ bytes)) failed = ground arith

running-take_front :
    (t : ServerTransport) (queue : List (List ℕ)) → (take_front t queue).1.running ≡ t.running
unfolding take_front
running-take_front t [] = refl
running-take_front t (front ∷ rest) = refl

running-send :
    (t : ServerTransport) (payload : List ℕ) (stream_id : ℕ) (io : Io)
    → (send t payload stream_id io).2.running ≡ t.running
unfolding send
running-send t payload stream_id done = refl
running-send t payload stream_id pending = refl
running-send t payload stream_id failed = refl

running-Step : {t u : ServerTransport} → Step t u → u.running ≡ t.running
running-Step (completes t c io h) = running-worker t c io
running-Step (sends t payload stream_id io) = running-send t payload stream_id io
running-Step (receives t) = running-take_front t t.queue

running-Reach : {s t : ServerTransport} → Reach s t → t.running ≡ s.running
running-Reach here = refl
running-Reach (next r st) = running-Step st ∙ running-Reach r

running-init : (io : Io) → (init new true true true io).1.running ≡ true
unfolding init post_receive
running-init done = refl
running-init pending = refl
running-init failed = refl

empty_datagram :
    (t : ServerTransport) (io : Io)
    → t.running ≡ true
    → ((worker t (read []) io).reads ≡ t.reads - 1)
      × ((worker t (read []) io).bytes_received ≡ t.bytes_received)
unfolding worker
empty_datagram t io h = rw h (refl, refl)

-- A transport that was started holds at most one receive at any time. When a datagram without bytes completes it,
-- no receive is posted again: nothing is received ever after, whatever completes, is sent or is waited for.
pub empty_datagram_stalls :
    (io io' : Io) (t u : ServerTransport)
    → Reach (init new true true true io).1 t
    → Enabled t (read [])
    → Reach (worker t (read []) io') u
    → (t.reads ≡ 1) × (u.reads ≡ 0) × (u.bytes_received ≡ t.bytes_received)
empty_datagram_stalls io io' t u before e after =
    let most : t.reads ≤ 1 = omega (arith, reads-Reach before, reads-init io) in
    let (fewer, same) = empty_datagram t io' (running-Reach before ∙ running-init io) in
    let (none_left, kept) = Reach-stalled after (omega arith) in
    (omega arith, none_left, kept ∙ same)
