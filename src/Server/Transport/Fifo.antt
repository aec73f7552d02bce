-- ===== src/Server/Transport/Fifo.antt =====
-- Datagrams are delivered in the order of their arrival, each once.
use ultra_display_os.Prelude.{
  ℕ, ◌≡◌, refl, sym, ap, ◌∙◌, true, List, [], ◌∷◌, ◌++◌, append-nil, append_assoc, ◌==◌, Bool-cases,
  inl, inr, if◌then◌else◌,
}
use ultra_display_os.Shared.Result.{Result, ok, err}
use ultra_display_os.Server.Transport.{
  ServerTransport, Io, done, pending, failed, post_receive, Completion, broken_read, broken_write,
  broken, wrote, woken, read, worker, work, send, take_front, receive,
}

-- The datagram of a completion. One without bytes is none.
unfoldable pub arrival : Completion → List (List ℕ)
arrival (read (b ∷ bytes)) = (b ∷ bytes) ∷ []
arrival c = []

unfoldable pub arrivals : List (Completion × Io) → List (List ℕ)
unfolding arrival
arrivals [] = []
arrivals ((c, io) ∷ rounds) = arrival c ++ arrivals rounds

-- What the worker does with a completion, as far as a receiver can see.
worker_lem :
    (t : ServerTransport) (c : Completion) (io : Io)
    → t.running ≡ true
    → ((worker t c io).running ≡ true) × ((worker t c io).queue ≡ t.queue ++ arrival c)
unfolding worker post_receive arrival
worker_lem t broken_read io h = rw (h, append-nil) (refl, refl)
worker_lem t broken_write io h = rw (h, append-nil) (refl, refl)
worker_lem t broken io h = rw append-nil (h, refl)
worker_lem t woken io h = rw append-nil (h, refl)
worker_lem t wrote io h = rw (h, append-nil) (refl, refl)
worker_lem t (read []) io h = rw (h, append-nil) (refl, refl)
worker_lem t (read (b ∷ bytes)) done h = rw h (refl, refl)
worker_lem t (read (b ∷ bytes)) pending h = rw h (refl, refl)
worker_lem t (read (b ∷ bytes)) failed h = rw h (refl, refl)

work_lem :
    (t : ServerTransport) (rounds : List (Completion × Io))
    → t.running ≡ true
    → ((work t rounds).running ≡ true) × ((work t rounds).queue ≡ t.queue ++ arrivals rounds)
unfolding work arrivals
work_lem t [] h = rw append-nil (h, refl)
work_lem t ((c, io) ∷ rounds) h =
    let (running, queue) = worker_lem t c io h in
    let (running', queue') = work_lem (worker t c io) rounds running in
    (
      running',
      queue'
          ∙ ap (λ q. q ++ arrivals rounds) queue
          ∙ append_assoc t.queue (arrival c) (arrivals rounds),
    )

-- A turn of the worker, a call of `send`, or a call of `receive`.
pub data Event : Type 0 where
  completes : Completion → Io → Event
  sends : List ℕ → ℕ → Io → Event
  receives : ℕ → List (Completion × Io) → Event

unfoldable pub delivered : Result (List ℕ) → List (List ℕ)
delivered (ok datagram) = datagram ∷ []
delivered (err e) = []

-- The datagrams that an event delivers to its caller, those that arrive with it, and the state after it.
unfoldable pub step : ServerTransport → Event → List (List ℕ) × List (List ℕ) × ServerTransport
unfolding delivered
step t (completes c io) = ([], arrival c, worker t c io)
step t (sends payload stream_id io) = ([], [], (send t payload stream_id io).2)
step t (receives timeout_us rounds) =
    let (res, t') = receive t timeout_us rounds in
    (
      delivered res,
      elim t.queue [ [] ↦ if timeout_us == 0 then [] else arrivals rounds | front ∷ rest ↦ [] ],
      t',
    )

unfoldable pub run : ServerTransport → List Event → List (List ℕ) × List (List ℕ) × ServerTransport
unfolding step
run t [] = ([], [], t)
run t (e ∷ events) =
    let (out, arrived, t') = step t e in
    let (outs, arriveds, last) = run t' events in (out ++ outs, arrived ++ arriveds, last)

-- An event keeps the order: what it delivers, and then the queue, is the old queue and what arrived.
abbrev InOrder : ServerTransport → List (List ℕ) × List (List ℕ) × ServerTransport → Type 0
InOrder t (out, arrived, t') = (t'.running ≡ true) × (out ++ t'.queue ≡ t.queue ++ arrived)

take_front_lem :
    (t : ServerTransport) (queue : List (List ℕ))
    → t.running ≡ true
    → t.queue ≡ queue
    → ((take_front t queue).1.running ≡ true)
      × (delivered (take_front t queue).0 ++ (take_front t queue).1.queue ≡ queue)
unfolding take_front delivered
take_front_lem t [] h e = (h, e)
take_front_lem t (front ∷ rest) h e = (h, refl)

step_lem : (t : ServerTransport) (e : Event) → t.running ≡ true → InOrder t (step t e)
unfolding step send receive
step_lem t (completes c io) h = worker_lem t c io h
step_lem t (sends payload stream_id done) h = (h, sym (append-nil t.queue))
step_lem t (sends payload stream_id pending) h = (h, sym (append-nil t.queue))
step_lem t (sends payload stream_id failed) h = (h, sym (append-nil t.queue))
step_lem t (receives timeout_us rounds) h = go t.queue refl
  where
    go : (queue : List (List ℕ)) → t.queue ≡ queue → InOrder t (step t (receives timeout_us rounds))
    go (front ∷ rest) e = rw (e, step, receive, take_front) (h, sym (append-nil (front ∷ rest)))
    go [] e = elim (Bool-cases (timeout_us == 0)) [
      | inl c ↦ rw (e, c, step, receive) (h, e)
      | inr c ↦
          let (running, queue) = work_lem t rounds h in
          let (running', front) =
            take_front_lem (work t rounds) (work t rounds).queue running refl in
          rw (e, c, step, receive) (running', front ∙ queue ∙ ap (λ q. q ++ arrivals rounds) e)
    ]

-- A transport that runs delivers the datagrams that arrive in the order of their arrival, each once, whatever
-- the completions, sends, waits and timeouts between: what was delivered, and then what still stands in the
-- queue, is what stood there and what arrived.
pub run_lem :
    (t : ServerTransport) (events : List Event)
    → t.running ≡ true
    → let (out, arrived, t') = run t events in out ++ t'.queue ≡ t.queue ++ arrived
unfolding run
run_lem t [] h = sym (append-nil t.queue)
run_lem t (e ∷ events) h =
    let (out, arrived, t') = step t e in
    let (outs, arriveds, last) = run t' events in
    let (running, order) = step_lem t e h in
    append_assoc out outs last.queue
    ∙ ap (λ q. out ++ q) (run_lem t' events running)
    ∙ sym (append_assoc out t'.queue arriveds)
    ∙ ap (λ q. q ++ arriveds) order
    ∙ append_assoc t.queue arrived arriveds
