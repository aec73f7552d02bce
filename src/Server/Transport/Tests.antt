-- ===== src/Server/Transport/Tests.antt =====
-- A started transport, with small datagrams.
use ultra_display_os.Prelude.{◌≡◌, refl, true, List, [], ◌∷◌, ◌++◌, arith}
use ultra_display_os.Shared.Result.{ok}
use ultra_display_os.Server.Transport.{
  ServerTransport, new, done, pending, failed, post_receive, init, connect_to, read, wrote, worker,
  work, send, take_front, receive,
}
use ultra_display_os.Server.Transport.Fifo.{
  arrival, arrivals, delivered, step, run, Event, completes, sends, receives, run_lem,
}
use ultra_display_os.Server.Transport.Stall
use ultra_display_os.Server.Transport.Stall.{Reach, here, next, empty_datagram_stalls}

abbrev started : ServerTransport
started = record new { opened = true; running = true; reads = 1 }

init_test : (init new true true true pending).1 ≡ started
unfolding init post_receive
init_test = refl

connect_to_test : connect_to started true ≡ ok tt
unfolding connect_to
connect_to_test = refl

abbrev events : List Event
events =
    completes (read (1 ∷ 2 ∷ [])) pending
    ∷ completes (read (3 ∷ [])) pending
    ∷ sends (9 ∷ []) 0 done
    ∷ receives 0 []
    ∷ completes wrote done
    ∷ receives 50 []
    ∷ receives 0 []
    ∷ receives 50 ((read (4 ∷ []), pending) ∷ (read (5 ∷ []), failed) ∷ [])
    ∷ []

run_test : (run started events).0 ≡ (1 ∷ 2 ∷ []) ∷ (3 ∷ []) ∷ (4 ∷ []) ∷ []
unfolding run step delivered receive take_front work worker post_receive send arrival arrivals
run_test = refl

run_lem_example :
    let (out, arrived, t') = run started events in out ++ t'.queue ≡ started.queue ++ arrived
run_lem_example = run_lem started events refl

-- A datagram without bytes, the first that comes.
empty_datagram_stalls_example :
    let t = (init new true true true pending).1 in
    let emptied = worker t (read []) pending in
    let u = (send emptied (7 ∷ []) 0 done).2 in
    (t.reads ≡ 1) × (u.reads ≡ 0) × (u.bytes_received ≡ t.bytes_received)
unfolding init post_receive
empty_datagram_stalls_example =
    empty_datagram_stalls pending pending (init new true true true pending).1
      (send (worker (init new true true true pending).1 (read []) pending) (7 ∷ []) 0 done).2 here
      (omega arith)
      (next here (
        Stall.sends (worker (init new true true true pending).1 (read []) pending) (7 ∷ []) 0 done))
