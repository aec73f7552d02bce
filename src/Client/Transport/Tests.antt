-- ===== src/Client/Transport/Tests.antt =====
-- A transport with a buffer of four bytes.
use ultra_display_os.Prelude.{ℕ, List, ◌+◌, ◌≡◌, refl, true, false, some, [], ◌∷◌, ◌++◌, arith}
use ultra_display_os.Shared.Result.{ok, err, network_error}
use ultra_display_os.Client.Transport.{
  ClientTransport, submit_recv_multishot, setup_uring, init, connect_to, deliver, see, poll, Event,
  arrived, received, receive_failed, sent, polled, happen, happens, send, take_front, receive,
}
use ultra_display_os.Client.Transport.Single.{Single, kept, all_kept, arrivals}
use ultra_display_os.Client.Transport.Polling.{happens_lem, polls_duplicate, polls_overwritten}

abbrev closed : ClientTransport
closed = record {
  running = false;
  reads = 0;
  buffer = [];
  socket = [];
  completions = [];
  queue = [];
  span = [];
  bytes_sent = 0;
  bytes_received = 0;
}

abbrev started : ClientTransport
started = record closed { running = true; reads = 1; buffer = 0 ∷ 0 ∷ 0 ∷ 0 ∷ [] }

init_test : init closed true true (0 ∷ 0 ∷ 0 ∷ 0 ∷ []) true true true ≡ (ok tt, started)
unfolding init setup_uring submit_recv_multishot
init_test = refl

connect_to_test : connect_to started false true ≡ err network_error
unfolding connect_to
connect_to_test = refl

send_test : (send started (1 ∷ 2 ∷ []) 0 true).2.bytes_sent ≡ 2
unfolding send
send_test = refl

-- A send that completes before anything was received delivers the zeros of the buffer.
receive_test :
    receive started 50 (sent 2 ∷ polled true ∷ [])
    ≡ some (ok (0 ∷ 0 ∷ []), record started { reads = 2; span = 0 ∷ 0 ∷ []; bytes_received = 2 })
unfolding receive take_front happens happen poll see deliver submit_recv_multishot
receive_test = refl

-- Two datagrams arrive before the loop sees the first; a receive fails in between.
abbrev events : List Event
events =
    arrived (7 ∷ 8 ∷ [])
    ∷ received
    ∷ arrived (9 ∷ [])
    ∷ received
    ∷ polled true
    ∷ receive_failed
    ∷ polled true
    ∷ received
    ∷ []

happens_lem_example :
    (t' : ClientTransport) × (left : List ℕ) × (happens started events ≡ some t')
    × Single t' left
    × (t'.queue ++ (kept left ++ all_kept t'.socket) ≡ [] ++ all_kept (arrivals events))
happens_lem_example =
    happens_lem started events refl refl refl (omega arith, (omega arith, (refl, (refl, tt))))

abbrev arrived_two : ClientTransport
arrived_two = record started { reads = 2; socket = (7 ∷ 8 ∷ []) ∷ (9 ∷ 10 ∷ []) ∷ [] }

polls_duplicate_example :
    (t' : ClientTransport) × (happens arrived_two
        (received ∷ polled true ∷ sent 2 ∷ polled true ∷ [])
      ≡ some t')
    × (t'.queue ≡ [] ++ ((7 ∷ 8 ∷ []) ∷ (7 ∷ 8 ∷ []) ∷ []))
    × (t'.reads ≡ 2 + 1)
polls_duplicate_example =
    polls_duplicate arrived_two 1 7 (8 ∷ []) ((9 ∷ 10 ∷ []) ∷ []) refl refl refl (omega arith)

polls_overwritten_test :
    (t' : ClientTransport) × (happens arrived_two
        (received ∷ received ∷ polled true ∷ polled true ∷ [])
      ≡ some t')
    × (t'.queue ≡ [] ++ ((9 ∷ 10 ∷ []) ∷ (9 ∷ 10 ∷ []) ∷ []))
    × (t'.socket ≡ [])
polls_overwritten_test =
    polls_overwritten arrived_two 0 7 9 (8 ∷ []) (10 ∷ []) [] refl refl refl refl (omega arith)
