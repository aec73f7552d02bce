-- ===== src/Client/Transport.antt =====
-- client/network/client_transport.cpp and its header: datagrams by io_uring of Linux. What a call of the system
-- comes back with is an argument. Mutexes are left out: each function is one holder's turn. Of the destructor
-- nothing is modelled.
pub mod Single
pub mod Polling
mod Tests
use ultra_display_os.Prelude.{
  ℕ, zero, suc, ◌+◌, ◌-◌, ◌%◌, ◌^◌, Bool, true, false, Option, none, some, List, [], ◌∷◌, ◌++◌,
  ◌==◌, leb, if◌then◌else◌, length, take, drop,
}
use ultra_display_os.Shared.Result.{Result, ok, err, network_error, system_error, timeout}

-- With it the state of the transport that the source keeps in a map by its address. `reads` counts the receives
-- in the ring; `buffer` is the first of the registered buffers, which all receives write and the loop reads. Of
-- the system there are `socket`, the datagrams that arrived and that no receive has read, and `completions`,
-- the results that the loop has not seen.
pub record ClientTransport : Type 0 where
  pub running : Bool
  pub reads : ℕ
  pub buffer : List ℕ
  pub socket : List (List ℕ)
  pub completions : List ℕ
  pub queue : List (List ℕ)
  pub span : List ℕ
  pub bytes_sent : ℕ  -- uint64
  pub bytes_received : ℕ  -- uint64

-- `sqe` is whether the ring has a free entry.
pub submit_recv_multishot : ClientTransport → Bool → ClientTransport
submit_recv_multishot t sqe = if sqe then record t { reads = t.reads + 1 } else t

-- `ring` and `registered` are the outcomes of the two calls of the library; `fill` are the bytes that the
-- buffer is resized with.
pub setup_uring : ClientTransport → List ℕ → Bool → Bool → Bool → Bool × ClientTransport
unfolding submit_recv_multishot
setup_uring t fill false registered sqe = (false, t)
setup_uring t fill true false sqe = (false, record t { buffer = fill })
setup_uring t fill true true sqe = (true, submit_recv_multishot (record t { buffer = fill }) sqe)

pub init :
    ClientTransport
    → Bool
    → Bool
    → List ℕ
    → Bool
    → Bool
    → Bool
    → Result (Unit {0}) × ClientTransport
unfolding setup_uring
init t opened bound fill ring registered sqe =
    if opened
    then (if bound
        then (let (set_up, t') = setup_uring t fill ring registered sqe in
            if set_up then (ok tt, record t' { running = true }) else (err system_error, t'))
        else (err network_error, t))
    else (err network_error, t)

pub connect_to : ClientTransport → Bool → Bool → Result (Unit {0})
connect_to t is_address connected =
    if is_address then (if connected then ok tt else err network_error) else err network_error

-- The new bytes, and then what stood behind them.
pub overlay : List ℕ → List ℕ → List ℕ
overlay [] buffer = buffer
overlay (b ∷ bytes) [] = []
overlay (b ∷ bytes) (old ∷ buffer) = b ∷ overlay bytes buffer

-- One of the receives in the ring, if there is one, reads the first datagram of the socket, if there is one. The
-- buffer is written now, and not when the loop sees the result.
pub fill : ClientTransport → ℕ → List (List ℕ) → ClientTransport
unfolding overlay
fill t zero socket = t
fill t (suc reads) [] = t
fill t (suc reads) (bytes ∷ socket) = record t {
  reads = reads;
  socket = socket;
  buffer = overlay bytes t.buffer;
  completions = t.completions ++ (length bytes ∷ []);
}

-- One of the receives fails. 0 stands for the negative results too, which the loop treats alike.
pub fail : ClientTransport → ℕ → ClientTransport
fail t zero = t
fail t (suc reads) = record t { reads = reads; completions = t.completions ++ (0 ∷ []) }

-- The body of the `if` of the loop; `none`: it reads past the end of the buffer.
pub deliver : ClientTransport → ℕ → Option ClientTransport
deliver t zero = some t
deliver t (suc n) =
    if leb (suc n) (length t.buffer)
    then some (record t {
      bytes_received = (t.bytes_received + suc n) % 2 ^ 64;
      queue = t.queue ++ (take (suc n) t.buffer ∷ []);
    })
    else none

-- A round of the loop with the results that are to be seen; without one it only waits. The copy from the buffer is
-- one step.
pub see : ClientTransport → List ℕ → Bool → Option ClientTransport
unfolding deliver submit_recv_multishot
see t [] sqe = some t
see t (res ∷ rest) sqe = elim (deliver t res) [
  | none ↦ none
  | some t' ↦ some (submit_recv_multishot (record t' { completions = rest }) sqe)
]

pub poll : ClientTransport → Bool → Option ClientTransport
unfolding see
poll t sqe = see t t.completions sqe

-- What happens: a datagram arrives at the socket, a receive of the ring reads one or fails, a send completes with a
-- number of bytes or fails, or the loop does a round, where the ring has a free entry or not.
pub data Event : Type 0 where
  arrived : List ℕ → Event
  received : Event
  receive_failed : Event
  sent : ℕ → Event
  send_failed : Event
  polled : Bool → Event

pub happen : ClientTransport → Event → Option ClientTransport
unfolding poll fill fail
happen t (arrived bytes) = some (record t { socket = t.socket ++ (bytes ∷ []) })
happen t received = some (fill t t.reads t.socket)
happen t receive_failed = some (fail t t.reads)
happen t (sent n) = some (record t { completions = t.completions ++ (n ∷ []) })
happen t send_failed = some (record t { completions = t.completions ++ (0 ∷ []) })
happen t (polled sqe) = poll t sqe

pub happens : ClientTransport → List Event → Option ClientTransport
unfolding happen
happens t [] = some t
happens t (e ∷ events) = elim (happen t e) [ none ↦ none | some t' ↦ happens t' events ]

-- The second result is what the ring is given to send.
pub send :
    ClientTransport → List ℕ → ℕ → Bool → Result (Unit {0}) × Option (List ℕ) × ClientTransport
send t payload stream_id sqe =
    if sqe
    then (ok tt, some payload, record t { bytes_sent = (t.bytes_sent + length payload) % 2 ^ 64 })
    else (err system_error, none, t)

-- The end of `receive`: the front of the queue, or the timeout.
pub take_front : ClientTransport → List (List ℕ) → Result (List ℕ) × ClientTransport
take_front t [] = (err timeout, t)
take_front t (front ∷ rest) = (ok front, record t { queue = rest; span = front })

-- `events` happen while the call waits.
pub receive : ClientTransport → ℕ → List Event → Option (Result (List ℕ) × ClientTransport)
unfolding take_front happens
receive t timeout_us events = elim t.queue [
  | [] ↦ if timeout_us == 0 then some (err timeout, t) else elim (happens t events) [
    | none ↦ none
    | some waited ↦ some (take_front waited waited.queue)
  ]
  | front ∷ rest ↦ some (take_front t (front ∷ rest))
]
