-- ===== src/Server/Transport.antt =====
-- server/network/server_transport.cpp and its header: datagrams by the completion port of Windows. What a
-- call of the system comes back with is an argument. Mutexes are left out: each function is one holder's
-- turn. Of the destructor nothing is modelled.
pub mod Fifo
pub mod Stall
mod Tests
use ultra_display_os.Prelude.{
  ℕ, zero, suc, ◌+◌, ◌-◌, ◌%◌, ◌^◌, min, Bool, true, false, not, List, [], ◌∷◌, ◌++◌, ◌==◌,
  if◌then◌else◌, length, take,
}
use ultra_display_os.Shared.Result.{Result, ok, err, network_error, system_error, timeout}

-- With it the state of the transport that the source keeps in a map by its address. `reads` and
-- `writes` count the contexts that the system holds.
pub record ServerTransport : Type 0 where
  pub opened : Bool
  pub running : Bool
  pub reads : ℕ
  pub writes : ℕ
  pub queue : List (List ℕ)
  pub span : List ℕ
  pub bytes_sent : ℕ  -- uint64
  pub bytes_received : ℕ  -- uint64

abbrev pub new : ServerTransport
new = record {
  opened = false;
  running = false;
  reads = 0;
  writes = 0;
  queue = [];
  span = [];
  bytes_sent = 0;
  bytes_received = 0;
}

-- sizeof(IoContext::buffer)
abbrev pub mtu : ℕ
mtu = 1500

-- What WSARecv and WSASend come back with. The first two queue a completion.
pub data Io : Type 0 where
  done pending failed : Io

pub post_receive : ServerTransport → Io → ServerTransport
post_receive t done = record t { reads = t.reads + 1 }
post_receive t pending = record t { reads = t.reads + 1 }
post_receive t failed = t

-- The three calls that can fail, in their order, and the first receive.
pub init : ServerTransport → Bool → Bool → Bool → Io → Result (Unit {0}) × ServerTransport
unfolding post_receive
init t false bound port io = (err network_error, record t { opened = false })
init t true false port io = (err network_error, record t { opened = true })
init t true true false io = (err system_error, record t { opened = true })
init t true true true io = (ok tt, post_receive (record t { opened = true; running = true }) io)

pub connect_to : ServerTransport → Bool → Result (Unit {0})
connect_to t connected = if connected then ok tt else err network_error

-- What GetQueuedCompletionStatus comes back with: a failure, with the context of a receive, of a send or
-- none, or a success, likewise. A receive has its bytes.
pub data Completion : Type 0 where
  broken_read broken_write broken : Completion
  read : List ℕ → Completion
  wrote woken : Completion

-- A round of the loop of the worker; `io` is the outcome of the receive that it posts, if it does.
pub worker : ServerTransport → Completion → Io → ServerTransport
unfolding post_receive
worker t broken_read io = if t.running then record t { reads = t.reads - 1 } else t
worker t broken_write io = if t.running then record t { writes = t.writes - 1 } else t
worker t broken io = t
worker t woken io = t
worker t wrote io = if t.running then record t { writes = t.writes - 1 } else t
worker t (read []) io = if t.running then record t { reads = t.reads - 1 } else t
worker t (read (b ∷ bytes)) io =
    if t.running
    then (let counted = record t {
      bytes_received = (t.bytes_received + length (b ∷ bytes)) % 2 ^ 64;
      queue = t.queue ++ ((b ∷ bytes) ∷ []);
    } in
        let posted = post_receive counted io in record posted { reads = posted.reads - 1 })
    else t

pub work : ServerTransport → List (Completion × Io) → ServerTransport
unfolding worker
work t [] = t
work t ((c, io) ∷ rounds) = work (worker t c io) rounds

-- The second result is what the system is given to send.
pub send : ServerTransport → List ℕ → ℕ → Io → Result (Unit {0}) × List ℕ × ServerTransport
send t payload stream_id failed = (err system_error, [], t)
send t payload stream_id io = (
  ok tt,
  take mtu payload,
  record t {
    writes = t.writes + 1;
    bytes_sent = (t.bytes_sent + min (length payload) mtu) % 2 ^ 64;
  },
)

-- The end of `receive`: the front of the queue, or the timeout.
pub take_front : ServerTransport → List (List ℕ) → Result (List ℕ) × ServerTransport
take_front t [] = (err timeout, t)
take_front t (front ∷ rest) = (ok front, record t { queue = rest; span = front })

-- `rounds` are those that the worker does while the call waits.
pub receive : ServerTransport → ℕ → List (Completion × Io) → Result (List ℕ) × ServerTransport
unfolding take_front work
receive t timeout_us rounds = elim t.queue [
  | [] ↦
      if timeout_us == 0
      then (err timeout, t)
      else (let waited = work t rounds in take_front waited waited.queue)
  | front ∷ rest ↦ take_front t (front ∷ rest)
]
