-- ===== src/Client/Transport/Polling.antt =====
-- What the polling loop makes of the completions of receives and of sends.
use ultra_display_os.Prelude.{
  ℕ, suc, ◌+◌, ◌≤◌, ◌≡◌, refl, sym, ap, ap₂, ◌%◌, ◌^◌, ◌∙◌, true, some, List, [], ◌∷◌, ◌++◌, arith,
  length, append-nil, append_assoc, take, le→leb, Option, none,
}
use ultra_display_os.Client.Transport.{
  ClientTransport, submit_recv_multishot, fill, deliver, see, poll, Event, arrived, received,
  receive_failed, sent, send_failed, polled, happen, happens,
}
use ultra_display_os.Client.Transport.Single.{
  NoSends, kept, all_kept, arrivals, Single, waiting, AllFit, pipeline, Steps, arrived-Step,
  fill-Step, fail-Step, see-Steps, length-overlay, take-overlay,
}

-- The events lead to a state, with `new` behind all that was received before.
abbrev Outcome : ClientTransport → List ℕ → List Event → List (List ℕ) → Type 0
Outcome t bytes events new =
    (t' : ClientTransport) × (left : List ℕ) × (happens t events ≡ some t')
    × Single t' left
    × (pipeline t' left ≡ pipeline t bytes ++ new)

next :
    (t : ClientTransport) (bytes : List ℕ) (e : Event) (events : List Event)
    (new rest : List (List ℕ)) (o : Option ClientTransport)
    → happen t e ≡ o
    → Steps t bytes new o
    → ((t' : ClientTransport) (left : List ℕ)
        → Single t' left
        → AllFit (length t'.buffer) t'.socket
        → length t'.buffer ≡ length t.buffer
        → Outcome t' left events rest)
    → Outcome t bytes (e ∷ events) (new ++ rest)
unfolding happens
next t bytes e events new rest none h s k = absurd s
next t bytes e events new rest (some t') h s k =
    let (last, left, e', single, flow) = k t' s.left s.single (rw s.size s.fits) s.size in
    (
      last,
      left,
      rw (h, happens) e',
      single,
      flow ∙ ap (λ xs. xs ++ rest) s.flow ∙ append_assoc (pipeline t bytes) new rest,
    )

happens-Outcome :
    (t : ClientTransport) (bytes : List ℕ) (events : List Event)
    → Single t bytes
    → AllFit (length t.buffer) t.socket
    → NoSends (length t.buffer) events
    → Outcome t bytes events (all_kept (arrivals events))
unfolding arrivals all_kept happen poll
happens-Outcome t bytes [] s f h =
    (t, bytes, unfold happens in refl, s, sym (append-nil (pipeline t bytes)))
happens-Outcome t bytes (sent n ∷ events) s f h = absurd h
happens-Outcome t bytes (send_failed ∷ events) s f h = absurd h
happens-Outcome t bytes (arrived new ∷ events) s f h =
    next t bytes (arrived new) events (kept new) (all_kept (arrivals events)) (some _) refl
      (arrived-Step t bytes new s f h.0)
      (λ t' left s' f' size. happens-Outcome t' left events s' f' (rw size h.1))
happens-Outcome t bytes (received ∷ events) s f h =
    next t bytes received events [] (all_kept (arrivals events)) (some _) refl
      (fill-Step t bytes t.reads t.socket refl refl s f)
      (λ t' left s' f' size. happens-Outcome t' left events s' f' (rw size h))
happens-Outcome t bytes (receive_failed ∷ events) s f h =
    next t bytes receive_failed events [] (all_kept (arrivals events)) (some _) refl
      (fail-Step t bytes t.reads refl s f)
      (λ t' left s' f' size. happens-Outcome t' left events s' f' (rw size h))
happens-Outcome t bytes (polled sqe ∷ events) s f h =
    next t bytes (polled sqe) events [] (all_kept (arrivals events)) _
      (ap (λ b. see t t.completions b) h.0) (see-Steps t bytes t.completions refl s f)
      (λ t' left s' f' size. happens-Outcome t' left events s' f' (rw size h.1))

-- With one receive in the ring, and as long as nothing is sent, whatever the order of arrivals, completions, failures
-- and rounds of the loop: the loop reads nothing outside the buffer; one receive is in the ring, or its completion
-- is to be seen with its bytes in the buffer; and the queue, the datagram in the buffer and the socket hold
-- together all datagrams that arrived, but for the empty ones, in their order and each once. The datagrams
-- fit the buffer, and the ring has room.
pub happens_lem :
    (t : ClientTransport) (events : List Event)
    → t.reads ≡ 1
    → t.completions ≡ []
    → t.socket ≡ []
    → NoSends (length t.buffer) events
    → (t' : ClientTransport) × (left : List ℕ) × (happens t events ≡ some t')
      × Single t' left
      × (t'.queue ++ (kept left ++ all_kept t'.socket) ≡ t.queue ++ all_kept (arrivals events))
unfolding all_kept
happens_lem t events r c e h =
    let (t', left, e', single, flow) = happens-Outcome t [] events (waiting r c) (rw e tt) h in
    let before : pipeline t [] ≡ t.queue = rw (e, all_kept) (append-nil t.queue) in
    (t', left, e', single, flow ∙ ap (λ q. q ++ all_kept (arrivals events)) before)

-- What a round leaves that sees the completion of as many bytes.
abbrev delivered : ClientTransport → List ℕ → List ℕ → ClientTransport
delivered t bytes rest = record t {
  reads = t.reads + 1;
  completions = rest;
  bytes_received = (t.bytes_received + length bytes) % 2 ^ 64;
  queue = t.queue ++ (bytes ∷ []);
}

see_lem :
    (t : ClientTransport) (b : ℕ) (bytes rest : List ℕ)
    → length (b ∷ bytes) ≤ length t.buffer
    → take (length (b ∷ bytes)) t.buffer ≡ b ∷ bytes
    → see t (length (b ∷ bytes) ∷ rest) true ≡ some (delivered t (b ∷ bytes) rest)
unfolding see deliver submit_recv_multishot
see_lem t b bytes rest h e = rw (le→leb (suc (length bytes)) (length t.buffer) h, e, see) refl

happens_next :
    (t t' : ClientTransport) (e : Event) (events : List Event) {o : Option ClientTransport}
    → happen t e ≡ some t'
    → happens t' events ≡ o
    → happens t (e ∷ events) ≡ o
unfolding happens
happens_next t t' e events h k = rw (h, happens) k

-- A send shares the ring: its completion, of as many bytes as the datagram received last, queues this datagram
-- once more, and adds a receive to the ring.
pub polls_duplicate :
    (t : ClientTransport) (reads b : ℕ) (bytes : List ℕ) (rest : List (List ℕ))
    → t.reads ≡ suc reads
    → t.completions ≡ []
    → t.socket ≡ (b ∷ bytes) ∷ rest
    → length (b ∷ bytes) ≤ length t.buffer
    → (t' : ClientTransport) × (happens t
          (received ∷ polled true ∷ sent (length (b ∷ bytes)) ∷ polled true ∷ [])
        ≡ some t')
      × (t'.queue ≡ t.queue ++ ((b ∷ bytes) ∷ (b ∷ bytes) ∷ []))
      × (t'.reads ≡ suc reads + 1)
unfolding happen fill poll
polls_duplicate t reads b bytes rest r c k h =
    let n = length (b ∷ bytes) in
    let t1 = fill t (suc reads) ((b ∷ bytes) ∷ rest) in
    let t2 = delivered t1 (b ∷ bytes) [] in
    let t3 = record t2 { completions = n ∷ [] } in
    let t4 = delivered t3 (b ∷ bytes) [] in
    let fits : length (b ∷ bytes) ≤ length t1.buffer =
      omega (arith, length-overlay (b ∷ bytes) t.buffer) in
    let shown : take n t1.buffer ≡ b ∷ bytes = take-overlay (b ∷ bytes) t.buffer h in
    (
      t4,
      happens_next t t1 received _ (ap₂ (λ m s. some (fill t m s)) r k) (
          happens_next t1 t2 (polled true) _
            (ap (λ cs. see t1 (cs ++ (n ∷ [])) true) c ∙ see_lem t1 b bytes [] fits shown)
            (happens_next t2 t3 (sent n) _ refl (
              happens_next t3 t4 (polled true) [] (see_lem t3 b bytes [] fits shown)
                (unfold happens in refl)))),
      append_assoc t.queue ((b ∷ bytes) ∷ []) ((b ∷ bytes) ∷ []),
      omega arith,
    )

-- With two receives in the ring, as such a send leaves them, all of which write the same buffer: of two datagrams of
-- the same length that both arrive before the next round of the loop, the second is queued twice, and the
-- first is lost.
pub polls_overwritten :
    (t : ClientTransport) (reads a b : ℕ) (first second : List ℕ) (rest : List (List ℕ))
    → t.reads ≡ suc (suc reads)
    → t.completions ≡ []
    → t.socket ≡ (a ∷ first) ∷ (b ∷ second) ∷ rest
    → length first ≡ length second
    → length (b ∷ second) ≤ length t.buffer
    → (t' : ClientTransport) × (happens t (received ∷ received ∷ polled true ∷ polled true ∷ [])
        ≡ some t')
      × (t'.queue ≡ t.queue ++ ((b ∷ second) ∷ (b ∷ second) ∷ []))
      × (t'.socket ≡ rest)
unfolding happen fill poll
polls_overwritten t reads a b first second rest r c k same h =
    let n = length (b ∷ second) in
    let t1 = fill t (suc (suc reads)) ((a ∷ first) ∷ (b ∷ second) ∷ rest) in
    let t2 = fill t1 (suc reads) ((b ∷ second) ∷ rest) in
    let t3 = delivered t2 (b ∷ second) (n ∷ []) in
    let t4 = delivered t3 (b ∷ second) [] in
    let size = length-overlay (a ∷ first) t.buffer in
    let fits : length (b ∷ second) ≤ length t2.buffer =
      omega (arith, size, length-overlay (b ∷ second) t1.buffer) in
    let shown : take n t2.buffer ≡ b ∷ second =
      take-overlay (b ∷ second) t1.buffer (omega (arith, size)) in
    (
      t4,
      happens_next t t1 received _ (ap₂ (λ m s. some (fill t m s)) r k) (
          happens_next t1 t2 received _ refl (
            happens_next t2 t3 (polled true) _
              (ap₂ (λ cs m. see t2 ((cs ++ (suc m ∷ [])) ++ (n ∷ [])) true) c same
                ∙ see_lem t2 b second (n ∷ []) fits shown)
              (happens_next t3 t4 (polled true) [] (see_lem t3 b second [] fits shown)
                (unfold happens in refl)))),
      append_assoc t.queue ((b ∷ second) ∷ []) ((b ∷ second) ∷ []),
      refl,
    )
