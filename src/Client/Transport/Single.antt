-- ===== src/Client/Transport/Single.antt =====
-- The polling loop with one receive in the ring and no sends, event by event.
use ultra_display_os.Prelude.{
  ℕ, zero, suc, ◌≤◌, ◌≡◌, refl, sym, ap, ◌∙◌, true, some, List, [], ◌∷◌, ◌++◌, arith, length,
  append-nil, append_assoc, take, le→leb, Option, none, get_or, drop,
}
use ultra_display_os.Client.Transport.{
  ClientTransport, submit_recv_multishot, overlay, fill, fail, deliver, see, Event, arrived,
  received, receive_failed, polled,
}

pub length-overlay : (bytes buffer : List ℕ) → length (overlay bytes buffer) ≡ length buffer
unfolding overlay
length-overlay [] buffer = refl
length-overlay (b ∷ bytes) [] = refl
length-overlay (b ∷ bytes) (old ∷ buffer) = ap suc (length-overlay bytes buffer)

pub take-overlay :
    (bytes buffer : List ℕ)
    → length bytes ≤ length buffer
    → take (length bytes) (overlay bytes buffer) ≡ bytes
unfolding overlay
take-overlay [] buffer h = refl
take-overlay (b ∷ bytes) [] h = absurd (omega arith)
take-overlay (b ∷ bytes) (old ∷ buffer) h =
    ap (λ xs. b ∷ xs) (take-overlay bytes buffer (omega arith))

-- Events without sends, where the datagrams fit a buffer of `size` bytes and the ring has room.
abbrev pub NoSends : ℕ → List Event → Type 0
NoSends size [] = Unit {0}
NoSends size (arrived bytes ∷ events) = (length bytes ≤ size) × NoSends size events
NoSends size (received ∷ events) = NoSends size events
NoSends size (receive_failed ∷ events) = NoSends size events
NoSends size (polled sqe ∷ events) = (sqe ≡ true) × NoSends size events
NoSends size (e ∷ events) = ⊥

-- A datagram without bytes is delivered as none.
abbrev pub kept : List ℕ → List (List ℕ)
kept [] = []
kept (b ∷ bytes) = (b ∷ bytes) ∷ []

unfoldable pub all_kept : List (List ℕ) → List (List ℕ)
all_kept [] = []
all_kept (bytes ∷ rest) = kept bytes ++ all_kept rest

unfoldable pub arrivals : List Event → List (List ℕ)
arrivals [] = []
arrivals (arrived bytes ∷ events) = bytes ∷ arrivals events
arrivals (e ∷ events) = arrivals events

-- One receive is in the ring, and its completion is to come; or it has come, with `bytes` in the buffer, and the loop
-- is to see it.
pub data Single (t : ClientTransport) : List ℕ → Type 0 where
  waiting : t.reads ≡ 1 → t.completions ≡ [] → Single t []
  filled :
      {bytes : List ℕ}
      → t.reads ≡ 0
      → t.completions ≡ length bytes ∷ []
      → length bytes ≤ length t.buffer
      → take (length bytes) t.buffer ≡ bytes
      → Single t bytes

abbrev pub AllFit : ℕ → List (List ℕ) → Type 0
AllFit size [] = Unit {0}
AllFit size (bytes ∷ rest) = (length bytes ≤ size) × AllFit size rest

-- All that was received: in the queue, in the buffer and in the socket.
abbrev pub pipeline : ClientTransport → List ℕ → List (List ℕ)
pipeline t bytes = t.queue ++ (kept bytes ++ all_kept t.socket)

-- What an event leaves that brings the datagrams `new`.
pub record Step (t : ClientTransport) (bytes : List ℕ) (new : List (List ℕ)) (t' : ClientTransport)
    : Type 0 where
  pub left : List ℕ
  pub single : Single t' left
  pub fits : AllFit (length t.buffer) t'.socket
  pub size : length t'.buffer ≡ length t.buffer
  pub flow : pipeline t' left ≡ pipeline t bytes ++ new

head_eq : (n : ℕ) (rest : List ℕ) {m : ℕ} → n ∷ rest ≡ m ∷ [] → n ≡ m
head_eq n rest e = ap (λ xs. get_or xs 0 0) e

tail_nil : (n : ℕ) (rest : List ℕ) {m : ℕ} → n ∷ rest ≡ m ∷ [] → rest ≡ []
tail_nil n rest e = ap (drop 1) e

all_kept-append : (xs ys : List (List ℕ)) → all_kept (xs ++ ys) ≡ all_kept xs ++ all_kept ys
unfolding all_kept
all_kept-append [] ys = refl
all_kept-append (x ∷ xs) ys =
    ap (λ zs. kept x ++ zs) (all_kept-append xs ys)
    ∙ sym (append_assoc (kept x) (all_kept xs) (all_kept ys))

AllFit-append :
    (size : ℕ) (xs : List (List ℕ)) (bytes : List ℕ)
    → AllFit size xs
    → length bytes ≤ size
    → AllFit size (xs ++ (bytes ∷ []))
AllFit-append size [] bytes h l = (l, tt)
AllFit-append size (x ∷ xs) bytes h l = (h.0, AllFit-append size xs bytes h.1 l)

arrived-flow :
    (queue : List (List ℕ)) (bytes new : List ℕ) (socket : List (List ℕ))
    → queue ++ (kept bytes ++ all_kept (socket ++ (new ∷ [])))
      ≡ (queue ++ (kept bytes ++ all_kept socket)) ++ kept new
unfolding all_kept
arrived-flow queue bytes new socket =
    ap (λ zs. queue ++ (kept bytes ++ zs))
      (all_kept-append socket (new ∷ []) ∙ ap (λ zs. all_kept socket ++ zs) (append-nil (kept new)))
    ∙ ap (λ zs. queue ++ zs) (sym (append_assoc (kept bytes) (all_kept socket) (kept new)))
    ∙ sym (append_assoc queue (kept bytes ++ all_kept socket) (kept new))

unchanged :
    (t : ClientTransport) (bytes : List ℕ)
    → Single t bytes
    → AllFit (length t.buffer) t.socket
    → Step t bytes [] t
unchanged t bytes s f = record {
  left = bytes;
  single = s;
  fits = f;
  size = refl;
  flow = sym (append-nil (pipeline t bytes));
}

arrived-Single :
    (t : ClientTransport) (bytes new : List ℕ)
    → Single t bytes
    → Single (record t { socket = t.socket ++ (new ∷ []) }) bytes
arrived-Single t [] new (waiting r c) = waiting r c
arrived-Single t bytes new (filled r c h e) = filled r c h e

pub arrived-Step :
    (t : ClientTransport) (bytes new : List ℕ)
    → Single t bytes
    → AllFit (length t.buffer) t.socket
    → length new ≤ length t.buffer
    → Step t bytes (kept new) (record t { socket = t.socket ++ (new ∷ []) })
arrived-Step t bytes new s f l = record {
  left = bytes;
  single = arrived-Single t bytes new s;
  fits = AllFit-append (length t.buffer) t.socket new f l;
  size = refl;
  flow = arrived-flow t.queue bytes new t.socket;
}

pub fill-Step :
    (t : ClientTransport) (bytes : List ℕ) (reads : ℕ) (socket : List (List ℕ))
    → t.reads ≡ reads
    → t.socket ≡ socket
    → Single t bytes
    → AllFit (length t.buffer) t.socket
    → Step t bytes [] (fill t reads socket)
unfolding fill all_kept
fill-Step t bytes zero socket e k s f = unchanged t bytes s f
fill-Step t bytes (suc reads) [] e k s f = unchanged t bytes s f
fill-Step t bytes (suc reads) (new ∷ socket) e k (filled r c h q) f = absurd (omega (arith, e, r))
fill-Step t [] (suc reads) (new ∷ socket) e k (waiting r c) f =
    let fit : AllFit (length t.buffer) (new ∷ socket) = rw k at f in
    record {
      left = new;
      single =
          filled (omega (arith, e, r)) (ap (λ cs. cs ++ (length new ∷ [])) c)
            (omega (arith, fit.0, length-overlay new t.buffer)) (take-overlay new t.buffer fit.0);
      fits = fit.1;
      size = length-overlay new t.buffer;
      flow = sym (append-nil (pipeline t []) ∙ ap (λ xs. t.queue ++ all_kept xs) k);
    }

pub fail-Step :
    (t : ClientTransport) (bytes : List ℕ) (reads : ℕ)
    → t.reads ≡ reads
    → Single t bytes
    → AllFit (length t.buffer) t.socket
    → Step t bytes [] (fail t reads)
unfolding fail
fail-Step t bytes zero e s f = unchanged t bytes s f
fail-Step t bytes (suc reads) e (filled r c h q) f = absurd (omega (arith, e, r))
fail-Step t [] (suc reads) e (waiting r c) f = record {
  left = [];
  single =
      filled {bytes = []} (omega (arith, e, r)) (ap (λ cs. cs ++ (0 ∷ [])) c) (omega arith) refl;
  fits = f;
  size = refl;
  flow = sym (append-nil (pipeline t []));
}

-- The result is some state, which the step leaves.
abbrev pub Steps : ClientTransport → List ℕ → List (List ℕ) → Option ClientTransport → Type 0
Steps t bytes new none = ⊥
Steps t bytes new (some t') = Step t bytes new t'

pub see-Steps :
    (t : ClientTransport) (bytes completions : List ℕ)
    → t.completions ≡ completions
    → Single t bytes
    → AllFit (length t.buffer) t.socket
    → Steps t bytes [] (see t completions true)
unfolding see deliver submit_recv_multishot
see-Steps t bytes [] e s f = unchanged t bytes s f
see-Steps t [] (n ∷ rest) e (waiting r c) f = absurd (omega (arith, ap length (sym e ∙ c)))
see-Steps t [] (zero ∷ rest) e (filled r c h q) f = record {
  left = [];
  single = waiting (omega (arith, r)) (tail_nil zero rest (sym e ∙ c));
  fits = f;
  size = refl;
  flow = sym (append-nil (pipeline t []));
}
see-Steps t [] (suc n ∷ rest) e (filled r c h q) f =
    absurd (omega (arith, head_eq (suc n) rest (sym e ∙ c)))
see-Steps t (b ∷ bytes) (n ∷ rest) e (filled r c h q) f =
    let tail : rest ≡ [] = tail_nil n rest (sym e ∙ c) in
    rw (head_eq n rest (sym e ∙ c), le→leb (suc (length bytes)) (length t.buffer) h, q, see)
      (record {
        left = [];
        single = waiting (omega (arith, r)) tail;
        fits = f;
        size = refl;
        flow =
            append_assoc t.queue ((b ∷ bytes) ∷ []) (all_kept t.socket)
            ∙ sym (append-nil (pipeline t (b ∷ bytes)));
      })
