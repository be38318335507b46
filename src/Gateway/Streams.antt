-- ===== src/Gateway/Streams.antt =====
-- services/gateway/internal/cache/cache.go, SubscribeRun, and services/gateway/internal/api/ws.go, streamRun:
-- from the messages that Redis publishes to those that the client gets. The WebSocket's answers come with
-- the events: the turns of the `select`, and the messages meanwhile.
use mathlib.Core.Path.{subst}
use quantime.Prelude.{
  ℕ, zero, suc, ◌≤◌, ◌≡◌, refl, ap, sym, ◌∙◌, Bool, true, false, inl, inr, List, [], ◌∷◌, ◌++◌,
  append-nil, append_assoc, arith, length, Bool-cases,
}
use quantime.Go.Channel.{
  Channel, make, IsFifo, make-IsFifo, try_send, try_send-IsFifo, receive-IsFifo,
}

abbrev pub stream_capacity : ℕ
stream_capacity = 256

-- `published` are the messages of the run's Redis channel since the subscription, `taken` those that the
-- loop received, `client` those that were written.
pub record Stream : Type 0 where
  pub ch : Channel ℕ
  pub is_open : Bool
  pub published : List ℕ
  pub taken : List ℕ
  pub client : List ℕ

-- A message from Redis; and a turn of the loop: a receipt, after which the write succeeds or not, a ping
-- that is answered or not, the context's end, or that the subscription has ended.
pub data Event : Type 0 where
  publishes : ℕ → Event
  writes : Bool → Event
  pings : Bool → Event
  done unsubscribed : Event

abbrev pub close : Stream → Stream
close s = record s { is_open = false }

abbrev pub write_first : Bool → List ℕ → Stream → Stream
write_first ok [] s = s
write_first true (m ∷ rest) s = record s {
  ch = record (s.ch) { buffer = rest };
  taken = s.taken ++ m ∷ [];
  client = s.client ++ m ∷ [];
}
write_first false (m ∷ rest) s =
    close (record s { ch = record (s.ch) { buffer = rest }; taken = s.taken ++ m ∷ [] })

abbrev pub publish : ℕ → Stream → Stream
publish m s = record s { ch = try_send stream_capacity m s.ch; published = s.published ++ m ∷ [] }

-- A turn of the loop, which is left for good once the connection is closed.
abbrev pub turn : Bool → (Stream → Stream) → Stream → Stream
turn true f s = f s
turn false f s = s

abbrev pub keep_or_close : Bool → Stream → Stream
keep_or_close true s = s
keep_or_close false s = close s

unfoldable pub on_event : Event → Stream → Stream
unfolding try_send
on_event (publishes m) s = publish m s
on_event (writes ok) s = turn s.is_open (write_first ok s.ch.buffer) s
on_event (pings ok) s = turn s.is_open (keep_or_close ok) s
on_event done s = turn s.is_open close s
on_event unsubscribed s = turn s.is_open close s

unfoldable pub run_stream : List Event → Stream → Stream
unfolding on_event
run_stream [] s = s
run_stream (e ∷ es) s = run_stream es (on_event e s)

abbrev pub accepted : Stream
accepted = record { ch = make; is_open = true; published = []; taken = []; client = [] }

-- The message whose write failed, if the connection was closed by that.
pub record IsStream (s : Stream) : Type 0 where
  pub fifo : IsFifo 256 s.published s.taken s.ch
  pub unwritten : List ℕ
  pub at_most_one : length unwritten ≤ 1
  pub taken_is : s.taken ≡ s.client ++ unwritten
  pub while_open : s.is_open ≡ true → unwritten ≡ []

close-IsStream : (s : Stream) → IsStream s → IsStream (close s)
close-IsStream s h = record {
  fifo = h.fifo;
  unwritten = h.unwritten;
  at_most_one = h.at_most_one;
  taken_is = h.taken_is;
  while_open = λ e. absurd (ground (arith, e));
}

-- While the connection is open, every message that the loop took was written.
all_written : (s : Stream) → IsStream s → s.is_open ≡ true → s.taken ≡ s.client
all_written s h o = h.taken_is ∙ ap (λ l. s.client ++ l) (h.while_open o) ∙ append-nil s.client

write_first-IsStream :
    (ok : Bool) (l : List ℕ) (s : Stream)
    → s.ch.buffer ≡ l
    → s.is_open ≡ true
    → IsStream s
    → IsStream (write_first ok l s)
write_first-IsStream ok [] s e o h = h
write_first-IsStream true (m ∷ rest) s e o h = record {
  fifo = receive-IsFifo m rest s.ch e h.fifo;
  unwritten = [];
  at_most_one = omega arith;
  taken_is = ap (λ l. l ++ m ∷ []) (all_written s h o) ∙ sym (append-nil (s.client ++ m ∷ []));
  while_open = λ x. refl;
}
write_first-IsStream false (m ∷ rest) s e o h = record {
  fifo = receive-IsFifo m rest s.ch e h.fifo;
  unwritten = m ∷ [];
  at_most_one = omega arith;
  taken_is = ap (λ l. l ++ m ∷ []) (all_written s h o);
  while_open = λ x. absurd (ground (arith, x));
}

turn_open : (b : Bool) (f : Stream → Stream) (s : Stream) → b ≡ true → turn b f s ≡ f s
turn_open true f s e = refl
turn_open false f s e = absurd (ground (arith, e))

turn_closed : (b : Bool) (f : Stream → Stream) (s : Stream) → b ≡ false → turn b f s ≡ s
turn_closed true f s e = absurd (ground (arith, e))
turn_closed false f s e = refl

turn-IsStream :
    (f : Stream → Stream) (s : Stream)
    → (s.is_open ≡ true → IsStream (f s))
    → IsStream s
    → IsStream (turn s.is_open f s)
turn-IsStream f s open_case h = elim (Bool-cases s.is_open) [
  | inl o ↦ subst IsStream (sym (turn_open s.is_open f s o)) (open_case o)
  | inr c ↦ subst IsStream (sym (turn_closed s.is_open f s c)) h
]

keep_or_close-IsStream : (ok : Bool) (s : Stream) → IsStream s → IsStream (keep_or_close ok s)
keep_or_close-IsStream true s h = h
keep_or_close-IsStream false s h = close-IsStream s h

on_event-IsStream : (e : Event) (s : Stream) → IsStream s → IsStream (on_event e s)
unfolding on_event
on_event-IsStream (publishes m) s h = record {
  fifo = try_send-IsFifo m s.ch h.fifo;
  unwritten = h.unwritten;
  at_most_one = h.at_most_one;
  taken_is = h.taken_is;
  while_open = h.while_open;
}
on_event-IsStream (writes ok) s h =
    turn-IsStream (write_first ok s.ch.buffer) s
      (λ o. write_first-IsStream ok s.ch.buffer s refl o h) h
on_event-IsStream (pings ok) s h =
    turn-IsStream (keep_or_close ok) s (λ o. keep_or_close-IsStream ok s h) h
on_event-IsStream done s h = turn-IsStream close s (λ o. close-IsStream s h) h
on_event-IsStream unsubscribed s h = turn-IsStream close s (λ o. close-IsStream s h) h

run_stream-kept : (es : List Event) (s : Stream) → IsStream s → IsStream (run_stream es s)
unfolding run_stream
run_stream-kept [] s h = h
run_stream-kept (e ∷ es) s h = run_stream-kept es (on_event e s) (on_event-IsStream e s h)

-- Over every sequence of messages and turns, the client has the messages that were published since the
-- subscription, in order and each once, but for those that wait, at most 256, those that found the channel
-- full, and the one whose write failed, if any; while the connection is open there is none.
pub run_stream-IsStream : (es : List Event) → IsStream (run_stream es accepted)
run_stream-IsStream es = run_stream-kept es accepted record {
  fifo = make-IsFifo stream_capacity;
  unwritten = [];
  at_most_one = omega arith;
  taken_is = refl;
  while_open = λ o. refl;
}

-- Receipts, each with a write that succeeds.
abbrev pub writes_for : ℕ → List Event
writes_for zero = []
writes_for (suc n) = writes true ∷ writes_for n

-- All the messages of a list are written, and none waits.
abbrev pub Drained : Stream → List ℕ → Stream → Type 0
Drained s l s' = (s'.client ≡ s.client ++ l) × (s'.ch.buffer ≡ []) × (s'.is_open ≡ true)

write_turn :
    (s : Stream) (l : List ℕ)
    → s.ch.buffer ≡ l
    → s.is_open ≡ true
    → on_event (writes true) s ≡ write_first true l s
unfolding on_event
write_turn s l e o =
    turn_open s.is_open (write_first true s.ch.buffer) s o ∙ ap (λ b. write_first true b s) e

drains :
    (l : List ℕ) (s : Stream)
    → s.ch.buffer ≡ l
    → s.is_open ≡ true
    → Drained s l (run_stream (writes_for (length l)) s)
unfolding run_stream
drains [] s e o = (sym (append-nil s.client), e, o)
drains (m ∷ l) s e o =
    let (all, empty, still) = drains l (write_first true (m ∷ l) s) refl o in
    subst (λ x. Drained s (m ∷ l) (run_stream (writes_for (length l)) x))
      (sym (write_turn s (m ∷ l) e o)) (all ∙ append_assoc s.client (m ∷ []) l, empty, still)

-- On a connection that is open, as many turns that receive and write as messages wait bring all of them
-- to the client, in order, whatever came before.
pub run_stream-drains :
    (es : List Event)
    → (run_stream es accepted).is_open ≡ true
    → let s = run_stream es accepted in
      Drained s s.ch.buffer (run_stream (writes_for (length s.ch.buffer)) s)
run_stream-drains es o = drains _ (run_stream es accepted) refl o
