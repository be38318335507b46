-- ===== src/Gateway/Answered.antt =====
-- services/gateway/internal/api/router.go, WithMiddleware, and services/ai-analyzer/cmd/main.go,
-- withMiddleware: what the client gets.
use mathlib.Core.Path.{subst}
use quantime.Prelude.{
  inl, inr, Bool-cases, not, ◌||◌, sym, ℕ, ◌≡◌, refl, ap, ◌∙◌, Bool, true, false, Option, none,
  some, List, [], ◌∷◌, if◌then◌else◌,
}
use quantime.Gateway.Middleware.{
  is_status, is_informational, refuses, Method, get, post, options, other_method, Call,
  write_header, write, Behaviour, Handler, fresh, send_status, StatusWriter, call, call_all,
  Exchange, after_calls, recovered, with_middleware, analyzer_middleware, start, status_of,
}

-- The status that a client gets for the calls of a handler and whether it panics after them: the first one
-- that is not informational, 500 if there is none such before an invalid one or a panic, and else 200.
abbrev pub answer_of : List Call → Bool → ℕ
answer_of [] panics = if panics then 500 else 200
answer_of (write ∷ cs) panics = 200
answer_of (write_header code ∷ cs) panics =
    let rest = answer_of cs panics in
    if is_status code then (if is_informational code then rest else code) else 500

-- What the client gets.
abbrev pub expected : Method → Behaviour → ℕ
expected options b = 204
expected get b = answer_of b.calls b.panics
expected post b = answer_of b.calls b.panics
expected (other_method n) b = answer_of b.calls b.panics

-- The answer to a request: its status, the CORS headers, and no panic that goes on.
pub record IsAnswered (m : Method) (b : Behaviour) (x : Exchange) : Type 0 where
  pub status_is : status_of x ≡ expected m b
  pub cors : x.writer.has_cors ≡ true
  pub recovered_from : x.panicking ≡ false

refuses_sent : (c : Call) (old : ℕ) → refuses c (some old) ≡ false
refuses_sent (write_header code) old = refl
refuses_sent write old = refl

call_sent :
    (c : Call) (s : StatusWriter) (code : ℕ)
    → s.inner.sent ≡ some code
    → (call c s).inner.sent ≡ some code
call_sent (write_header c) s code h = ap (send_status c) h
call_sent write s code h = ap (send_status 200) h

call_all_sent :
    (cs : List Call) (s : StatusWriter) (code : ℕ)
    → s.inner.sent ≡ some code
    → ((call_all cs s).0.inner.sent ≡ some code) × ((call_all cs s).1 ≡ false)
unfolding call_all
call_all_sent [] s code h = (h, refl)
call_all_sent (c ∷ cs) s code h =
    let goes_on = ap (refuses c) h ∙ refuses_sent c code in
    rw goes_on (call_all_sent cs (call c s) code (call_sent c s code h))

call_cors : (c : Call) (s : StatusWriter) → (call c s).inner.has_cors ≡ s.inner.has_cors
call_cors (write_header code) s = refl
call_cors write s = refl

call_all_cors :
    (cs : List Call) (s : StatusWriter) → (call_all cs s).0.inner.has_cors ≡ s.inner.has_cors
unfolding call_all
call_all_cors [] s = refl
call_all_cors (c ∷ cs) s = elim (Bool-cases (refuses c s.inner.sent)) [
  | inl stops ↦ rw stops refl
  | inr goes_on ↦ rw goes_on (call_all_cors cs (call c s) ∙ call_cors c s)
]

abbrev opened : Exchange
opened = record start { writer = record fresh { has_cors = true } }

abbrev finish : Bool → StatusWriter → Exchange
finish panics s = let y = after_calls opened panics s in recovered y.panicking y

abbrev or_status : Option ℕ → ℕ → ℕ
or_status none code = code
or_status (some first) code = first

-- What the recovery makes of a status and a panic.
finish-status_of :
    (panics : Bool) (s : StatusWriter) (o : Option ℕ)
    → s.inner.sent ≡ o
    → status_of (finish panics s) ≡ or_status o (if panics then 500 else 200)
finish-status_of true s none e =
    ap (λ o. elim (send_status 500 o) [ none ↦ 200 | some code ↦ code ]) e
finish-status_of true s (some c) e =
    ap (λ o. elim (send_status 500 o) [ none ↦ 200 | some code ↦ code ]) e
finish-status_of false s none e = ap (λ o. elim o [ none ↦ 200 | some code ↦ code ]) e
finish-status_of false s (some c) e = ap (λ o. elim o [ none ↦ 200 | some code ↦ code ]) e

finish_calm :
    (panics : Bool) (s : StatusWriter)
    → ((finish panics s).writer.has_cors ≡ s.inner.has_cors) × ((finish panics s).panicking ≡ false)
finish_calm true s = (refl, refl)
finish_calm false s = (refl, refl)

-- Once a status is sent, it is the answer.
status_of-sent :
    (cs : List Call) (panics : Bool) (s : StatusWriter) (code : ℕ)
    → s.inner.sent ≡ some code
    → status_of (finish ((call_all cs s).1 || panics) (call_all cs s).0) ≡ code
status_of-sent cs panics s code h =
    finish-status_of ((call_all cs s).1 || panics) (call_all cs s).0 (some code)
      (call_all_sent cs s code h).0

status_of-call_all :
    (cs : List Call) (panics : Bool) (s : StatusWriter)
    → s.inner.sent ≡ none
    → status_of (finish ((call_all cs s).1 || panics) (call_all cs s).0) ≡ answer_of cs panics
unfolding call_all
status_of-call_all [] panics s e = finish-status_of panics s none e
status_of-call_all (write ∷ cs) panics s e =
    status_of-sent cs panics (call write s) 200 (ap (send_status 200) e)
status_of-call_all (write_header code ∷ cs) panics s e = elim (Bool-cases (is_status code)) [
  | inr invalid ↦
      let stops : refuses (write_header code) s.inner.sent ≡ true =
        ap (refuses (write_header code)) e ∙ ap not invalid in
      rw (stops, invalid) (finish-status_of true s none e)
  | inl valid ↦
      let goes_on : refuses (write_header code) s.inner.sent ≡ false =
        ap (refuses (write_header code)) e ∙ ap not valid in
      elim (Bool-cases (is_informational code)) [
        | inl early ↦
            let unsent : (call (write_header code) s).inner.sent ≡ none =
              ap (send_status code) e ∙ rw early refl in
            rw (goes_on, valid, early)
              (status_of-call_all cs panics (call (write_header code) s) unsent)
        | inr last ↦
            let sent : (call (write_header code) s).inner.sent ≡ some code =
              ap (send_status code) e ∙ rw last refl in
            rw (goes_on, valid, last)
              (status_of-sent cs panics (call (write_header code) s) code sent)
      ]
]

abbrev first_writer : StatusWriter
first_writer = record { inner = opened.writer; status = 200 }

-- A handler's part of the exchange, and the recovery.
abbrev handled : Behaviour → Exchange
handled b = let (s, panics) = call_all b.calls first_writer in finish (panics || b.panics) s

handled-status :
    (b : Behaviour)
    → (status_of (handled b) ≡ answer_of b.calls b.panics)
      × ((handled b).writer.has_cors ≡ true)
      × ((handled b).panicking ≡ false)
handled-status b =
    let (s, panics) = call_all b.calls first_writer in
    let (cors, calm) = finish_calm (panics || b.panics) s in
    (
      status_of-call_all b.calls b.panics first_writer refl,
      cors ∙ call_all_cors b.calls first_writer,
      calm,
    )

with_middleware-IsAnswered :
    (h : Handler) (m : Method) → IsAnswered m (h m) (with_middleware h m start)
unfolding with_middleware
with_middleware-IsAnswered h options = record {
  status_is = refl;
  cors = refl;
  recovered_from = refl;
}
with_middleware-IsAnswered h get =
    let (status, cors, calm) = handled-status (h get) in
    record { status_is = status; cors = cors; recovered_from = calm }
with_middleware-IsAnswered h post =
    let (status, cors, calm) = handled-status (h post) in
    record { status_is = status; cors = cors; recovered_from = calm }
with_middleware-IsAnswered h (other_method n) =
    let (status, cors, calm) = handled-status (h (other_method n)) in
    record { status_is = status; cors = cors; recovered_from = calm }

analyzer-with_middleware :
    (h : Handler) (m : Method) → analyzer_middleware h m start ≡ with_middleware h m start
unfolding analyzer_middleware with_middleware
analyzer-with_middleware h get = refl
analyzer-with_middleware h post = refl
analyzer-with_middleware h options = refl
analyzer-with_middleware h (other_method n) = refl

-- Whatever a handler calls, and also if it panics, the middleware of either service answers every request,
-- with the CORS headers: an OPTIONS request with 204, another with the first status of the handler that is
-- not informational; with 500 if the handler panics, or sends an invalid status, before it has sent one, and
-- else with 200.
pub middleware-IsAnswered :
    (h : Handler) (m : Method)
    → IsAnswered m (h m) (with_middleware h m start)
      × IsAnswered m (h m) (analyzer_middleware h m start)
middleware-IsAnswered h m = (
  with_middleware-IsAnswered h m,
  subst (IsAnswered m (h m)) (sym (analyzer-with_middleware h m)) (with_middleware-IsAnswered h m),
)
