-- ===== src/Gateway/Middleware.antt =====
-- services/gateway/internal/api/router.go: WithMiddleware and statusWriter, writeJSON and httpErr; and
-- withMiddleware of services/ai-analyzer/cmd/main.go. A handler is what it calls on its writer, and whether
-- it then panics. Of net/http it has this: a second status, and a header after the status, are ignored; a
-- status outside 100 to 999 panics if none was sent; one of 100 to 199 but 101 is informational, so that
-- another may follow; a write without a status sends 200, and so does a handler that returns without one. A
-- connection that the WebSocket library takes over is Gateway.Streams.
use quantime.Prelude.{
  leb, not, ◌&&◌, ◌||◌, ◌==◌, if◌then◌else◌, ℕ, Bool, true, false, Option, none, some, List, [],
  ◌∷◌,
}

pub data Method : Type 0 where
  get post options : Method
  other_method : ℕ → Method

pub data Call : Type 0 where
  write_header : ℕ → Call
  write : Call

pub record Behaviour : Type 0 where
  pub calls : List Call
  pub panics : Bool

abbrev pub Handler : Type 0
Handler = Method → Behaviour

-- The response so far; the CORS headers count if they are set before the status.
pub record Writer : Type 0 where
  pub sent : Option ℕ
  pub has_cors : Bool

abbrev pub fresh : Writer
fresh = record { sent = none; has_cors = false }

abbrev pub is_status : ℕ → Bool
is_status code = leb 100 code && leb code 999

abbrev pub is_informational : ℕ → Bool
is_informational code = leb 100 code && leb code 199 && not (code == 101)

abbrev pub send_status : ℕ → Option ℕ → Option ℕ
send_status code none = if is_informational code then none else some code
send_status code (some old) = some old

abbrev pub send : ℕ → Writer → Writer
send code w = record w { sent = send_status code w.sent }

abbrev pub set_cors : Option ℕ → Writer → Writer
set_cors none w = record w { has_cors = true }
set_cors (some code) w = w

-- `statusWriter`: the status that it notes, beside the response.
pub record StatusWriter : Type 0 where
  pub inner : Writer
  pub status : ℕ

abbrev pub call : Call → StatusWriter → StatusWriter
call (write_header code) s = record { inner = send code s.inner; status = code }
call write s = record s { inner = send 200 s.inner }

-- The call panics: no status was sent, and this is none.
abbrev pub refuses : Call → Option ℕ → Bool
refuses (write_header code) none = not (is_status code)
refuses (write_header code) (some old) = false
refuses write sent = false

-- The calls until one panics, and whether one does.
unfoldable pub call_all : List Call → StatusWriter → StatusWriter × Bool
call_all [] s = (s, false)
call_all (c ∷ cs) s =
    let rest = call_all cs (call c s) in if refuses c s.inner.sent then (s, true) else rest

-- An exchange: the response, the statuses in the access log, and whether a panic is under way.
pub record Exchange : Type 0 where
  pub writer : Writer
  pub logged : List ℕ
  pub panicking : Bool

-- A handler that is wrapped acts on an exchange.
abbrev pub Wrapped : Type 0
Wrapped = Method → Exchange → Exchange

abbrev pub after_calls : Exchange → Bool → StatusWriter → Exchange
after_calls x true s = record x { writer = s.inner; panicking = true }
after_calls x false s = record x { writer = s.inner; logged = s.status ∷ x.logged }

-- A panic passes over the line that logs.
unfoldable pub access_log : Handler → Wrapped
unfolding call_all
access_log h m x =
    let (s, panics) = call_all (h m).calls (record { inner = x.writer; status = 200 }) in
    after_calls x (panics || (h m).panics) s

abbrev pub unless_options : Method → Exchange → Exchange → Exchange
unless_options options answered x = answered
unless_options get answered x = x
unless_options post answered x = x
unless_options (other_method n) answered x = x

unfoldable pub cors_headers : Wrapped → Wrapped
cors_headers next m x =
    let x' = record x { writer = set_cors x.writer.sent x.writer } in
    unless_options m (record x' { writer = send 204 x'.writer }) (next m x')

-- The deferred recovery: `http.Error`.
abbrev pub recovered : Bool → Exchange → Exchange
recovered false x = x
recovered true x = record x { writer = send 500 x.writer; panicking = false }

unfoldable pub panic_recovery : Wrapped → Wrapped
panic_recovery next m x = let y = next m x in recovered y.panicking y

unfoldable pub with_middleware : Handler → Wrapped
unfolding access_log cors_headers panic_recovery
with_middleware h = panic_recovery (cors_headers (access_log h))

-- The analyzer's, in one function.
abbrev pub log_analyzer : Handler → Method → Exchange → Exchange
log_analyzer h m x =
    let (s, panics) = call_all (h m).calls (record { inner = x.writer; status = 200 }) in
    after_calls x (panics || (h m).panics) s

unfoldable pub analyzer_middleware : Handler → Wrapped
unfolding call_all
analyzer_middleware h m x =
    let x' = record x { writer = set_cors x.writer.sent x.writer } in
    let y = unless_options m (record x' { writer = send 204 x'.writer }) (log_analyzer h m x') in
    recovered y.panicking y

abbrev pub start : Exchange
start = record { writer = fresh; logged = []; panicking = false }

-- What net/http sends at the end.
abbrev pub status_of : Exchange → ℕ
status_of x = elim (x.writer.sent) [ none ↦ 200 | some code ↦ code ]

-- `writeJSON` and `httpErr`.
abbrev pub write_json : ℕ → Behaviour
write_json code = record { calls = write_header code ∷ write ∷ []; panics = false }
