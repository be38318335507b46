-- ===== src/Engine/Serial.antt =====
-- examples/sample-engine-go/main.go, `main`: whatever the handlers do at the same time, the engine answers as
-- if the requests had come one after the other.
use mathlib.Core.Path.{subst}
use quantime.Prelude.{ℕ, ◌<◌, ◌≡◌, refl, ap, sym, ◌∙◌, List, [], ◌∷◌, ◌++◌, map, arith, length}
use quantime.Go.Channel.{IsFifo, make-IsFifo, try_send, try_send-IsFifo, receive-IsFifo}
use quantime.Engine.Types.{StpPolicy, Engine, new_engine}
use quantime.Engine.Submit.{submit, refusal}
use quantime.Engine.Invariant.{IsSound}
use quantime.Engine.Uncrossed.{submit-IsSound}
use quantime.Engine.Server.{
  Job, Served, Reply, Server, jobs_capacity, send_job, serve_job, snap_request, Step, sending,
  serving, reading, Reach, here, next,
}

-- One request after the other: the engine, and the replies.
unfoldable pub engine_after : List Served → Engine → Engine
engine_after [] e = e
engine_after (x ∷ xs) e = engine_after xs (submit x.clock x.now e x.job.req).0

abbrev pub reply_of : Served → Engine → Reply
reply_of x e = record { ticket = x.job.ticket; resp = (submit x.clock x.now e x.job.req).1 }

unfoldable pub replies_of : List Served → Engine → List Reply
replies_of [] e = []
replies_of (x ∷ xs) e = reply_of x e ∷ replies_of xs (submit x.clock x.now e x.job.req).0

engine_after-append :
    (xs : List Served) (x : Served) (e : Engine)
    → engine_after (xs ++ x ∷ []) e ≡ (submit x.clock x.now (engine_after xs e) x.job.req).0
unfolding engine_after
engine_after-append [] x e = refl
engine_after-append (y ∷ xs) x e = engine_after-append xs x (submit y.clock y.now e y.job.req).0

replies_of-append :
    (xs : List Served) (x : Served) (e : Engine)
    → replies_of (xs ++ x ∷ []) e ≡ replies_of xs e ++ reply_of x (engine_after xs e) ∷ []
unfolding engine_after replies_of
replies_of-append [] x e = refl
replies_of-append (y ∷ xs) x e =
    ap (λ rs. reply_of y e ∷ rs) (replies_of-append xs x (submit y.clock y.now e y.job.req).0)

abbrev pub jobs_of : List Served → List Job
jobs_of = map (λ x. x.job)

jobs_of-append : (xs : List Served) (x : Served) → jobs_of (xs ++ x ∷ []) ≡ jobs_of xs ++ x.job ∷ []
jobs_of-append [] x = refl
jobs_of-append (y ∷ xs) x = ap (λ js. y.job ∷ js) (jobs_of-append xs x)

-- The server has served the first jobs that were sent, in that order, and the others wait.
pub record IsSerial (start : Engine) (s : Server) : Type 0 where
  pub engine_is : s.engine ≡ engine_after s.served start
  pub replies_are : s.replies ≡ replies_of s.served start
  pub book_is : IsSound s.engine.bk
  pub fifo : IsFifo 16384 s.sent (jobs_of s.served) s.jobs
  pub nothing_lost : s.jobs.dropped ≡ 0

send_job-IsSerial :
    (start : Engine) (s : Server) (j : Job)
    → length s.jobs.buffer < jobs_capacity
    → IsSerial start s
    → IsSerial start (send_job j s)
unfolding try_send
send_job-IsSerial start s j room h = record {
  engine_is = h.engine_is;
  replies_are = h.replies_are;
  book_is = h.book_is;
  fifo = try_send-IsFifo j s.jobs h.fifo;
  nothing_lost = ground (arith, h.nothing_lost, room);
}

serve_job-IsSerial :
    (start : Engine) (s : Server) (x : Served) (rest : List Job)
    → s.jobs.buffer ≡ x.job ∷ rest
    → IsSerial start s
    → IsSerial start (serve_job x rest s)
serve_job-IsSerial start s x rest e h = record {
  engine_is =
      ap (λ g. (submit x.clock x.now g x.job.req).0) h.engine_is
      ∙ sym (engine_after-append s.served x start);
  replies_are =
      ap (λ rs. rs ++ reply_of x s.engine ∷ []) h.replies_are
      ∙ ap (λ g. replies_of s.served start ++ reply_of x g ∷ []) h.engine_is
      ∙ sym (replies_of-append s.served x start);
  book_is = submit-IsSound x.clock x.now s.engine x.job.req h.book_is;
  fifo =
      subst (λ d. IsFifo jobs_capacity s.sent d (record (s.jobs) { buffer = rest }))
        (sym (jobs_of-append s.served x)) (receive-IsFifo x.job rest s.jobs e h.fifo);
  nothing_lost = h.nothing_lost;
}

Step-IsSerial : (start : Engine) {s s' : Server} → Step s s' → IsSerial start s → IsSerial start s'
Step-IsSerial start (sending s r j handled room) h = send_job-IsSerial start s j room h
Step-IsSerial start (serving s x rest e) h = serve_job-IsSerial start s x rest e h
Step-IsSerial start (reading s x before after there snap) h = record {
  engine_is = h.engine_is;
  replies_are = h.replies_are;
  book_is = h.book_is;
  fifo = h.fifo;
  nothing_lost = h.nothing_lost;
}

new_engine-IsSound : (policy : StpPolicy) → IsSound (record new_engine { stp_policy = policy }).bk
unfolding new_engine
new_engine-IsSound policy = record { bids_ordered = tt; asks_ordered = tt; uncrossed = tt }

-- Whatever the handlers send and in whatever order it happens, the replies so far and the engine are those
-- of the jobs served one after the other, from the start of the engine and in the order in which they were
-- sent; the others wait, at most 16,384 of them, none is lost, and the book is sound.
pub Reach-IsSerial :
    (policy : StpPolicy) (s : Server)
    → Reach policy s
    → IsSerial (record new_engine { stp_policy = policy }) s
unfolding engine_after replies_of
Reach-IsSerial policy s here = record {
  engine_is = refl;
  replies_are = refl;
  book_is = new_engine-IsSound policy;
  fifo = make-IsFifo jobs_capacity;
  nothing_lost = refl;
}
Reach-IsSerial policy s (next r step) = Step-IsSerial _ step (Reach-IsSerial policy _ r)

-- The request of a snapshot changes nothing.
submit_snap : (clock : ℕ → ℕ) (now : ℕ) (e : Engine) → (submit clock now e snap_request).0 ≡ e
unfolding submit refusal
submit_snap clock now e = refl
