-- ===== src/Telemetry/Live.antt =====
-- services/telemetry/cmd/main.go, `flusher` and `publishLive`: what the live snapshots count.
use quantime.Prelude.{
  ℕ, ◌+◌, ◌-◌, ◌≤◌, ◌≡◌, refl, Bool, true, false, List, [], ◌∷◌, ◌++◌, arith, All, ◌==◌,
  if◌then◌else◌,
}
use quantime.Telemetry.Rows.{Sample}
use quantime.Telemetry.Flusher.{
  RunAgg, Snapshot, Flusher, Event, sampled, ticked, lived, flush, bump, on_sample, live_run,
  publish_runs, accepted, refused, publish_live, step, run_events,
}

-- The orders of a run that are in a snapshot, and those that are only in the map yet.
unfoldable pub reported : ℕ → List Snapshot → ℕ
reported run [] = 0
reported run (s ∷ out) = (if s.run_id == run then s.tps else 0) + reported run out

unfoldable pub pending : ℕ → List (ℕ × RunAgg) → ℕ
pending run [] = 0
pending run ((k, a) ∷ m) = (if k == run then a.orders - a.last_orders else 0) + pending run m

-- The samples of a run among the events.
unfoldable pub samples_of : ℕ → List Event → ℕ
samples_of run [] = 0
samples_of run (sampled s inserts ∷ es) = (if s.run_id == run then 1 else 0) + samples_of run es
samples_of run (ticked inserts ∷ es) = samples_of run es
samples_of run (lived redis takes ∷ es) = samples_of run es

-- No run has reported more orders than it has.
abbrev pub IsCounted : List (ℕ × RunAgg) → Type 0
IsCounted m = All (λ e. e.1.last_orders ≤ e.1.orders) m

bump-IsCounted : (s : Sample) (m : List (ℕ × RunAgg)) → IsCounted m → IsCounted (bump s m)
unfolding bump
bump-IsCounted s [] h = ground arith
bump-IsCounted s ((k, a) ∷ m) h = ground (arith, bump-IsCounted s m h.1)

pending-bump :
    (run : ℕ) (s : Sample) (m : List (ℕ × RunAgg))
    → IsCounted m
    → pending run (bump s m) ≡ pending run m + (if s.run_id == run then 1 else 0)
unfolding pending bump
pending-bump run s [] h = ground arith
pending-bump run s ((k, a) ∷ m) h = ground (arith, pending-bump run s m h.1)

publish_runs-IsCounted : (m : List (ℕ × RunAgg)) → IsCounted m → IsCounted (publish_runs m).0
unfolding publish_runs live_run
publish_runs-IsCounted [] h = tt
publish_runs-IsCounted ((k, a) ∷ m) h = ground (arith, publish_runs-IsCounted m h.1)

publish_runs-counts :
    (run : ℕ) (m : List (ℕ × RunAgg))
    → reported run (publish_runs m).1 + pending run (publish_runs m).0 ≡ pending run m
unfolding publish_runs live_run reported pending
publish_runs-counts run [] = omega arith
publish_runs-counts run ((k, a) ∷ m) = ground (arith, publish_runs-counts run m)

reported-append :
    (run : ℕ) (xs ys : List Snapshot) → reported run (xs ++ ys) ≡ reported run xs + reported run ys
unfolding reported
reported-append run [] ys = omega arith
reported-append run (x ∷ xs) ys = omega (arith, reported-append run xs ys)

flush_aggs : (inserts : Bool) (f : Flusher) → (flush inserts f).aggs ≡ f.aggs
unfolding flush
flush_aggs inserts f = ground arith

flush_published : (inserts : Bool) (f : Flusher) → (flush inserts f).published ≡ f.published
unfolding flush
flush_published inserts f = ground arith

on_sample_aggs :
    (inserts : Bool) (s : Sample) (f : Flusher) → (on_sample inserts s f).aggs ≡ bump s f.aggs
unfolding on_sample
on_sample_aggs inserts s f =
    ground
      (arith, flush_aggs inserts (record f { batch = f.batch ++ s ∷ []; aggs = bump s f.aggs }))

on_sample_published :
    (inserts : Bool) (s : Sample) (f : Flusher) → (on_sample inserts s f).published ≡ f.published
unfolding on_sample
on_sample_published inserts s f =
    ground (
      arith,
      flush_published inserts (record f { batch = f.batch ++ s ∷ []; aggs = bump s f.aggs }),
    )

flush_lost : (inserts : Bool) (f : Flusher) → (flush inserts f).lost ≡ f.lost
unfolding flush
flush_lost inserts f = ground arith

on_sample_lost : (inserts : Bool) (s : Sample) (f : Flusher) → (on_sample inserts s f).lost ≡ f.lost
unfolding on_sample
on_sample_lost inserts s f =
    ground
      (arith, flush_lost inserts (record f { batch = f.batch ++ s ∷ []; aggs = bump s f.aggs }))

reported-accepted :
    (run : ℕ) (takes : ℕ → Bool) (out : List Snapshot)
    → reported run (accepted takes out) + reported run (refused takes out) ≡ reported run out
unfolding reported accepted refused
reported-accepted run takes [] = omega arith
reported-accepted run takes (s ∷ out) = ground (arith, reported-accepted run takes out)

-- What the service knows of a run's orders: those in a snapshot that Redis took, those in one that it did
-- not take, and those still to be reported.
abbrev pub account : ℕ → Flusher → ℕ
account run f = reported run f.published + reported run f.lost + pending run f.aggs

account-live :
    (run : ℕ) (redis : Bool) (takes : ℕ → Bool) (f : Flusher)
    → account run (publish_live redis takes f) ≡ account run f
unfolding publish_live
account-live run false takes f = refl
account-live run true takes f = omega (
  arith,
  reported-append run f.published (accepted takes (publish_runs f.aggs).1),
  reported-append run f.lost (refused takes (publish_runs f.aggs).1),
  reported-accepted run takes (publish_runs f.aggs).1,
  publish_runs-counts run f.aggs,
)

live-IsCounted :
    (redis : Bool) (takes : ℕ → Bool) (f : Flusher)
    → IsCounted f.aggs
    → IsCounted (publish_live redis takes f).aggs
unfolding publish_live
live-IsCounted false takes f h = h
live-IsCounted true takes f h = publish_runs-IsCounted f.aggs h

-- Each order of a run is in exactly one live snapshot, one that Redis took or one whose publishing failed,
-- or still to be reported: from a map of counters that are in order, what the snapshots report and what
-- the map holds grow together by the samples received, over every sequence of events, also where idle runs
-- are dropped and come back, without a Redis, and where publishing or inserts fail.
pub account-run_events :
    (run : ℕ) (es : List Event) (f : Flusher)
    → IsCounted f.aggs
    → account run (run_events es f) ≡ account run f + samples_of run es
unfolding run_events samples_of step
account-run_events run [] f h = omega arith
account-run_events run (sampled s inserts ∷ es) f h =
    let aggs = on_sample_aggs inserts s f in
    let published = on_sample_published inserts s f in
    let counted : IsCounted (on_sample inserts s f).aggs = rw aggs (bump-IsCounted s f.aggs h) in
    rw
      (
        account-run_events run es (on_sample inserts s f) counted,
        aggs,
        published,
        on_sample_lost inserts s f,
      )
      (omega (arith, pending-bump run s f.aggs h))
account-run_events run (ticked inserts ∷ es) f h =
    let aggs = flush_aggs inserts f in
    let published = flush_published inserts f in
    let counted : IsCounted (flush inserts f).aggs = rw aggs h in
    rw (account-run_events run es (flush inserts f) counted, aggs, published, flush_lost inserts f)
      refl
account-run_events run (lived redis takes ∷ es) f h =
    rw
      (
        account-run_events run es (publish_live redis takes f) (live-IsCounted redis takes f h),
        account-live run redis takes f,
      )
      refl
