-- ===== src/Fleet/Launches.antt =====
-- services/botfleet/cmd/main.go: the runs of the whole fleet, over every sequence of messages, claims,
-- expiries and ends of runs.
use mathlib.Core.Path.{subst}
use quantime.Prelude.{
  ◌∙◌, ap, ◌≤◌, ℕ, ◌+◌, ◌<◌, ◌≡◌, ◌≢◌, refl, sym, inl, inr, true, false, Option, none, some, List,
  [], ◌∷◌, ◌==◌, arith, Bool-cases, All, All-map,
}
use quantime.Fleet.Control.{StartCmd, run_fleet, Replica, on_control, Launch, bot_id}
use quantime.Fleet.Steps.{
  System, with_replica, incr, find_waiting, launched, claim, finish, receive, expire, pass, is_due,
  Step, receives, claims, expires, passes, finishes, Reach, here, next,
}
use quantime.Fleet.Supervisors.{
  IsSupervised, on_control-IsSupervised, remove_job-IsSupervised, mark_launched-IsSupervised,
}

-- Two launches, the first one later.
abbrev pub IsLater : Launch → Launch → Type 0
IsLater l m = l.cmd.run_id ≡ m.cmd.run_id → l.era ≡ m.era → m.replica_idx < l.replica_idx

abbrev pub AllLater : List Launch → Type 0
AllLater [] = Unit
AllLater (l ∷ ls) = All (IsLater l) ls × AllLater ls

-- A launch since the run's key expired last has an index below the counter.
abbrev pub IsCounted : (ℕ → ℕ) → (ℕ → ℕ) → Launch → Type 0
IsCounted counters eras l =
    (l.era ≤ eras l.cmd.run_id)
    × (l.era ≡ eras l.cmd.run_id → l.replica_idx < counters l.cmd.run_id)

pub record IsSound (s : System) : Type 0 where
  pub supervised : (n : ℕ) → IsSupervised (s.replicas n)
  pub counted : All (IsCounted s.counters s.eras) s.launches
  pub later : AllLater s.launches

with_replica-IsSupervised :
    (s : System) (n : ℕ) (r : Replica)
    → ((k : ℕ) → IsSupervised (s.replicas k))
    → IsSupervised r
    → (k : ℕ) → IsSupervised ((with_replica s n r).replicas k)
with_replica-IsSupervised s n r h h' k = elim (Bool-cases (k == n)) [
  | inl same ↦ rw same h'
  | inr other ↦ rw other (h k)
]

with_replica-IsSound :
    (s : System) (n : ℕ) (r : Replica) → IsSound s → IsSupervised r → IsSound (with_replica s n r)
with_replica-IsSound s n r h h' = record {
  supervised = with_replica-IsSupervised s n r h.supervised h';
  counted = h.counted;
  later = h.later;
}

counted-incr :
    (counters eras : ℕ → ℕ) (run : ℕ) (l : Launch)
    → IsCounted counters eras l
    → IsCounted (incr counters run) eras l
counted-incr counters eras run l h = (h.0, λ now. ground (arith, h.1 now))

counted-pass :
    (s : System) (seconds : ℕ) (l : Launch)
    → IsCounted s.counters s.eras l
    → IsCounted (pass s seconds).counters (pass s seconds).eras l
unfolding pass
counted-pass s seconds l h =
    elim (Bool-cases (is_due (s.deadlines l.cmd.run_id) (s.clock + seconds))) [
      | inl due ↦ rw due (omega (arith, h.0), λ now. omega (arith, h.0, now))
      | inr later ↦ rw later h
    ]

abbrev new_launch : System → ℕ → StartCmd → Launch
new_launch s n c = record {
  cmd = c;
  bots = (s.replicas n).bots;
  replica_idx = s.counters c.run_id;
  era = s.eras c.run_id;
}

new_launch-IsLater :
    (s : System) (n : ℕ) (c : StartCmd) (l : Launch)
    → IsCounted s.counters s.eras l
    → IsLater (new_launch s n c) l
new_launch-IsLater s n c l h run era =
    subst (λ r. l.replica_idx < s.counters r) (sym run) (h.1 (sym era ∙ ap s.eras run))

launched-IsSound : (s : System) (n : ℕ) (o : Option StartCmd) → IsSound s → IsSound (launched s n o)
launched-IsSound s n none h = h
launched-IsSound s n (some c) h = record {
  supervised =
      with_replica-IsSupervised s n _ h.supervised
        (mark_launched-IsSupervised c.run_id (s.replicas n) (h.supervised n));
  counted = (
    (omega arith, λ now. ground arith),
    All-map (IsCounted s.counters s.eras) (IsCounted (incr s.counters c.run_id) s.eras)
        (counted-incr s.counters s.eras c.run_id) s.launches h.counted,
  );
  later = (
    All-map (IsCounted s.counters s.eras) (IsLater (new_launch s n c)) (new_launch-IsLater s n c)
        s.launches h.counted,
    h.later,
  );
}

Step-IsSound : {s s' : System} → Step s s' → IsSound s → IsSound s'
unfolding receive claim finish expire pass
Step-IsSound (receives s n m) h =
    with_replica-IsSound s n (on_control m (s.replicas n)) h
      (on_control-IsSupervised m (s.replicas n) (h.supervised n))
Step-IsSound (claims s n run) h = launched-IsSound s n (find_waiting run (s.replicas n).jobs) h
Step-IsSound (expires s n run) h = record {
  supervised = h.supervised;
  counted = h.counted;
  later = h.later;
}
Step-IsSound (passes s seconds) h = record {
  supervised = h.supervised;
  counted =
      All-map (IsCounted s.counters s.eras)
        (IsCounted (pass s seconds).counters (pass s seconds).eras) (counted-pass s seconds)
        s.launches h.counted;
  later = h.later;
}
Step-IsSound (finishes s n run) h =
    with_replica-IsSound s n _ h (remove_job-IsSupervised run (s.replicas n) (h.supervised n))

-- Whatever commands the replicas receive, in whatever order they claim their indices, their runs end and
-- the keys in Redis expire: the map of every replica has exactly its goroutines, one for each run; the
-- launches of a run between which its key did not expire have increasing replica indices; and those since it
-- expired last have indices below the run's counter.
pub Reach-IsSound : (bots : ℕ → ℕ) (s : System) → Reach bots s → IsSound s
Reach-IsSound bots s here = record {
  supervised = λ n. record { supervisors_are = refl; once = tt };
  counted = tt;
  later = tt;
}
Reach-IsSound bots s (next r step) = Step-IsSound step (Reach-IsSound bots _ r)

-- Two launches of a run share no bot and do not both publish the summary.
pub record IsApart (l m : Launch) : Type 0 where
  pub one_summary : (run_fleet l).publishes_summary ≡ true → (run_fleet m).publishes_summary ≡ false
  pub own_bots : (i j : ℕ) → l.bots ≡ m.bots → i < l.bots → j < m.bots → bot_id l i ≢ bot_id m j

abbrev pub ApartIfSame : Launch → Launch → Type 0
ApartIfSame l m = l.cmd.run_id ≡ m.cmd.run_id → l.era ≡ m.era → IsApart l m

abbrev pub AllApart : List Launch → Type 0
AllApart [] = Unit
AllApart (l ∷ ls) = All (ApartIfSame l) ls × AllApart ls
