-- ===== src/Fleet/Supervisors.antt =====
-- services/botfleet/cmd/main.go: the map of supervisors has the goroutines of a replica.
use mathlib.Core.Path.{subst}
use quantime.Prelude.{
  ℕ, ◌≡◌, refl, ap, sym, ◌∙◌, inl, inr, false, none, some, List, [], ◌∷◌, map, ◌==◌, arith,
  Bool-cases,
}
use quantime.Fleet.Control.{
  StartCmd, Message, bad_json, unknown_type, start, cancel, Job, Replica, has_run, delete, on_start,
  on_cancel, on_control, cancel_job,
}
use quantime.Fleet.Steps.{waits_for, mark_launched, remove_job}

abbrev pub runs_of : List Job → List ℕ
runs_of [] = []
runs_of (j ∷ js) = j.cmd.run_id ∷ runs_of js

abbrev pub NoDup : List ℕ → Type 0
NoDup [] = Unit
NoDup (r ∷ rs) = (has_run r rs ≡ false) × NoDup rs

-- The map of a replica has its goroutines, each run once.
pub record IsSupervised (r : Replica) : Type 0 where
  pub supervisors_are : r.supervisors ≡ runs_of r.jobs
  pub once : NoDup r.supervisors

runs_of-cancel_job : (run : ℕ) (js : List Job) → runs_of (map (cancel_job run) js) ≡ runs_of js
runs_of-cancel_job run [] = refl
runs_of-cancel_job run (j ∷ js) = elim (Bool-cases (j.cmd.run_id == run)) [
  | inl same ↦ rw same (ap (λ rs. j.cmd.run_id ∷ rs) (runs_of-cancel_job run js))
  | inr other ↦ rw other (ap (λ rs. j.cmd.run_id ∷ rs) (runs_of-cancel_job run js))
]

pub runs_of-mark_launched :
    (run : ℕ) (js : List Job) → runs_of (map (mark_launched run) js) ≡ runs_of js
runs_of-mark_launched run [] = refl
runs_of-mark_launched run (j ∷ js) = elim (Bool-cases (waits_for run j)) [
  | inl waits ↦ rw waits (ap (λ rs. j.cmd.run_id ∷ rs) (runs_of-mark_launched run js))
  | inr goes ↦ rw goes (ap (λ rs. j.cmd.run_id ∷ rs) (runs_of-mark_launched run js))
]

delete-absent : (run : ℕ) (rs : List ℕ) → has_run run rs ≡ false → delete run rs ≡ rs
delete-absent run [] h = refl
delete-absent run (r ∷ rs) h = ground (arith, delete-absent run rs)

pub delete-remove_job :
    (run : ℕ) (js : List Job)
    → NoDup (runs_of js)
    → delete run (runs_of js) ≡ runs_of (remove_job run js)
delete-remove_job run [] d = refl
delete-remove_job run (j ∷ js) d =
    ground (arith, delete-absent run (runs_of js), delete-remove_job run js d.1, d.0)

has_run-delete :
    (r run : ℕ) (rs : List ℕ) → has_run r rs ≡ false → has_run r (delete run rs) ≡ false
has_run-delete r run [] h = refl
has_run-delete r run (s ∷ rs) h = ground (arith, has_run-delete r run rs)

pub NoDup-delete : (run : ℕ) (rs : List ℕ) → NoDup rs → NoDup (delete run rs)
NoDup-delete run [] d = tt
NoDup-delete run (r ∷ rs) d = elim (Bool-cases (run == r)) [
  | inl same ↦ rw same (NoDup-delete run rs d.1)
  | inr other ↦ rw other (has_run-delete r run rs d.0, NoDup-delete run rs d.1)
]

on_start-IsSupervised : (c : StartCmd) (r : Replica) → IsSupervised r → IsSupervised (on_start c r)
on_start-IsSupervised c r h = elim (Bool-cases (has_run c.run_id r.supervisors)) [
  | inl runs ↦ rw runs record { supervisors_are = h.supervisors_are; once = h.once }
  | inr idle ↦
      rw idle record {
        supervisors_are = ap (λ rs. c.run_id ∷ rs) h.supervisors_are;
        once = (idle, h.once);
      }
]

on_cancel-IsSupervised : (run : ℕ) (r : Replica) → IsSupervised r → IsSupervised (on_cancel run r)
on_cancel-IsSupervised run r h = elim (Bool-cases (has_run run r.supervisors)) [
  | inl runs ↦ rw runs record {
    supervisors_are = h.supervisors_are ∙ sym (runs_of-cancel_job run r.jobs);
    once = h.once;
  }
  | inr idle ↦ rw idle h
]

pub on_control-IsSupervised :
    (m : Message) (r : Replica) → IsSupervised r → IsSupervised (on_control m r)
unfolding on_control
on_control-IsSupervised bad_json r h = h
on_control-IsSupervised unknown_type r h = h
on_control-IsSupervised (start none) r h = h
on_control-IsSupervised (start (some c)) r h = on_start-IsSupervised c r h
on_control-IsSupervised (cancel none) r h = h
on_control-IsSupervised (cancel (some run)) r h = on_cancel-IsSupervised run r h

pub remove_job-IsSupervised :
    (run : ℕ) (r : Replica)
    → IsSupervised r
    → IsSupervised
        (record r { supervisors = delete run r.supervisors; jobs = remove_job run r.jobs })
remove_job-IsSupervised run r h = record {
  supervisors_are =
      ap (delete run) h.supervisors_are
      ∙ delete-remove_job run r.jobs (subst NoDup h.supervisors_are h.once);
  once = NoDup-delete run r.supervisors h.once;
}

pub mark_launched-IsSupervised :
    (run : ℕ) (r : Replica)
    → IsSupervised r
    → IsSupervised (record r { jobs = map (mark_launched run) r.jobs })
mark_launched-IsSupervised run r h = record {
  supervisors_are = h.supervisors_are ∙ sym (runs_of-mark_launched run r.jobs);
  once = h.once;
}
