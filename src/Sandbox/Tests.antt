-- ===== src/Sandbox/Tests.antt =====
-- The theorems on services/gateway/internal/sandbox at concrete inputs.
use quantime.Prelude.{◌+◌, ◌*◌, ◌≡◌, refl, true, false, none, some, [], ◌∷◌, arith}
use quantime.Sandbox.Paths.{Name, clean, is_skipped}
use quantime.Sandbox.Extract.{Entry, regular_entry, dir_entry, eof, entry}
use quantime.Sandbox.Limits.{IsBounded}
use quantime.Sandbox.Save.{
  Readers, Os, dockerfile, extract_archive, extract_archive-IsBounded, save_source,
}
use quantime.Sandbox.Saves.{IsSaved, save_source-IsSaved}
use quantime.Sandbox.Run.{
  state, running, other_health, Waited, Rounds, wait_healthy, wait_fuel, max_wait,
}
use quantime.Sandbox.Waits.{IsWaited, wait_healthy-IsWaited}

abbrev submission_dir : Name
submission_dir = record { rooted = true; components = (115 ∷ []) ∷ (49 ∷ []) ∷ [] }

abbrev the_dockerfile : Entry
the_dockerfile = record {
  name = 46 ∷ 47 ∷ dockerfile;
  type = regular_entry;
  size = 120;
  mkdir_fails = false;
  open_fails = false;
  create_fails = false;
  copy_fails_after = none;
}

-- "../a"
abbrev goes_up : Entry
goes_up = record {
  name = 46 ∷ 46 ∷ 47 ∷ 97 ∷ [];
  type = dir_entry;
  size = 0;
  mkdir_fails = false;
  open_fails = false;
  create_fails = false;
  copy_fails_after = none;
}

-- "a//./b/../c"
clean_test :
    (clean (97 ∷ 47 ∷ 47 ∷ 46 ∷ 47 ∷ 98 ∷ 47 ∷ 46 ∷ 46 ∷ 47 ∷ 99 ∷ [])).components
    ≡ (97 ∷ []) ∷ (99 ∷ []) ∷ []
unfolding clean
clean_test = refl

skipped_test : is_skipped (clean goes_up.name) ≡ true
unfolding clean
skipped_test = refl

abbrev test_readers : Readers
test_readers = record {
  read_gzip = λ s. none;
  read_zip = λ s. some (the_dockerfile ∷ []);
  read_tar = λ s. entry goes_up (entry the_dockerfile eof);
}

extract_archive-IsBounded_example :
    IsBounded submission_dir.components (extract_archive test_readers submission_dir [])
extract_archive-IsBounded_example = extract_archive-IsBounded test_readers submission_dir [] (
  record { not_empty = refl; not_dot = refl; not_dotdot = refl },
  (record { not_empty = refl; not_dot = refl; not_dotdot = refl }, tt),
)

-- The first RemoveAll leaves a file, and Stat fails.
abbrev no_stat : Os
no_stat = record {
  first_leaves = some (((97 ∷ []) ∷ []) ∷ []);
  mkdir_fails = false;
  stat_fails = true;
  last_leaves = none;
}

saved_test :
    (save_source test_readers submission_dir no_stat []).dir ≡ some submission_dir.components
unfolding save_source
saved_test = refl

save_source-IsSaved_example :
    IsSaved submission_dir no_stat
      (extract_archive test_readers submission_dir [])
      (save_source test_readers submission_dir no_stat [])
save_source-IsSaved_example = save_source-IsSaved test_readers submission_dir no_stat [] (
  record { not_empty = refl; not_dot = refl; not_dotdot = refl },
  (record { not_empty = refl; not_dot = refl; not_dotdot = refl }, tt),
)

-- Never healthy, polled every half second.
abbrev test_rounds : Rounds
test_rounds = record {
  inspect = λ n. state running true other_health;
  clock = λ n. 1000 + n * 500;
  context_done = λ n. false;
}

wait_healthy-IsWaited_example :
    (r : Waited) × (wait_healthy test_rounds 1000 ≡ some r)
    × IsWaited test_rounds (1000 + max_wait) 0 wait_fuel r
wait_healthy-IsWaited_example =
    wait_healthy-IsWaited test_rounds 1000 (omega arith) (λ n. omega arith)
