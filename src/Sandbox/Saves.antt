-- ===== src/Sandbox/Saves.antt =====
-- services/gateway/internal/sandbox/sandbox.go, SaveSource: what it leaves below the directory.
use quantime.Prelude.{
  arith, ap, ℕ, ◌≡◌, refl, ◌⊎◌, inl, inr, Bool, true, false, ◌||◌, Option, none, some, List, [],
  if◌then◌else◌, Bool-cases, Option-cases, All,
}
use quantime.Sandbox.Paths.{Component, Name}
use quantime.Sandbox.Inside.{IsPlain}
use quantime.Sandbox.Extract.{ExtractError, Extraction, Result, done, failed}
use quantime.Sandbox.Limits.{IsWithin, IsBounded}
use quantime.Sandbox.Save.{
  Readers, Disk, nothing, Os, first_left, last_left, Saved, removed, has_dockerfile,
  check_dockerfile, not_made, extract_archive, extract_archive-IsBounded, save_source,
}

-- The result of saving, after an extraction: the directory, with what was extracted, within the limits, a
-- Dockerfile unless `os.Stat` failed, and nothing else unless the first `os.RemoveAll` failed.
pub record IsKept (dst : Name) (os : Os) (r : Result) (s : Saved) : Type 0 where
  pub returned : s.dir ≡ some dst.components
  pub extraction : Extraction
  pub extracts : r ≡ done extraction
  pub extracted_is : s.disk.extracted ≡ some extraction
  pub within : IsWithin dst.components extraction
  pub dockerfile_there :
      (has_dockerfile dst s.disk.stale extraction ≡ true) ⊎ (os.stat_fails ≡ true)
  pub only :
      (s.disk.stale ≡ [])
      ⊎ ((left : List (List Component)) × (os.first_leaves ≡ some left) × (s.disk.stale ≡ left))

-- Why an error is returned.
abbrev pub IsFailure : Name → Os → Result → Type 0
IsFailure dst os r =
    (os.mkdir_fails ≡ true)
    ⊎ ((e : ExtractError) × (st : Extraction) × (r ≡ failed e st))
    ⊎ ((st : Extraction) × (r ≡ done st)
        × (has_dockerfile dst (first_left os.first_leaves) st ≡ false))

-- An error, and nothing there unless an `os.RemoveAll` failed.
pub record IsUndone (dst : Name) (os : Os) (r : Result) (s : Saved) : Type 0 where
  pub refused : s.dir ≡ none
  pub because : IsFailure dst os r
  pub gone :
      (s.disk ≡ nothing)
      ⊎ ((left : List (List Component)) × (os.first_leaves ≡ some left))
      ⊎ ((left : Disk) × (os.last_leaves ≡ some left))

abbrev pub IsSaved : Name → Os → Result → Saved → Type 0
IsSaved dst os r s = IsKept dst os r s ⊎ IsUndone dst os r s

removed-IsUndone :
    (dst : Name) (os : Os) (r : Result) → IsFailure dst os r → IsUndone dst os r (removed os)
removed-IsUndone dst os r why = elim (Option-cases os.last_leaves) [
  | inl e ↦ record { refused = refl; because = why; gone = inl (ap last_left e) }
  | inr (left, e) ↦ record { refused = refl; because = why; gone = inr (inr (left, e)) }
]

not_made-IsUndone :
    (dst : Name) (os : Os) (r : Result) → os.mkdir_fails ≡ true → IsUndone dst os r (not_made os)
not_made-IsUndone dst os r fails = elim (Option-cases os.first_leaves) [
  | inl e ↦ record {
    refused = refl;
    because = inl fails;
    gone = inl (ap (λ o. record { stale = first_left o; extracted = none }) e);
  }
  | inr (left, e) ↦ record { refused = refl; because = inl fails; gone = inr (inl (left, e)) }
]

first_left-only :
    (o : Option (List (List Component)))
    → (first_left o ≡ [])
      ⊎ ((left : List (List Component)) × (o ≡ some left) × (first_left o ≡ left))
first_left-only none = inl refl
first_left-only (some left) = inr (left, refl, refl)

check_dockerfile-IsSaved :
    (dst : Name) (os : Os) (r : Result)
    → IsBounded dst.components r
    → IsSaved dst os r (check_dockerfile dst os r)
check_dockerfile-IsSaved dst os (failed e st) b =
    inr (removed-IsUndone dst os (failed e st) (inr (inl (e, st, refl))))
check_dockerfile-IsSaved dst os (done st) b = kept (Bool-cases (os.stat_fails || found))
  where
    stale : List (List Component)
    stale = first_left os.first_leaves

    found : Bool
    found = has_dockerfile dst stale st

    kept :
        (os.stat_fails || found ≡ true) ⊎ (os.stat_fails || found ≡ false)
        → IsSaved dst os (done st) (check_dockerfile dst os (done st))
    kept (inr missing) =
        rw missing
          (inr (removed-IsUndone dst os (done st) (inr (inr (st, refl, ground (arith, missing))))))
    kept (inl ok) = rw ok (
        inl (record {
          returned = refl;
          extraction = st;
          extracts = refl;
          extracted_is = refl;
          within = b;
          dockerfile_there = ground (arith, ok);
          only = first_left-only os.first_leaves;
        }))

either-IsSaved :
    {dst : Name} {os : Os} {r : Result} (b : Bool) (s s' : Saved)
    → (b ≡ true → IsSaved dst os r s)
    → IsSaved dst os r s'
    → IsSaved dst os r (if b then s else s')
either-IsSaved true s s' h h' = h refl
either-IsSaved false s s' h h' = h'

-- SaveSource into a directory with a plain path, whatever the archive and where RemoveAll, MkdirAll and
-- Stat fail too, either returns an error, because MkdirAll or the extraction failed or there is no
-- Dockerfile, and leaves nothing of the directory, unless a RemoveAll failed; or returns the directory, with
-- what was extracted within the limits on paths, files and bytes, a Dockerfile at its root, unless Stat
-- failed, and nothing else, unless the first RemoveAll failed.
pub save_source-IsSaved :
    (readers : Readers) (dst : Name) (os : Os) (archive : List ℕ)
    → All IsPlain dst.components
    → IsSaved dst os (extract_archive readers dst archive) (save_source readers dst os archive)
unfolding save_source
save_source-IsSaved readers dst os archive plain =
    let r = extract_archive readers dst archive in
    either-IsSaved os.mkdir_fails (not_made os) (check_dockerfile dst os r)
      (λ fails. inr (not_made-IsUndone dst os r fails))
      (check_dockerfile-IsSaved dst os r (extract_archive-IsBounded readers dst archive plain))
