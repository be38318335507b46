-- ===== src/Sandbox/Save.antt =====
-- services/gateway/internal/sandbox/sandbox.go: SaveSource, extractTarGz and extractTar. The readers of the
-- archive formats are parameters, and so is what the calls on the operating system do: `os.RemoveAll` may
-- fail and leave anything, and `os.Stat` may fail for what exists. Nothing else is taken to write below the
-- directory.
use quantime.Prelude.{
  ℕ, Bool, true, false, ◌&&◌, ◌||◌, Option, none, some, List, [], ◌∷◌, ◌++◌, ◌==◌, if◌then◌else◌,
  All,
}
use quantime.Sandbox.Paths.{Component, Name}
use quantime.Sandbox.Inside.{IsPlain}
use quantime.Sandbox.Extract.{
  Entry, File, Extraction, no_extraction, open_error, Result, done, failed, TarStream,
  extract_tar_reader, extract_zip_files,
}
use quantime.Sandbox.Limits.{IsWithin, IsBounded, within-IsLeft}
use quantime.Sandbox.Archives.{extract_tar-IsBounded, extract_zip-IsBounded, no_extraction-IsWithin}

pub record Readers : Type 0 where
  pub read_gzip : List ℕ → Option TarStream
  pub read_zip : List ℕ → Option (List Entry)
  pub read_tar : List ℕ → TarStream

pub data Format : Type 0 where
  tar_gz zip tar : Format

-- The first two, or four, bytes.
abbrev pub is_gzip : List ℕ → Bool
is_gzip [] = false
is_gzip (a ∷ []) = false
is_gzip (a ∷ b ∷ _) = a == 31 && b == 139

abbrev pub is_zip : List ℕ → Bool
is_zip [] = false
is_zip (a ∷ []) = false
is_zip (a ∷ b ∷ []) = false
is_zip (a ∷ b ∷ c ∷ []) = false
is_zip (a ∷ b ∷ c ∷ d ∷ _) = a == 80 && b == 75 && c == 3 && d == 4

abbrev pub format_of : List ℕ → Format
format_of archive = if is_gzip archive then tar_gz else if is_zip archive then zip else tar

abbrev pub extract_tar_gz : Name → Option TarStream → Result
extract_tar_gz dst none = failed open_error no_extraction
extract_tar_gz dst (some s) = extract_tar_reader dst s no_extraction

abbrev pub extract_zip : Name → Option (List Entry) → Result
extract_zip dst none = failed open_error no_extraction
extract_zip dst (some es) = extract_zip_files dst es no_extraction

abbrev pub extract_as : Readers → Name → List ℕ → Format → Result
extract_as readers dst archive tar_gz = extract_tar_gz dst (readers.read_gzip archive)
extract_as readers dst archive zip = extract_zip dst (readers.read_zip archive)
extract_as readers dst archive tar = extract_tar_reader dst (readers.read_tar archive) no_extraction

unfoldable pub extract_archive : Readers → Name → List ℕ → Result
unfolding extract_tar_reader extract_zip_files
extract_archive readers dst archive = extract_as readers dst archive (format_of archive)

abbrev pub same_bytes : List ℕ → List ℕ → Bool
same_bytes [] [] = true
same_bytes [] (d ∷ ds) = false
same_bytes (c ∷ cs) [] = false
same_bytes (c ∷ cs) (d ∷ ds) = c == d && same_bytes cs ds

-- A path that makes another one exist: that one, or one below it.
abbrev pub reaches : List Component → List Component → Bool
reaches [] path = true
reaches (c ∷ cs) [] = false
reaches (c ∷ cs) (d ∷ ds) = same_bytes c d && reaches cs ds

abbrev pub any_file : List Component → List File → Bool
any_file path [] = false
any_file path (f ∷ fs) = reaches path f.path || any_file path fs

abbrev pub any_dir : List Component → List (List Component) → Bool
any_dir path [] = false
any_dir path (d ∷ ds) = reaches path d || any_dir path ds

-- "Dockerfile"
abbrev pub dockerfile : Component
dockerfile = 68 ∷ 111 ∷ 99 ∷ 107 ∷ 101 ∷ 114 ∷ 102 ∷ 105 ∷ 108 ∷ 101 ∷ []

-- What is below the directory: what an earlier attempt left, and what this one extracts.
pub record Disk : Type 0 where
  pub stale : List (List Component)
  pub extracted : Option Extraction

abbrev pub nothing : Disk
nothing = record { stale = []; extracted = none }

-- What the operating system does: what the `os.RemoveAll` at the start, and the one after an error, leave if
-- they fail, `none` if they succeed; and whether `os.MkdirAll` fails, and `os.Stat` for another reason than
-- that there is no such file.
pub record Os : Type 0 where
  pub first_leaves : Option (List (List Component))
  pub mkdir_fails : Bool
  pub stat_fails : Bool
  pub last_leaves : Option Disk

abbrev pub first_left : Option (List (List Component)) → List (List Component)
first_left none = []
first_left (some paths) = paths

abbrev pub last_left : Option Disk → Disk
last_left none = nothing
last_left (some disk) = disk

-- What is below the directory at the end, and the path that is returned, `none` for an error.
pub record Saved : Type 0 where
  pub disk : Disk
  pub dir : Option (List Component)

abbrev pub removed : Os → Saved
removed os = record { disk = last_left os.last_leaves; dir = none }

abbrev pub has_dockerfile : Name → List (List Component) → Extraction → Bool
has_dockerfile dst stale st =
    let path = dst.components ++ (dockerfile ∷ []) in
    any_file path st.files || any_dir path st.dirs || any_dir path stale

abbrev pub check_dockerfile : Name → Os → Result → Saved
check_dockerfile dst os (failed e st) = removed os
check_dockerfile dst os (done st) =
    let stale = first_left os.first_leaves in
    if os.stat_fails || has_dockerfile dst stale st
    then record { disk = record { stale = stale; extracted = some st }; dir = some dst.components }
    else removed os

abbrev pub not_made : Os → Saved
not_made os = record {
  disk = record { stale = first_left os.first_leaves; extracted = none };
  dir = none;
}

unfoldable pub save_source : Readers → Name → Os → List ℕ → Saved
unfolding extract_archive
save_source readers dst os archive =
    let saved = check_dockerfile dst os (extract_archive readers dst archive) in
    if os.mkdir_fails then not_made os else saved

-- An extraction into a directory with a plain path, whatever the archive and the operating system do,
-- creates files and directories inside it only, at most 5000 files of at most 64 MB each and of at most
-- 256 MB together; if it fails, of at most 320 MB. The directory that holds it may be made too.
pub extract_archive-IsBounded :
    (readers : Readers) (dst : Name) (archive : List ℕ)
    → All IsPlain dst.components
    → IsBounded dst.components (extract_archive readers dst archive)
unfolding extract_archive
extract_archive-IsBounded readers dst archive plain = bounded (format_of archive)
  where
    empty : IsWithin dst.components no_extraction
    empty = no_extraction-IsWithin dst.components

    bounded_gzip : (s : Option TarStream) → IsBounded dst.components (extract_tar_gz dst s)
    bounded_gzip none = within-IsLeft empty
    bounded_gzip (some s) = extract_tar-IsBounded dst plain s no_extraction empty

    bounded_zip : (es : Option (List Entry)) → IsBounded dst.components (extract_zip dst es)
    bounded_zip none = within-IsLeft empty
    bounded_zip (some es) = extract_zip-IsBounded dst plain es no_extraction empty

    bounded : (f : Format) → IsBounded dst.components (extract_as readers dst archive f)
    bounded tar_gz = bounded_gzip (readers.read_gzip archive)
    bounded zip = bounded_zip (readers.read_zip archive)
    bounded tar = extract_tar-IsBounded dst plain (readers.read_tar archive) no_extraction empty
