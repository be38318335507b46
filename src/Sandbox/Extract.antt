-- ===== src/Sandbox/Extract.antt =====
-- services/gateway/internal/sandbox/sandbox.go: extractTarReader and extractZip. The archive readers give
-- the entries; what the operating system answers while an entry is handled comes with the entry. Every
-- call that creates a directory or a file and does not fail is kept, in reverse order.
use quantime.Prelude.{
  ℕ, ◌+◌, ◌*◌, ◌^◌, min, Bool, Option, none, some, List, [], ◌∷◌, ltb, if◌then◌else◌,
}
use quantime.Sandbox.Paths.{Component, Name, clean, is_skipped, join, parent}

pub data EntryType : Type 0 where
  dir_entry regular_entry other_entry : EntryType

-- The copy of a file's content fails after a number of bytes, or not.
pub record Entry : Type 0 where
  pub name : List ℕ
  pub type : EntryType
  pub size : ℕ
  pub mkdir_fails : Bool
  pub open_fails : Bool
  pub create_fails : Bool
  pub copy_fails_after : Option ℕ

pub record File : Type 0 where
  pub path : List Component
  pub bytes : ℕ

-- The calls so far, with `totalBytes` and `fileCount`.
pub record Extraction : Type 0 where
  pub dirs : List (List Component)
  pub files : List File
  pub total_bytes : ℕ
  pub file_count : ℕ

abbrev pub no_extraction : Extraction
no_extraction = record { dirs = []; files = []; total_bytes = 0; file_count = 0 }

pub data ExtractError : Type 0 where
  open_error next_error os_error copy_error too_many_files size_exceeded : ExtractError

pub data Result : Type 0 where
  done : Extraction → Result
  failed : ExtractError → Extraction → Result

abbrev pub max_files : ℕ
max_files = 5000

abbrev pub max_file_bytes : ℕ
max_file_bytes = 64 * 2 ^ 20

abbrev pub max_total_bytes : ℕ
max_total_bytes = 256 * 2 ^ 20

abbrev pub made_dir : List Component → Extraction → Extraction
made_dir path st = record st { dirs = path ∷ st.dirs }

abbrev pub counted : Extraction → Extraction
counted st = record st { file_count = st.file_count + 1 }

abbrev pub created : List Component → ℕ → Extraction → Extraction
created path n st = record st { files = record { path = path; bytes = n } ∷ st.files }

-- `io.Copy` of at most 64 MB, and the sum of the bytes so far.
abbrev pub copy : List Component → ℕ → Option ℕ → Extraction → (Extraction → Result) → Result
copy target size (some k) st continue =
    failed copy_error (created target (min k (min size max_file_bytes)) st)
copy target size none st continue =
    let written = min size max_file_bytes in
    let st' = record (created target written st) { total_bytes = st.total_bytes + written } in
    let later = continue st' in
    if ltb max_total_bytes st'.total_bytes then failed size_exceeded st' else later

-- The handling of an entry, before the next ones.
abbrev pub Handler : Type 0
Handler = List Component → Entry → Extraction → (Extraction → Result) → Result

unfoldable pub extract_dir : Handler
extract_dir target e st continue =
    let later = continue (made_dir target st) in if e.mkdir_fails then failed os_error st else later

unfoldable pub extract_tar_file : Handler
extract_tar_file target e st continue =
    let st₁ = counted st in
    let st₂ = made_dir (parent target) st₁ in
    let later = copy target e.size e.copy_fails_after st₂ continue in
    if ltb max_files st₁.file_count
    then failed too_many_files st₁
    else if e.mkdir_fails
    then failed os_error st₁
    else if e.create_fails
    then failed os_error st₂
    else later

abbrev pub skip_entry : Handler
skip_entry target e st continue = continue st

abbrev pub extract_tar_entry : EntryType → Handler
extract_tar_entry dir_entry = extract_dir
extract_tar_entry regular_entry = extract_tar_file
extract_tar_entry other_entry = skip_entry

unfoldable pub extract_zip_file : Handler
extract_zip_file target e st continue =
    let st₁ = made_dir (parent target) st in
    let st₂ = counted st₁ in
    let later = copy target e.size e.copy_fails_after st₂ continue in
    if e.mkdir_fails
    then failed os_error st
    else if ltb max_files st₂.file_count
    then failed too_many_files st₂
    else if e.open_fails
    then failed os_error st₂
    else if e.create_fails
    then failed os_error st₂
    else later

-- Of a zip archive, what is no directory is a file.
abbrev pub extract_zip_entry : EntryType → Handler
extract_zip_entry dir_entry = extract_dir
extract_zip_entry regular_entry = extract_zip_file
extract_zip_entry other_entry = extract_zip_file

-- What `tr.Next` gives: entries, and then the end or an error.
pub data TarStream : Type 0 where
  eof : TarStream
  broken : TarStream
  entry : Entry → TarStream → TarStream

module _ (dst : Name) where
  abbrev pub unless_skipped : Handler → Entry → Extraction → (Extraction → Result) → Result
  unless_skipped handler e st continue =
      let n = clean e.name in
      let handled = handler (join dst n.components) e st continue in
      if is_skipped n then continue st else handled

  unfoldable pub extract_tar_reader : TarStream → Extraction → Result
  unfolding extract_dir extract_tar_file clean join
  extract_tar_reader eof st = done st
  extract_tar_reader broken st = failed next_error st
  extract_tar_reader (entry e rest) st =
      unless_skipped (extract_tar_entry e.type) e st (extract_tar_reader rest)

  unfoldable pub extract_zip_files : List Entry → Extraction → Result
  unfolding extract_dir extract_zip_file clean join
  extract_zip_files [] st = done st
  extract_zip_files (e ∷ es) st =
      unless_skipped (extract_zip_entry e.type) e st (extract_zip_files es)
