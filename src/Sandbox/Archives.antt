-- ===== src/Sandbox/Archives.antt =====
-- services/gateway/internal/sandbox/sandbox.go: the limits and the path check hold over whole archives.
use quantime.Prelude.{◌+◌, refl, inl, inr, List, [], ◌∷◌, ltb, arith, Bool-cases, ltb→le, All}
use quantime.Sandbox.Paths.{Component, Name, clean, is_skipped, join}
use quantime.Sandbox.Inside.{IsPlain, IsInside, join-IsInside, parent-IsParent}
use quantime.Sandbox.Extract.{
  EntryType, dir_entry, regular_entry, other_entry, Entry, Extraction, no_extraction, Result,
  max_files, made_dir, Handler, extract_dir, extract_tar_file, extract_zip_file, skip_entry,
  extract_tar_entry, extract_zip_entry, unless_skipped, TarStream, eof, broken, entry,
  extract_tar_reader, extract_zip_files,
}
use quantime.Sandbox.Limits.{
  IsWithin, IsBounded, within-IsLeft, made_dir-IsWithin, counted-IsLeft, counted-IsWithin,
  copy-IsBounded,
}

-- What handles an entry keeps the limits if what comes after it does.
KeepsLimits : List Component → Handler → Type 0
KeepsLimits dst handler =
    (target : List Component) (e : Entry) (st : Extraction) (continue : Extraction → Result)
    → IsInside dst target
    → IsWithin dst st
    → ((st' : Extraction) → IsWithin dst st' → IsBounded dst (continue st'))
    → IsBounded dst (handler target e st continue)

extract_dir-KeepsLimits : (dst : List Component) → KeepsLimits dst extract_dir
unfolding extract_dir KeepsLimits
extract_dir-KeepsLimits dst target e st continue i w go = elim (Bool-cases e.mkdir_fails) [
  | inl fails ↦ rw fails (within-IsLeft w)
  | inr fine ↦ rw fine (go (made_dir target st) (made_dir-IsWithin (inl i) w))
]

extract_tar_file-KeepsLimits : (dst : List Component) → KeepsLimits dst extract_tar_file
unfolding extract_tar_file KeepsLimits
extract_tar_file-KeepsLimits dst target e st continue i w go =
    elim (Bool-cases (ltb max_files (st.file_count + 1))) [
      | inl many ↦ rw many (counted-IsLeft w)
      | inr few ↦
          let c = counted-IsWithin w (ltb→le max_files (st.file_count + 1) few) in
          let m = made_dir-IsWithin (parent-IsParent dst target i) c in
          elim (Bool-cases e.mkdir_fails) [
            | inl fails ↦ rw (few, fails) (within-IsLeft c)
            | inr fine ↦ elim (Bool-cases e.create_fails) [
              | inl stops ↦ rw (few, fine, stops) (within-IsLeft m)
              | inr creates ↦
                  rw (few, fine, creates)
                    (copy-IsBounded i e.size e.copy_fails_after continue m
                      (omega (arith, w.files_counted)) go)
            ]
          ]
    ]

extract_zip_file-KeepsLimits : (dst : List Component) → KeepsLimits dst extract_zip_file
unfolding extract_zip_file KeepsLimits
extract_zip_file-KeepsLimits dst target e st continue i w go =
    let m = made_dir-IsWithin (parent-IsParent dst target i) w in
    elim (Bool-cases e.mkdir_fails) [
      | inl fails ↦ rw fails (within-IsLeft w)
      | inr fine ↦ elim (Bool-cases (ltb max_files (st.file_count + 1))) [
        | inl many ↦ rw (fine, many) (counted-IsLeft m)
        | inr few ↦
            let c = counted-IsWithin m (ltb→le max_files (st.file_count + 1) few) in
            elim (Bool-cases e.open_fails) [
              | inl shut ↦ rw (fine, few, shut) (within-IsLeft c)
              | inr opens ↦ elim (Bool-cases e.create_fails) [
                | inl stops ↦ rw (fine, few, opens, stops) (within-IsLeft c)
                | inr creates ↦
                    rw (fine, few, opens, creates)
                      (copy-IsBounded i e.size e.copy_fails_after continue c
                        (omega (arith, w.files_counted)) go)
              ]
            ]
      ]
    ]

skip_entry-KeepsLimits : (dst : List Component) → KeepsLimits dst skip_entry
unfolding KeepsLimits
skip_entry-KeepsLimits dst target e st continue i w go = go st w

extract_tar_entry-KeepsLimits :
    (dst : List Component) (t : EntryType) → KeepsLimits dst (extract_tar_entry t)
extract_tar_entry-KeepsLimits dst dir_entry = extract_dir-KeepsLimits dst
extract_tar_entry-KeepsLimits dst regular_entry = extract_tar_file-KeepsLimits dst
extract_tar_entry-KeepsLimits dst other_entry = skip_entry-KeepsLimits dst

extract_zip_entry-KeepsLimits :
    (dst : List Component) (t : EntryType) → KeepsLimits dst (extract_zip_entry t)
extract_zip_entry-KeepsLimits dst dir_entry = extract_dir-KeepsLimits dst
extract_zip_entry-KeepsLimits dst regular_entry = extract_zip_file-KeepsLimits dst
extract_zip_entry-KeepsLimits dst other_entry = extract_zip_file-KeepsLimits dst

module _ (dst : Name) (plain : All IsPlain dst.components) where
  unless_skipped-IsBounded :
      (handler : Handler) (e : Entry) (st : Extraction) (continue : Extraction → Result)
      → KeepsLimits dst.components handler
      → IsWithin dst.components st
      → ((st' : Extraction) → IsWithin dst.components st' → IsBounded dst.components (continue st'))
      → IsBounded dst.components (unless_skipped dst handler e st continue)
  unfolding KeepsLimits
  unless_skipped-IsBounded handler e st continue keeps w go =
      elim (Bool-cases (is_skipped (clean e.name))) [
        | inl skipped ↦ rw skipped (go st w)
        | inr kept ↦ rw kept (
            keeps (join dst (clean e.name).components) e st continue
              (join-IsInside dst e.name plain kept) w go)
      ]

  pub extract_tar-IsBounded :
      (s : TarStream) (st : Extraction)
      → IsWithin dst.components st
      → IsBounded dst.components (extract_tar_reader dst s st)
  unfolding extract_tar_reader
  extract_tar-IsBounded eof st w = w
  extract_tar-IsBounded broken st w = within-IsLeft w
  extract_tar-IsBounded (entry e rest) st w =
      unless_skipped-IsBounded (extract_tar_entry e.type) e st (extract_tar_reader dst rest)
        (extract_tar_entry-KeepsLimits dst.components e.type) w (extract_tar-IsBounded rest)

  pub extract_zip-IsBounded :
      (es : List Entry) (st : Extraction)
      → IsWithin dst.components st
      → IsBounded dst.components (extract_zip_files dst es st)
  unfolding extract_zip_files
  extract_zip-IsBounded [] st w = w
  extract_zip-IsBounded (e ∷ es) st w =
      unless_skipped-IsBounded (extract_zip_entry e.type) e st (extract_zip_files dst es)
        (extract_zip_entry-KeepsLimits dst.components e.type) w (extract_zip-IsBounded es)

pub no_extraction-IsWithin : (dst : List Component) → IsWithin dst no_extraction
no_extraction-IsWithin dst = record {
  dirs_inside = tt;
  files_small = tt;
  files_counted = omega arith;
  few = omega arith;
  bytes_counted = refl;
  light = omega arith;
}
