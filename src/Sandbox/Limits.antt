-- ===== src/Sandbox/Limits.antt =====
-- services/gateway/internal/sandbox/sandbox.go: what an extraction leaves on the disk, whether it fails or
-- not.
use quantime.Prelude.{
  ℕ, ◌+◌, ◌*◌, ◌^◌, ◌≤◌, ◌<◌, ◌≡◌, inl, inr, min, Option, none, some, List, [], ◌∷◌, ltb, arith,
  Bool-cases, ltb→le, All, length,
}
use quantime.Sandbox.Paths.{Component}
use quantime.Sandbox.Inside.{IsInside, IsParent}
use quantime.Sandbox.Extract.{
  File, Extraction, Result, done, failed, max_files, max_file_bytes, max_total_bytes, made_dir,
  counted, created, copy,
}

-- The bytes that were written.
abbrev pub bytes_written : List File → ℕ
bytes_written [] = 0
bytes_written (f ∷ fs) = f.bytes + bytes_written fs

-- A file inside the destination, of at most 64 MB.
pub record IsSmall (dst : List Component) (f : File) : Type 0 where
  pub inside : IsInside dst f.path
  pub bounded : f.bytes ≤ 64 * 2 ^ 20

-- An extraction that goes on.
pub record IsWithin (dst : List Component) (st : Extraction) : Type 0 where
  pub dirs_inside : All (IsParent dst) st.dirs
  pub files_small : All (IsSmall dst) st.files
  pub files_counted : length st.files ≤ st.file_count
  pub few : st.file_count ≤ 5000
  pub bytes_counted : bytes_written st.files ≡ st.total_bytes
  pub light : st.total_bytes ≤ 256 * 2 ^ 20

-- An extraction that failed: one file more may have been written.
pub record IsLeft (dst : List Component) (st : Extraction) : Type 0 where
  pub dirs_inside : All (IsParent dst) st.dirs
  pub files_small : All (IsSmall dst) st.files
  pub few : length st.files ≤ 5000
  pub light : bytes_written st.files ≤ 320 * 2 ^ 20

abbrev pub IsBounded : List Component → Result → Type 0
IsBounded dst (done st) = IsWithin dst st
IsBounded dst (failed e st) = IsLeft dst st

pub within-IsLeft : {dst : List Component} {st : Extraction} → IsWithin dst st → IsLeft dst st
within-IsLeft w = record {
  dirs_inside = w.dirs_inside;
  files_small = w.files_small;
  few = omega (arith, w.files_counted, w.few);
  light = omega (arith, w.bytes_counted, w.light);
}

pub made_dir-IsWithin :
    {dst path : List Component} {st : Extraction}
    → IsParent dst path
    → IsWithin dst st
    → IsWithin dst (made_dir path st)
made_dir-IsWithin i w = record {
  dirs_inside = (i, w.dirs_inside);
  files_small = w.files_small;
  files_counted = w.files_counted;
  few = w.few;
  bytes_counted = w.bytes_counted;
  light = w.light;
}

-- A file is counted before it is created.
pub counted-IsLeft :
    {dst : List Component} {st : Extraction} → IsWithin dst st → IsLeft dst (counted st)
counted-IsLeft w = record {
  dirs_inside = w.dirs_inside;
  files_small = w.files_small;
  few = omega (arith, w.files_counted, w.few);
  light = omega (arith, w.bytes_counted, w.light);
}

pub counted-IsWithin :
    {dst : List Component} {st : Extraction}
    → IsWithin dst st
    → st.file_count + 1 ≤ max_files
    → IsWithin dst (counted st)
counted-IsWithin w l = record {
  dirs_inside = w.dirs_inside;
  files_small = w.files_small;
  files_counted = omega (arith, w.files_counted);
  few = l;
  bytes_counted = w.bytes_counted;
  light = w.light;
}

module _ {dst target : List Component} {st : Extraction} (i : IsInside dst target) where
  created-IsLeft :
      (n : ℕ)
      → IsWithin dst st
      → length st.files < st.file_count
      → n ≤ max_file_bytes
      → IsLeft dst (created target n st)
  created-IsLeft n w l b = record {
    dirs_inside = w.dirs_inside;
    files_small = (record { inside = i; bounded = b }, w.files_small);
    few = omega (arith, l, w.few);
    light = omega (arith, b, w.bytes_counted, w.light);
  }

  pub copy-IsBounded :
      (size : ℕ) (fails : Option ℕ) (continue : Extraction → Result)
      → IsWithin dst st
      → length st.files < st.file_count
      → ((st' : Extraction) → IsWithin dst st' → IsBounded dst (continue st'))
      → IsBounded dst (copy target size fails st continue)
  copy-IsBounded size (some k) continue w l go =
      created-IsLeft (min k (min size max_file_bytes)) w l (omega arith)
  copy-IsBounded size none continue w l go =
      let n = min size max_file_bytes in
      elim (Bool-cases (ltb max_total_bytes (st.total_bytes + n))) [
        | inl over ↦
            let left = created-IsLeft n w l (omega arith) in
            rw over record {
              dirs_inside = left.dirs_inside;
              files_small = left.files_small;
              few = left.few;
              light = left.light;
            }
        | inr under ↦
            let left = created-IsLeft n w l (omega arith) in
            rw under (
              go _ record {
                dirs_inside = left.dirs_inside;
                files_small = left.files_small;
                files_counted = omega (arith, l);
                few = w.few;
                bytes_counted = omega (arith, w.bytes_counted);
                light = ltb→le max_total_bytes (st.total_bytes + n) under;
              })
      ]
