-- ===== src/Files/Valid.antt =====
-- What CreateExtraFiles and UpdateExtraFiles accept.
use rpaas_operator.Prelude.{◌<◌, ◌≤◌, ◌≡◌, ◌≢◌, ◌↔◌, true, List, [], ◌∷◌, length, arith}
use rpaas_operator.Result.{is_ok, >>-is_ok_iff}
use rpaas_operator.Files.{
  File, max_file_size, is_file_name_valid, validate_file, validate_each, validate_files,
}

-- A name that the regular expression takes, and content of one byte up to 1 MiB.
abbrev pub IsFileValid : File → Type 0
IsFileValid f =
    (is_file_name_valid f.name ≡ true) × (0 < length f.content) × (length f.content ≤ max_file_size)

abbrev pub AreFilesValid : List File → Type 0
AreFilesValid [] = Unit
AreFilesValid (f ∷ fs) = IsFileValid f × AreFilesValid fs

validate_file_iff : (f : File) → (is_ok (validate_file f) ≡ true) ↔ IsFileValid f
unfolding validate_file
validate_file_iff f = ground arith

validate_each_iff : (fs : List File) → (is_ok (validate_each fs) ≡ true) ↔ AreFilesValid fs
unfolding validate_each
validate_each_iff [] = ground arith
validate_each_iff (f ∷ fs) =
    let (to, from) = >>-is_ok_iff (validate_file f) (validate_each fs) in
    let (one, back) = validate_file_iff f in
    let (rest, again) = validate_each_iff fs in
    (λ h. let (p, q) = to h in (one p, rest q), λ (p, q). from (back p, again q))

-- validateFiles accepts exactly one file or more, each with a name that the regular expression takes, and
-- with content of at least one byte and at most 1 MiB.
pub validate_files_iff :
    (fs : List File) → (is_ok (validate_files fs) ≡ true) ↔ ((fs ≢ []) × AreFilesValid fs)
unfolding validate_files
validate_files_iff [] = ground arith
validate_files_iff (f ∷ fs) =
    let (to, from) = validate_each_iff (f ∷ fs) in ground (arith, to, from)
