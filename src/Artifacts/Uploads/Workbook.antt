-- ===== src/Artifacts/Uploads/Workbook.antt =====
-- `_validate_xlsx` and `_validate_zip_entry` of backend/app/services/file_validation.py: which
-- archives are taken for workbooks. Reading archives and paths is Python's, loading the workbook
-- openpyxl's.
pub mod Accepted
use root_agent.Common.{
  ltb, ◌==◌, length, take, any, ℕ, ◌+◌, ◌-◌, ◌*◌, ◌/◌, ◌%◌, Bool, not, ◌&&◌, ◌||◌, Option, none,
  some, List, [], ◌∷◌, reverse, Text, codes, text_eq, starts_with, contains, is_empty,
}
use root_agent.Common.Result.{Result, ok, err, ◌>>=◌, ◌>>◌, refuse}
use root_agent.Artifacts.Gateway.{Bytes}

pub record ZipEntry : Type 0 where
  pub filename : Text
  pub file_size : ℕ
  pub compress_size : ℕ
  pub external_attr : ℕ
  pub flag_bits : ℕ

pub data XlsxError : Type 0 where
  bad_signature bad_zip unsafe_path symlink encrypted : XlsxError
  too_many_entries too_large suspicious_ratio missing_entries macros unloadable : XlsxError

-- `infolist` and `read` give `none` for BadZipFile; `drive` is of a Windows path, `parts` of a POSIX
-- one.
pub record Archives : Type 0 where
  pub infolist : Bytes → Option (List ZipEntry)
  pub read : Bytes → Text → Option Text
  pub loads : Bytes → Bool
  pub lower : Text → Text
  pub drive : Text → Text
  pub parts : Text → List Text
  pub max_entries : ℕ
  pub max_expanded : ℕ
  pub max_ratio : ℕ

abbrev pub signature : Bytes
signature = 80 ∷ 75 ∷ 3 ∷ 4 ∷ []

abbrev pub ends_with : Text → Text → Bool
ends_with text suffix = starts_with (reverse text) (reverse suffix)

abbrev pub dot_parts : List Text
dot_parts = [] ∷ codes "." ∷ codes ".." ∷ []

abbrev pub required_entries : List Text
required_entries = codes "[Content_Types].xml" ∷ codes "_rels/.rels" ∷ codes "xl/workbook.xml" ∷ []

-- `stat.S_ISLNK(external_attr >> 16)`
abbrev pub is_link : ZipEntry → Bool
is_link e = (e.external_attr / 65536 / 4096) % 16 == 10

abbrev pub is_encrypted : ZipEntry → Bool
is_encrypted e = e.flag_bits % 2 == 1

module _ (Z : Archives) where
  abbrev pub is_unsafe_path : Text → Bool
  is_unsafe_path name =
      is_empty name
      || contains (codes "\\") name
      || starts_with name (codes "/")
      || not (is_empty (Z.drive name))
      || any (λ part. any (text_eq part) dot_parts) (Z.parts name)

  abbrev pub validate_zip_entry : ZipEntry → Result XlsxError (Unit {0})
  validate_zip_entry e =
      refuse (is_unsafe_path e.filename) unsafe_path
      >> (refuse (is_link e) symlink >> refuse (is_encrypted e) encrypted)

  abbrev pub over_ratio : ℕ → ℕ → Bool
  over_ratio size compressed =
      not (size == 0) && (compressed == 0 || ltb (compressed * Z.max_ratio) size)

  -- The loop, with the sizes so far.
  abbrev pub check_entries : List ZipEntry → ℕ → ℕ → Result XlsxError (ℕ × ℕ)
  check_entries [] expanded compressed = ok (expanded, compressed)
  check_entries (e ∷ es) expanded compressed =
      validate_zip_entry e
      >> (refuse (ltb Z.max_expanded (expanded + e.file_size)) too_large
          >> (refuse (over_ratio e.file_size e.compress_size) suspicious_ratio
              >> check_entries es (expanded + e.file_size) (compressed + e.compress_size)))

  abbrev pub is_named : Text → ZipEntry → Bool
  is_named name e = text_eq e.filename name

  abbrev pub has_required : List ZipEntry → Bool
  has_required es = not (any (λ name. not (any (is_named name) es)) required_entries)

  abbrev pub has_macros : List ZipEntry → Bool
  has_macros es = any (λ e. ends_with (Z.lower e.filename) (codes "vbaproject.bin")) es

  abbrev pub content_types_checked : Option Text → Result XlsxError (Unit {0})
  content_types_checked none = err bad_zip
  content_types_checked (some types) =
      refuse
        (contains (codes "macroenabled") (Z.lower types) || contains (codes "vba") (Z.lower types))
        macros

  abbrev pub archive_checked : Bytes → List ZipEntry → Result XlsxError (Unit {0})
  archive_checked raw es =
      refuse (ltb Z.max_entries (length es)) too_many_entries
      >> (check_entries es 0 0 >>= λ sizes.
          refuse (not (has_required es)) missing_entries
          >> (refuse (over_ratio sizes.0 sizes.1) suspicious_ratio
              >> (refuse (has_macros es) macros
                  >> content_types_checked (Z.read raw (codes "[Content_Types].xml")))))

  abbrev pub listed : Bytes → Option (List ZipEntry) → Result XlsxError (Unit {0})
  listed raw none = err bad_zip
  listed raw (some es) = archive_checked raw es

  unfoldable pub validate_xlsx : Bytes → Result XlsxError (Unit {0})
  validate_xlsx raw =
      refuse (not (text_eq (take 4 raw) signature)) bad_signature
      >> (listed raw (Z.infolist raw) >> refuse (not (Z.loads raw)) unloadable)
