-- ===== src/Artifacts/Uploads.antt =====
-- backend/app/services/file_validation.py: `sanitize_display_filename` and `validate_upload`, which
-- reads an upload in chunks, up to one byte more than the limit.
pub mod Reads
pub mod Workbook
use root_agent.Common.{
  ltb, ◌==◌, if◌then◌else◌, length, take, drop, filter, ℕ, zero, suc, ◌+◌, ◌-◌, ◌/◌, min, Bool,
  true, false, ◌||◌, Option, none, some, [], ◌∷◌, ◌++◌, map, Text, codes, rstrip_by, strip_by,
  text_eq, is_empty,
}
use root_agent.Common.Result.{Result, ok, err, ◌>>=◌, ◌>>◌, refuse, is_ok}
use root_agent.Artifacts.Gateway.{Bytes}

pub data UploadError : Type 0 where
  unsupported_upload_type upload_too_large empty_upload invalid_file : UploadError

-- Unicode and paths: NFKC, which characters are printable and which match `\w`, and the suffix of a
-- name, also in lower case.
pub record Names : Type 0 where
  pub nfkc : Text → Text
  pub is_printable : ℕ → Bool
  pub is_word : ℕ → Bool
  pub suffix : Text → Text
  pub lower : Text → Text

-- `rsplit("/", maxsplit=1)[-1]`, with what follows the last separator so far.
abbrev pub last_part : Text → Text → Text
last_part [] part = part
last_part (c ∷ cs) part = if c == 47 then last_part cs [] else last_part cs (part ++ (c ∷ []))

-- `_UNSAFE_FILENAME.sub("_", text)`: a run of unsafe characters becomes one `_`.
abbrev pub replace_runs : (ℕ → Bool) → Bool → Text → Text
replace_runs safe inside [] = []
replace_runs safe inside (c ∷ cs) =
    if safe c
    then c ∷ replace_runs safe false cs
    else if inside
    then replace_runs safe true cs
    else 95 ∷ replace_runs safe true cs

abbrev pub is_edge : ℕ → Bool
is_edge c = c == 32 || c == 46

abbrev pub or_empty : Option Text → Text
or_empty none = []
or_empty (some t) = t

module _ (N : Names) where
  abbrev pub is_safe : ℕ → Bool
  is_safe c = N.is_word c || c == 32 || c == 46 || c == 40 || c == 41 || c == 45

  unfoldable pub display_part : Option Text → Text
  display_part filename =
      let normalized = N.nfkc (or_empty filename) in
      let last = last_part (map (λ c. if c == 92 then 47 else c) normalized) [] in
      strip_by is_edge (replace_runs is_safe false (filter N.is_printable last))

  abbrev pub or_fallback : Text → Text → Text
  or_fallback name fallback =
      if is_empty name || text_eq name (codes ".") || text_eq name (codes "..")
      then fallback
      else name

  abbrev pub shortened : Text → Text
  shortened name =
      let suffix = take 20 (N.suffix name) in
      rstrip_by is_edge (take (255 - length suffix) name) ++ suffix

  unfoldable pub sanitize_display_filename : Option Text → Text → Text
  unfolding display_part
  sanitize_display_filename filename fallback =
      let name = or_fallback (display_part filename) fallback in
      if ltb 255 (length name) then shortened name else name

pub record UploadSettings : Type 0 where
  pub max_upload_bytes : ℕ
  pub upload_chunk_bytes : ℕ
  pub sha256 : Bytes → Text
  pub validate_csv : Bytes → Result UploadError (Unit {0})
  pub validate_xlsx : Bytes → Result UploadError (Unit {0})

pub record ValidatedUpload : Type 0 where
  pub filename : Text
  pub content_type : Text
  pub stream : Bytes
  pub size : ℕ
  pub sha256 : Text

abbrev pub is_nil : Bytes → Bool
is_nil [] = true
is_nil (b ∷ bs) = false

module _ (U : UploadSettings) where
  -- The loop, on what is left of the upload, the total and the spool; `none` is out of fuel. A read
  -- gives as many bytes as it asks for, or all that are left.
  unfoldable pub read_upload : ℕ → Bytes → ℕ → Bytes → Option (Result UploadError Bytes)
  read_upload zero left total spool = none
  read_upload (suc n) left total spool =
      let read_size = min U.upload_chunk_bytes (U.max_upload_bytes + 1 - total) in
      let chunk = take read_size left in
      let rest = read_upload n (drop read_size left) (total + length chunk) (spool ++ chunk) in
      if ltb U.max_upload_bytes total || is_nil chunk
      then some (ok spool)
      else if ltb U.max_upload_bytes (total + length chunk)
      then some (err upload_too_large)
      else rest

  abbrev pub checked_content : Bool → Bytes → Result UploadError Text
  checked_content true spool = U.validate_csv spool >> ok (codes "text/csv")
  checked_content false spool =
      U.validate_xlsx spool
      >> ok (codes "application/vnd.openxmlformats-officedocument.spreadsheetml.sheet")

  abbrev pub accepted : Text → Bool → Bytes → Result UploadError ValidatedUpload
  accepted filename is_csv spool = do
    refuse (length spool == 0) empty_upload
    content_type ← checked_content is_csv spool
    ok (record {
      filename = filename;
      content_type = content_type;
      stream = spool;
      size = length spool;
      sha256 = U.sha256 spool;
    })

  unfoldable pub validate_upload :
      Names → Option Text → Bytes → Option (Result UploadError ValidatedUpload)
  unfolding sanitize_display_filename read_upload
  validate_upload N upload_name content =
      let filename = sanitize_display_filename N upload_name (codes "upload") in
      let suffix = N.lower (N.suffix filename) in
      if text_eq suffix (codes ".csv") || text_eq suffix (codes ".xlsx")
      then elim (read_upload (length content + 1) content 0 []) [
        | none ↦ none
        | some r ↦ some (r >>= λ spool. accepted filename (text_eq suffix (codes ".csv")) spool)
      ]
      else some (err unsupported_upload_type)
