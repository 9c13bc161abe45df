-- ===== src/Artifacts/Gateway.antt =====
-- backend/app/services/artifact_gateway.py: the catalog of one chat that the agent's tools read and
-- change while a run is going on.
pub mod Saving
pub mod Deletion
pub mod Reading
pub mod Paging
pub mod SaveRead
pub mod Entries
pub mod Weights
pub mod Quota
pub mod Uploads
pub mod Calls
pub mod Runs
use root_agent.Common.{
  ltb, leb, if◌then◌else◌, length, filter, any, find?, ℕ, ◌+◌, ◌-◌, Bool, true, false, not, ◌&&◌,
  Option, none, some, List, [], ◌∷◌, Text, text_eq,
}
use root_agent.Common.Result.{Result, ok, err, ◌>>=◌, ◌>>◌, refuse}

pub data ArtifactSource : Type 0 where
  upload generated : ArtifactSource

-- `local_path` is a name in the output directory of the run.
pub record CatalogEntry : Type 0 where
  pub ref : Text
  pub filename : Text
  pub source : ArtifactSource
  pub content_type : Text
  pub size : ℕ
  pub sha256 : Text
  pub created_at : ℕ
  pub storage_path : Option Text
  pub local_path : Option Text

abbrev pub is_upload : CatalogEntry → Bool
is_upload e = elim e.source [ upload ↦ true | generated ↦ false ]

abbrev pub is_generated : CatalogEntry → Bool
is_generated e = elim e.source [ upload ↦ false | generated ↦ true ]

abbrev pub is_local : CatalogEntry → Bool
is_local e = elim e.local_path [ none ↦ false | some p ↦ true ]

abbrev pub Bytes : Type 0
Bytes = List ℕ

-- The catalog, the counter of generated bytes, the files of the output directory, and the buffers
-- that were handed out.
pub record Gateway : Type 0 where
  pub entries : List CatalogEntry
  pub generated_bytes : ℕ
  pub disk : Text → Option Bytes
  pub buffers : List Bytes

pub record Limits : Type 0 where
  pub max_generated_file_bytes : ℕ
  pub max_generated_run_bytes : ℕ
  pub max_generated_files_per_run : ℕ

-- The messages of `ArtifactGatewayError`, by what they say.
pub data ArtifactGatewayError : Type 0 where
  bad_source bad_limit bad_cursor not_found ambiguous unsupported type_mismatch :
      ArtifactGatewayError
  file_quota count_quota byte_quota upload_clash unsafe_path stray_file : ArtifactGatewayError
  only_generated not_written not_wiped size_mismatch verification_failed : ArtifactGatewayError
  bad_mode bad_rows head_only_tabular bad_sheet too_large no_file no_path parse_failed :
      ArtifactGatewayError

abbrev pub Outcome : Type 0 → Type 0
Outcome A = Result ArtifactGatewayError A

abbrev pub named : Text → CatalogEntry → Bool
named name e = text_eq e.filename name

abbrev pub is_generated_as : Text → CatalogEntry → Bool
is_generated_as name e = is_generated e && text_eq e.filename name

abbrev pub has_ref : Text → CatalogEntry → Bool
has_ref ref e = text_eq e.ref ref

abbrev pub first : List CatalogEntry → Option CatalogEntry
first [] = none
first (e ∷ es) = some e

abbrev pub or_first : Option CatalogEntry → List CatalogEntry → Option CatalogEntry
or_first none matches = first matches
or_first (some e) matches = some e

-- `_find_generated_by_filename`: a file of this run comes first.
unfoldable pub find_generated_by_filename : Text → List CatalogEntry → Option CatalogEntry
find_generated_by_filename filename entries =
    let matches = filter (is_generated_as filename) entries in
    or_first (find? is_local matches) matches

-- `_drop_other_generated_with_filename`; an entry is known by its `ref`.
unfoldable pub drop_other_generated_with_filename :
    Text → CatalogEntry → List CatalogEntry → List CatalogEntry
drop_other_generated_with_filename filename keep entries =
    filter (λ e. not (is_generated_as filename e && not (has_ref keep.ref e))) entries

-- `self._entries.remove(entry)`
abbrev pub remove : Text → List CatalogEntry → List CatalogEntry
remove ref [] = []
remove ref (e ∷ es) = if has_ref ref e then es else e ∷ remove ref es

-- `_resolve`: by reference, or by a filename that only one entry has.
abbrev pub only_named : List CatalogEntry → Outcome CatalogEntry
only_named [] = err not_found
only_named (e ∷ []) = ok e
only_named (e ∷ f ∷ es) = err ambiguous

unfoldable pub resolve : Text → List CatalogEntry → Outcome CatalogEntry
resolve ref entries = elim (find? (has_ref ref) entries) [
  | some e ↦ ok e
  | none ↦ only_named (filter (named ref) entries)
]

abbrev pub local_count : List CatalogEntry → ℕ
local_count entries = length (filter is_local entries)

abbrev pub at_name : Text → Option Bytes → (Text → Option Bytes) → Text → Option Bytes
at_name name b disk n = if text_eq n name then b else disk n

abbrev pub old_size : CatalogEntry → ℕ
old_size e = if is_local e then e.size else 0
