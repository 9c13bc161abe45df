-- ===== src/Artifacts/Outputs/Collect.antt =====
-- `_contained_regular_files` and `_collect_generated_outputs_sync` of
-- backend/app/services/generated_outputs.py. What is collected is passed on to
-- `persist_generated_outputs` with the content that the file then has.
use root_agent.Common.{
  ltb, if◌then◌else◌, length, take, any, sum_by, ℕ, ◌+◌, String, Bool, true, false, ◌||◌, Option,
  none, some, List, [], ◌∷◌, ◌++◌, Text, codes, text_eq,
}
use root_agent.Common.Result.{Result, ok, err, ◌>>=◌, ◌>>◌, refuse}
use root_agent.Artifacts.Gateway.{Bytes}
use root_agent.Artifacts.Gateway.Reading.{ArtifactOutputKind, png, csv, xlsx}
use root_agent.Artifacts.Outputs.{Output}

-- What is at a path of the output directory.
pub data Entry : Type 0 where
  link directory special : Entry
  regular : Bool → Text → Bytes → Entry

pub data Root : Type 0 where
  linked absent no_directory : Root
  holds : List Entry → Root

pub data CollectError : Type 0 where
  unsafe_generated_output invalid_generated_output generated_output_quota_exceeded : CollectError
  generated_output_too_large unsupported_generated_output : CollectError
  invalid_file : CollectError

-- A file with its name and its content.
pub record Found : Type 0 where
  pub name : Text
  pub content : Bytes

-- The candidates come sorted. `regular` says of a file whether it resolves to a path outside.
abbrev pub regular_files : List Entry → Result CollectError (List Found)
regular_files [] = ok []
regular_files (link ∷ entries) = err unsafe_generated_output
regular_files (directory ∷ entries) = regular_files entries
regular_files (special ∷ entries) = err unsafe_generated_output
regular_files (regular true name content ∷ entries) = err unsafe_generated_output
regular_files (regular false name content ∷ entries) = do
  files ← regular_files entries
  ok (record { name = name; content = content } ∷ files)

abbrev pub contained_regular_files : Root → Result CollectError (List Found)
contained_regular_files linked = err unsafe_generated_output
contained_regular_files absent = err invalid_generated_output
contained_regular_files no_directory = err invalid_generated_output
contained_regular_files (holds entries) = regular_files entries

-- A file after its validation: its content, and the width and height of an image.
pub record Validated : Type 0 where
  pub content : Bytes
  pub width : Option ℕ
  pub height : Option ℕ

-- The validators, which raise or return the content that the file is to have, and what is read off
-- and made of names.
pub record Validators : Type 0 where
  pub suffix : Text → Text
  pub stem : Text → Text
  pub sanitize_display_filename : Text → Text → Text
  pub sha256 : Bytes → Text
  pub raster : Text → Bytes → Result CollectError Validated
  pub csv_stream : Bytes → Result CollectError (Unit {0})
  pub xlsx_stream : Bytes → Result CollectError (Unit {0})
  pub utf8_text : Bool → Bytes → Result CollectError Bytes
  pub pdf : Bytes → Result CollectError Bytes

pub record OutputLimits : Type 0 where
  pub max_files : ℕ
  pub max_file_bytes : ℕ
  pub max_run_bytes : ℕ

abbrev pub is_suffix : String → Text → Bool
is_suffix s suffix = text_eq suffix (codes s)

abbrev pub is_raster : Text → Bool
is_raster s = is_suffix ".png" s || is_suffix ".jpg" s || is_suffix ".jpeg" s || is_suffix ".webp" s

-- `_OUTPUT_TYPES`
unfoldable pub output_type : Text → Option (Text × Option ArtifactOutputKind)
output_type s =
    if is_suffix ".png" s
    then some (codes "image/png", some png)
    else if is_suffix ".csv" s
    then some (codes "text/csv", some csv)
    else if is_suffix ".xlsx" s
    then some (codes "application/vnd.openxmlformats-officedocument.spreadsheetml.sheet", some xlsx)
    else if is_suffix ".jpg" s || is_suffix ".jpeg" s
    then some (codes "image/jpeg", none)
    else if is_suffix ".webp" s
    then some (codes "image/webp", none)
    else if is_suffix ".json" s
    then some (codes "application/json", none)
    else if is_suffix ".txt" s
    then some (codes "text/plain", none)
    else if is_suffix ".pdf" s
    then some (codes "application/pdf", none)
    else none

module _ (V : Validators) (L : OutputLimits) where
  abbrev pub plain : Bytes → Validated
  plain content = record { content = content; width = none; height = none }

  -- The `try` block: what the file holds afterwards.
  unfoldable pub validated : Text → Bytes → Result CollectError Validated
  validated suffix source =
      if is_raster suffix
      then V.raster suffix (take (L.max_file_bytes + 1) source)
      else if is_suffix ".csv" suffix
      then V.csv_stream source >> ok (plain source)
      else if is_suffix ".xlsx" suffix
      then V.xlsx_stream source >> ok (plain source)
      else if is_suffix ".json" suffix
      then (V.utf8_text true source >>= λ c. ok (plain c))
      else if is_suffix ".txt" suffix
      then (V.utf8_text false source >>= λ c. ok (plain c))
      else if is_suffix ".pdf" suffix
      then (V.pdf source >>= λ c. ok (plain c))
      else err unsupported_generated_output

  -- `display_name`; a name that is taken gets the first digits of the digest.
  unfoldable pub display_name : Text → Text → Text → List Text → Text
  display_name name suffix digest used =
      let clean = V.sanitize_display_filename name (codes "output" ++ suffix) in
      if any (text_eq clean) used
      then V.stem clean ++ (codes "_" ++ (take 12 digest ++ suffix))
      else clean

  abbrev pub collected : Text → Text → Option ArtifactOutputKind → Validated → Output
  collected name media_type kind v = record {
    on_disk = some v.content;
    safe_name = name;
    media_type = media_type;
    size = length v.content;
    sha256 = V.sha256 v.content;
    output_kind = kind;
    width = v.width;
    height = v.height;
  }

  -- The body of the loop, up to the running total.
  unfoldable pub collect_file : Found → List Text → Result CollectError Output
  unfolding output_type validated display_name
  collect_file file used = do
    refuse (ltb L.max_file_bytes (length file.content)) generated_output_too_large
    let suffix = V.suffix file.name
    (media_type, kind) ← elim (output_type suffix) [
      | none ↦ err unsupported_generated_output
      | some t ↦ ok t
    ]
    v ← validated suffix file.content
    ok (collected (display_name file.name suffix (V.sha256 v.content) used) media_type kind v)

  unfoldable pub collect_files : List Found → ℕ → List Text → Result CollectError (List Output)
  collect_files [] total used = ok []
  collect_files (file ∷ files) total used = do
    o ← collect_file file used
    refuse (ltb L.max_run_bytes (total + o.size)) generated_output_quota_exceeded
    rest ← collect_files files (total + o.size) (o.safe_name ∷ used)
    ok (o ∷ rest)

  unfoldable pub collect_generated_outputs : Root → Result CollectError (List Output)
  unfolding collect_files
  collect_generated_outputs root = do
    files ← contained_regular_files root
    refuse (ltb L.max_files (length files)) generated_output_quota_exceeded
    refuse (ltb L.max_run_bytes (sum_by (λ f. length f.content) files))
        generated_output_quota_exceeded
    collect_files files 0 []
