-- ===== src/Tests/Outputs.antt =====
-- The theorems on backend/app/services/generated_outputs.py at concrete inputs.
use root_agent.Common.{
  if◌then◌else◌, length, take, drop, filter, sum_by, All, ℕ, ◌+◌, ◌≤◌, ◌≡◌, refl, ◌⊎◌, true, false,
  not, none, some, List, [], ◌∷◌, ◌++◌, map, arith, Text, codes, text_eq,
}
use root_agent.Common.Result.{ok, Result, err}
use root_agent.Artifacts.Gateway.{upload, generated, Bytes, ArtifactSource}
use root_agent.Artifacts.Gateway.Reading.{Artifact}
use root_agent.Artifacts.Gateway.Runs.{HasOwnIds}
use root_agent.Artifacts.Outputs.{
  Output, Setting, PersistError, commit_failed, refresh_failed, is_generated_in, overwrite_prior,
  persist_output, persist_outputs, verify_unchanged, begin_batch, storage_path,
}
use root_agent.Artifacts.Outputs.Persist.{Store, persist_generated_outputs}
use root_agent.Artifacts.Outputs.Collect.{
  Validators, OutputLimits, Root, holds, regular, directory, invalid_file,
  collect_generated_outputs, collect_files, collect_file, output_type, validated, display_name,
}
use root_agent.Artifacts.Outputs.Handover.{content_of, collected_within}
use root_agent.Artifacts.Outputs.Rollback.{failed_batch_leaves_nothing}
use root_agent.Artifacts.Outputs.Untouched.{persist_keeps_others}

abbrev setting : Setting
setting = record {
  hash = λ raw. length raw ∷ [];
  uuid = λ n. n ∷ [];
  new_id = λ n. 10 + n;
  now = 9;
  upload_fails = λ key. false;
  delete_fails = λ key. false;
  commit_fails = λ rows. true;
  refresh_fails = false;
  newest_first = λ rows. rows;
  user_id = 1;
  chat_id = 3;
  run_id = 7;
}

abbrev row : ℕ → Text → ArtifactSource → Artifact
row id name source = record {
  id = id;
  user_id = 1;
  chat_id = 3;
  run_id = none;
  filename = name;
  source = source;
  content_type = codes "text/csv";
  file_size = 2;
  sha256 = 2 ∷ [];
  created_at = 5;
  storage_path = storage_path (λ n. n ∷ []) 1 3 id source;
  output_kind = none;
  width = none;
  height = none;
}

-- An upload and a generated artifact, and the object of the generated one.
abbrev before : Store
before = record {
  rows = row 1 (codes "u.csv") upload ∷ row 2 (codes "a.csv") generated ∷ [];
  objects = λ key.
      if text_eq key (1 ∷ codes "/" ++ (3 ∷ codes "/generated/" ++ (2 ∷ [])))
      then some (6 ∷ 6 ∷ [])
      else none;
}

abbrev output : Text → Bytes → Output
output name raw = record {
  on_disk = some raw;
  safe_name = name;
  media_type = codes "text/csv";
  size = 3;
  sha256 = 3 ∷ [];
  output_kind = none;
  width = none;
  height = none;
}

abbrev outputs : List Output
outputs = output (codes "a.csv") (7 ∷ 8 ∷ 9 ∷ []) ∷ []

abbrev persisted : Result PersistError (List Artifact) × Store
persisted = persist_generated_outputs setting true outputs before

-- A run that overwrites `a.csv` and whose commit fails: the row of `a.csv` is there as before, and
-- its object is gone.
failed_overwrite : persisted.0 ≡ err commit_failed
unfolding persist_generated_outputs persist_outputs persist_output verify_unchanged overwrite_prior
    begin_batch storage_path
failed_overwrite = refl

failed_overwrite_rows : persisted.1.rows ≡ before.rows
unfolding persist_generated_outputs persist_outputs persist_output verify_unchanged overwrite_prior
    begin_batch storage_path
failed_overwrite_rows = refl

failed_overwrite_object : persisted.1.objects (storage_path (λ n. n ∷ []) 1 3 2 generated) ≡ none
unfolding persist_generated_outputs persist_outputs persist_output verify_unchanged overwrite_prior
    begin_batch storage_path
failed_overwrite_object = refl

failed_overwrite_before :
    before.objects (storage_path (λ n. n ∷ []) 1 3 2 generated) ≡ some (6 ∷ 6 ∷ [])
unfolding storage_path
failed_overwrite_before = refl

failed_batch_leaves_nothing_example :
    ((persisted.1.rows ≡ before.rows) ⊎ (commit_failed ≡ refresh_failed))
    × ((k : Text) → (persisted.1.objects k ≡ none) ⊎ (persisted.1.objects k ≡ before.objects k))
failed_batch_leaves_nothing_example =
    failed_batch_leaves_nothing setting before (λ key. refl) true outputs commit_failed
      failed_overwrite

-- If instead reading the rows back fails, the table has the new row, without its object.
abbrev unread : Result PersistError (List Artifact) × Store
unread =
    persist_generated_outputs
      (record setting { commit_fails = λ rows. false; refresh_fails = true }) true outputs before

unread_changes_rows :
    (unread.0 ≡ err refresh_failed) × (map Artifact.run_id unread.1.rows ≡ none ∷ some 7 ∷ [])
unfolding persist_generated_outputs persist_outputs persist_output verify_unchanged overwrite_prior
    begin_batch storage_path
unread_changes_rows = (refl, refl)

accepting : Setting
accepting = record setting { commit_fails = λ rows. false }

store_ids : HasOwnIds before.rows
store_ids = (refl, (refl, tt))

persist_keeps_others_example :
    filter
      (λ a. not (is_generated_in accepting a))
      (persist_generated_outputs accepting true outputs before).1.rows
    ≡ filter (λ a. not (is_generated_in accepting a)) before.rows
unfolding accepting
persist_keeps_others_example =
    persist_keeps_others accepting before (λ P rows h. h) store_ids (λ n. ground arith) true outputs

-- Texts of at most three bytes: the validator drops what is more.
abbrev validators : Validators
validators = record {
  suffix = λ name. drop 1 name;
  stem = λ name. take 1 name;
  sanitize_display_filename = λ name fallback. name;
  sha256 = λ raw. length raw ∷ [];
  raster = λ suffix raw. err invalid_file;
  csv_stream = λ raw. ok tt;
  xlsx_stream = λ raw. ok tt;
  utf8_text = λ json raw. ok (take 3 raw);
  pdf = λ raw. ok raw;
}

abbrev output_limits : OutputLimits
output_limits = record { max_files = 2; max_file_bytes = 5; max_run_bytes = 8 }

abbrev directory_of_two : Root
directory_of_two = holds (
    regular false (codes "a.txt") (1 ∷ 2 ∷ 3 ∷ 4 ∷ 5 ∷ [])
    ∷ directory
    ∷ regular false (codes "a.txt") (6 ∷ [])
    ∷ [])

-- The second file of a name is given another.
abbrev two_outputs : List Output
two_outputs =
    record {
      on_disk = some (1 ∷ 2 ∷ 3 ∷ []);
      safe_name = codes "a.txt";
      media_type = codes "text/plain";
      size = 3;
      sha256 = 3 ∷ [];
      output_kind = none;
      width = none;
      height = none;
    }
    ∷ record {
      on_disk = some (6 ∷ []);
      safe_name = codes "a_" ++ (1 ∷ codes ".txt");
      media_type = codes "text/plain";
      size = 1;
      sha256 = 1 ∷ [];
      output_kind = none;
      width = none;
      height = none;
    }
    ∷ []

collected_two : collect_generated_outputs validators output_limits directory_of_two ≡ ok two_outputs
unfolding collect_generated_outputs collect_files collect_file output_type validated display_name
collected_two = refl

collected_within_example :
    (length two_outputs ≤ 2)
    × (sum_by Output.size two_outputs ≤ 8)
    × All (λ o. verify_unchanged setting o ≡ ok (content_of o)) two_outputs
collected_within_example =
    collected_within validators output_limits setting directory_of_two two_outputs (λ raw. refl)
      collected_two
