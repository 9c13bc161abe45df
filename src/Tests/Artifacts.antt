-- ===== src/Tests/Artifacts.antt =====
-- The theorems on backend/app/services/artifact_gateway.py at concrete inputs.
use root_agent.Common.{
  if◌then◌else◌, length, drop, filter, ℕ, ◌+◌, ◌-◌, ◌≡◌, refl, ap, true, false, Option, none, some,
  List, [], ◌∷◌, arith, Text, codes, strip, text_eq,
}
use root_agent.Common.Result.{ok}
use root_agent.Artifacts.Gateway.{Gateway, Limits, upload, is_upload, Bytes}
use root_agent.Artifacts.Gateway.Saving.{Files, Draw, save_artifact, checked}
use root_agent.Artifacts.Gateway.Deletion.{delete_artifact}
use root_agent.Artifacts.Gateway.Reading.{
  Artifact, create_chat_artifact_gateway, Numerals, IsDecimal, Tables, ReadResult, read_artifact,
}
use root_agent.Artifacts.Gateway.Paging.{all_pages, pages_complete}
use root_agent.Artifacts.Gateway.SaveRead.{read_artifact-save_artifact}
use root_agent.Artifacts.Gateway.Quota.{IsWithin}
use root_agent.Artifacts.Gateway.Calls.{Reach}
use root_agent.Artifacts.Gateway.Runs.{run_keeps_quota, run_keeps_uploads}

-- Digits of one code point: all that is needed of numerals here.
abbrev digits : Numerals
digits = record {
  print = λ n. (48 + n) ∷ [];
  parse = λ t. elim t [ [] ↦ none | c ∷ cs ↦ some (c - 48) ];
}

digits-IsDecimal : IsDecimal digits
digits-IsDecimal = record {
  parse-print = λ n. ap some (omega arith);
  print_some = λ n. refl;
  parse_zero = refl;
}

abbrev limits : Limits
limits = record {
  max_generated_file_bytes = 4;
  max_generated_run_bytes = 6;
  max_generated_files_per_run = 2;
}

-- Text files only, and the length of a file as its digest.
abbrev files : Files Bytes
files = record {
  sanitize_display_filename = λ name. strip name;
  suffix = λ name. drop 1 name;
  media_type = λ suffix. if text_eq suffix (codes ".txt") then some (codes "text/plain") else none;
  serialize = λ suffix raw. ok raw;
  sha256 = λ raw. length raw ∷ [];
  is_unsafe = λ path. false;
}

abbrev tables : Tables Bytes
tables = record {
  csv_media_type = codes "text/csv";
  xlsx_media_type = codes "xlsx";
  read_csv = λ raw rows. ok raw;
  read_excel = λ raw sheet rows. ok (some raw);
  cells = λ t. length t;
  max_parsed_cells = 100;
}

abbrev nothing : Text → Option Bytes
nothing name = none

abbrev no_objects : Text → Option (List Bytes)
no_objects key = none

abbrev row : ℕ → Text → Artifact
row id name = record {
  id = id;
  user_id = 1;
  chat_id = 3;
  run_id = none;
  filename = name;
  source = upload;
  content_type = codes "text/plain";
  file_size = 2;
  sha256 = 2 ∷ [];
  created_at = 5;
  storage_path = id ∷ [];
  output_kind = none;
  width = none;
  height = none;
}

abbrev rows : List Artifact
rows = row 1 (codes "u.txt") ∷ row 2 (codes "v.txt") ∷ row 4 (codes "w.txt") ∷ []

-- The text of an identifier.
ref_of : ℕ → Text
ref_of n = n ∷ []

ref_of_apart : (m n : ℕ) → ref_of m ≡ ref_of n → m ≡ n
unfolding ref_of
ref_of_apart m n h = cc

abbrev begun : Gateway
begun = create_chat_artifact_gateway ref_of (λ rs. rs) 1 3 nothing rows

abbrev drawn : Draw
drawn = record { ref = codes "new"; now = 9; write_fails = false }

abbrev after_save : Gateway
after_save = (save_artifact files limits (codes "a.txt ") (7 ∷ 8 ∷ []) none drawn begun).1

abbrev after_delete : Gateway
after_delete =
    (delete_artifact (codes "a.txt") (record { durable_delete_fails = false; unlinks = true })
      after_save).1

saved_and_deleted : Reach files limits begun after_delete
unfolding create_chat_artifact_gateway ref_of
saved_and_deleted =
    Reach.delete (codes "a.txt") (record { durable_delete_fails = false; unlinks = true })
      (Reach.save (codes "a.txt ") (7 ∷ 8 ∷ []) none drawn Reach.here refl)

run_keeps_quota_example : IsWithin limits after_delete
unfolding create_chat_artifact_gateway ref_of
run_keeps_quota_example =
    run_keeps_quota files limits ref_of (λ rs. rs) 1 3 nothing rows ref_of_apart
      (refl, (refl, (refl, tt))) saved_and_deleted

run_keeps_uploads_example : filter is_upload after_delete.entries ≡ filter is_upload begun.entries
unfolding create_chat_artifact_gateway ref_of
run_keeps_uploads_example =
    run_keeps_uploads files limits ref_of (λ rs. rs) 1 3 nothing rows ref_of_apart
      (refl, (refl, (refl, tt))) saved_and_deleted

-- Pages of two.
pages_complete_example :
    all_pages digits (codes "all") 2 begun.entries 9 none
    ≡ some (codes "u.txt" ∷ codes "v.txt" ∷ codes "w.txt" ∷ [])
unfolding create_chat_artifact_gateway
pages_complete_example =
    pages_complete digits digits-IsDecimal (codes "all") 2 begun.entries 9 refl (omega arith)
      (omega arith) (omega arith)

read_artifact-save_artifact_example :
    (read_artifact tables files.sha256 no_objects (codes "new") (codes "buffer") 20 [] after_save).0
    ≡ ok (ReadResult.buffer (7 ∷ 8 ∷ []))
unfolding create_chat_artifact_gateway save_artifact checked
read_artifact-save_artifact_example =
    read_artifact-save_artifact files limits tables no_objects (codes "a.txt ") (7 ∷ 8 ∷ []) none
      drawn begun _ _ 20 [] refl refl (omega arith) (omega arith)
