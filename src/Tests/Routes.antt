-- ===== src/Tests/Routes.antt =====
-- The theorems on the routes of artifacts at concrete inputs.
use root_agent.Common.{
  leb, length, drop, ℕ, ◌+◌, ◌≡◌, refl, true, false, ◌&&◌, none, some, [], ◌∷◌, arith, Text, codes,
}
use root_agent.Common.Result.{Result, ok, err}
use root_agent.Redis.RateLimit.{
  Bucket, check_rate_limit, rate_limit_script, visible, pruned, retry_time,
}
use root_agent.Redis.RateLimit.Memory.{sorted_lists}
use root_agent.Artifacts.Gateway.{Bytes, upload}
use root_agent.Artifacts.Gateway.Reading.{Artifact}
use root_agent.Artifacts.Outputs.{storage_path}
use root_agent.Artifacts.Uploads.{
  Names, UploadSettings, validate_upload, read_upload, sanitize_display_filename, display_part,
}
use root_agent.Sessions.{World, Setting}
use root_agent.Sessions.Artifacts.{
  create_artifact_from_stream, get_owned_chat, add_artifact, get_artifact_for_user,
}
use root_agent.Sessions.Routes.{
  Views, Rate, HttpError, verified_bytes, get_artifact, upload_artifact, stream_artifact,
  content_artifact, preview_artifact, only_images, artifact_missing, payload,
}
use root_agent.Sessions.Routes.Read.{verified_bytes-upload_artifact}

abbrev names : Names
names = record {
  nfkc = λ t. t;
  is_printable = λ c. true;
  is_word = λ c. leb 97 c && leb c 122;
  suffix = λ t. drop 1 t;
  lower = λ t. t;
}

abbrev digest : Bytes → Text
digest raw = length raw ∷ []

abbrev uploads : UploadSettings
uploads = record {
  max_upload_bytes = 5;
  upload_chunk_bytes = 2;
  sha256 = digest;
  validate_csv = λ raw. ok tt;
  validate_xlsx = λ raw. ok tt;
}

abbrev views : Views
views = record {
  Payload = ℕ;
  stream_chunk_bytes = 2;
  max_generated_file_bytes = 5;
  sha256 = digest;
  table_preview = λ raw t. some (length raw);
  text_preview = λ raw t. none;
}

abbrev rate : Rate
rate = record {
  upload_rate_limit = 1;
  upload_rate_window_seconds = 10;
  now_ms = 1000;
  member = "a";
}

abbrev setting : Setting
setting = record {
  uuid = λ n. (n + 48) ∷ [];
  clean = λ name fallback. name;
  fallback = codes "f";
  new_id = 6;
  now = 100;
  upload_fails = λ key. false;
  list_fails = λ key. false;
  remove_fails = λ key. false;
  redis_fails = false;
  is_local = true;
  bad_workspace = λ id. false;
  rmtree_fails = λ id. false;
  commit_fails = false;
  refresh_fails = false;
}

abbrev world : World
world = record {
  users = 1 ∷ [];
  chats = record { id = 5; user_id = 1; session_id = 9; deletion_requested_at = none } ∷ [];
  runs = [];
  artifacts = [];
  objects = [];
  keys = [];
  workspaces = [];
}

abbrev unused : Bucket sorted_lists
unused = record { set = []; deadline = 0 }

abbrev content : Bytes
content = 1 ∷ 2 ∷ 3 ∷ []

abbrev uploaded : Result HttpError Artifact × (Bucket sorted_lists × World)
uploaded =
    upload_artifact sorted_lists rate uploads names setting 1 9 (some (codes "a.csv")) content
      unused world

abbrev artifact : Artifact
artifact = record {
  id = 6;
  user_id = 1;
  chat_id = 5;
  run_id = none;
  filename = codes "a.csv";
  source = upload;
  content_type = codes "text/csv";
  file_size = 3;
  sha256 = 3 ∷ [];
  created_at = 100;
  storage_path = codes "1/5/upload/6";
  output_kind = none;
  width = none;
  height = none;
}

verified_bytes-upload_artifact_example :
    (get_artifact 1 9 6 uploaded.1.1 ≡ ok artifact)
    × (verified_bytes views artifact uploaded.1.1.objects ≡ ok content)
unfolding upload_artifact check_rate_limit rate_limit_script visible pruned retry_time
    validate_upload read_upload sanitize_display_filename display_part create_artifact_from_stream
    get_owned_chat add_artifact storage_path
verified_bytes-upload_artifact_example =
    verified_bytes-upload_artifact sorted_lists rate uploads names setting views 1 9 content world
      (omega arith) (omega arith) (omega arith) refl (some (codes "a.csv")) unused uploaded.1.0
      artifact uploaded.1.1 refl

-- Another user's request, an image that is none, and a preview.
responses :
    (get_artifact 2 9 6 uploaded.1.1 ≡ err artifact_missing)
    × (content_artifact views 1 9 6 uploaded.1.1 ≡ err only_images)
    × (preview_artifact views 1 9 6 uploaded.1.1 ≡ ok (payload 3))
unfolding upload_artifact check_rate_limit rate_limit_script visible pruned retry_time
    validate_upload read_upload sanitize_display_filename display_part create_artifact_from_stream
    get_owned_chat add_artifact storage_path get_artifact get_artifact_for_user content_artifact
    stream_artifact preview_artifact verified_bytes
responses = (refl, refl, refl)
