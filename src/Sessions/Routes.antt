-- ===== src/Sessions/Routes.antt =====
-- backend/app/routers/artifacts.py: uploading, listing, showing, downloading and deleting the
-- artifacts of a session over HTTP. A user's uploads are counted in a bucket of the rate limit.
pub mod Upload
pub mod Read
use root_agent.Common.{
  ltb, ◌==◌, if◌then◌else◌, length, find?, ℕ, ◌+◌, ◌-◌, ◌/◌, String, Bool, false, not, ◌||◌, Option,
  none, some, List, [], ◌∷◌, ◌++◌, Text, codes, text_eq,
}
use root_agent.Common.Result.{after, Result, ok, err, ◌>>=◌, ◌>>◌, refuse, is_ok}
use root_agent.Redis.RateLimit.{SortedSet, Bucket, check_rate_limit}
use root_agent.Run.Model.{Chat}
use root_agent.Artifacts.Gateway.{Bytes, upload}
use root_agent.Artifacts.Gateway.Reading.{Artifact, read_chunks}
use root_agent.Artifacts.Uploads.{
  UploadError, UploadSettings, Names, ValidatedUpload, validate_upload,
}
use root_agent.Sessions.{World, Object, Setting, SessionError, Step, duplicate_filename, is_named}
use root_agent.Sessions.Service.{is_session}
use root_agent.Sessions.Artifacts.{
  Stream, create_artifact_from_stream, get_artifact_for_user, list_artifacts_for_chat,
  delete_artifact,
}

-- The responses that are errors. `failed` is an exception of a service that no handler catches, and
-- `endless` a loop whose fuel runs out.
pub data HttpError : Type 0 where
  session_missing artifact_missing duplicate : HttpError
  too_many_uploads : ℕ → HttpError
  invalid_upload : UploadError → HttpError
  only_images size_invalid integrity_failed no_preview preview_failed : HttpError
  failed : SessionError → HttpError
  download_failed endless : HttpError

pub record Download : Type 0 where
  pub chunks : List Bytes
  pub media_type : Text
  pub filename : Text
  pub attachment : Bool
  pub content_length : ℕ

-- What is preview_shown of an artifact: the image itself, or what pandas and pypdf make of it.
pub data Preview (Payload : Type 0) : Type 0 where
  streamed : Download → Preview Payload
  payload : Payload → Preview Payload

-- The settings of downloads, and the previews, which raise where they give `none`.
pub record Views : Type 1 where
  pub Payload : Type 0
  pub stream_chunk_bytes : ℕ
  pub max_generated_file_bytes : ℕ
  pub sha256 : Bytes → Text
  pub table_preview : Bytes → Text → Option Payload
  pub text_preview : Bytes → Text → Option Payload

abbrev pub is_image : Text → Bool
is_image t =
    text_eq t (codes "image/png")
    || text_eq t (codes "image/jpeg")
    || text_eq t (codes "image/webp")

abbrev pub is_table_type : Text → Bool
is_table_type t =
    text_eq t (codes "text/csv")
    || text_eq t (codes "application/vnd.openxmlformats-officedocument.spreadsheetml.sheet")

abbrev pub is_text_type : Text → Bool
is_text_type t =
    text_eq t (codes "application/json")
    || text_eq t (codes "text/plain")
    || text_eq t (codes "application/pdf")

-- `get_artifact`
unfoldable pub get_artifact : ℕ → ℕ → ℕ → World → Result HttpError Artifact
get_artifact user_id session_id artifact_id w =
    elim (get_artifact_for_user user_id session_id artifact_id w) [
      | none ↦ err artifact_missing
      | some a ↦ ok a
    ]

module _ (V : Views) where
  -- `open_download`: an object in chunks.
  abbrev pub open_download : Text → List Object → Result HttpError (List Bytes)
  open_download key objects = elim (find? (is_named key) objects) [
    | none ↦ err download_failed
    | some o ↦ ok (read_chunks V.stream_chunk_bytes (length o.content) o.content)
  ]

  -- The loop of `_verified_bytes`, with the output so far.
  abbrev pub gather : ℕ → List Bytes → Bytes → Result HttpError Bytes
  gather file_size [] output = ok output
  gather file_size (chunk ∷ chunks) output =
      if ltb V.max_generated_file_bytes (length (output ++ chunk))
        || ltb file_size (length (output ++ chunk))
      then err size_invalid
      else gather file_size chunks (output ++ chunk)

  unfoldable pub verified_bytes : Artifact → List Object → Result HttpError Bytes
  verified_bytes a objects = do
    chunks ← open_download a.storage_path objects
    output ← gather a.file_size chunks []
    refuse (not (length output == a.file_size) || not (text_eq (V.sha256 output) a.sha256))
        integrity_failed
    ok output

  unfoldable pub stream_artifact : ℕ → ℕ → ℕ → Bool → World → Result HttpError Download
  unfolding get_artifact
  stream_artifact user_id session_id artifact_id attachment w = do
    a ← get_artifact user_id session_id artifact_id w
    chunks ← open_download a.storage_path w.objects
    ok (record {
      chunks = chunks;
      media_type = a.content_type;
      filename = a.filename;
      attachment = attachment;
      content_length = a.file_size;
    })

  unfoldable pub content_artifact : ℕ → ℕ → ℕ → World → Result HttpError Download
  unfolding get_artifact stream_artifact
  content_artifact user_id session_id artifact_id w = do
    a ← get_artifact user_id session_id artifact_id w
    refuse (not (is_image a.content_type)) only_images
    stream_artifact user_id session_id artifact_id false w

  abbrev pub or_failed : Option V.Payload → Result HttpError (Preview V.Payload)
  or_failed none = err preview_failed
  or_failed (some p) = ok (payload p)

  abbrev pub preview_of : Bytes → Text → Result HttpError (Preview V.Payload)
  preview_of raw t =
      if is_table_type t
      then or_failed (V.table_preview raw t)
      else if is_text_type t
      then or_failed (V.text_preview raw t)
      else err no_preview

  abbrev pub preview_shown :
      Artifact
      → Result HttpError Download
      → Result HttpError Bytes
      → Result HttpError (Preview V.Payload)
  preview_shown a streaming raw =
      if is_image a.content_type
      then (streaming >>= λ d. ok (streamed d))
      else (raw >>= λ bytes. preview_of bytes a.content_type)

  unfoldable pub preview_artifact : ℕ → ℕ → ℕ → World → Result HttpError (Preview V.Payload)
  unfolding get_artifact stream_artifact verified_bytes
  preview_artifact user_id session_id artifact_id w = do
    a ← get_artifact user_id session_id artifact_id w
    preview_shown a (stream_artifact user_id session_id artifact_id false w)
        (verified_bytes a w.objects)

-- `delete_artifact_route`
unfoldable pub delete_artifact_route :
    Setting → ℕ → ℕ → ℕ → World → Result HttpError (Unit {0}) × World
unfolding delete_artifact
delete_artifact_route S user_id session_id artifact_id w =
    let (r, w') = delete_artifact S user_id session_id artifact_id w in
    (elim r [ err e ↦ err (failed e) | ok done ↦ ok done ], w')

abbrev pub stream_of : ValidatedUpload → Stream
stream_of v = record {
  filename = v.filename;
  content_type = v.content_type;
  content = v.stream;
  file_size = v.size;
  sha256 = v.sha256;
  source = upload;
  output_kind = none;
  width = none;
  height = none;
}

-- The handler of a duplicate.
abbrev pub http_error : SessionError → HttpError
http_error SessionError.session_not_found = failed SessionError.session_not_found
http_error SessionError.duplicate_filename = duplicate
http_error SessionError.storage_failed = failed SessionError.storage_failed
http_error SessionError.redis_failed = failed SessionError.redis_failed
http_error SessionError.workspace_failed = failed SessionError.workspace_failed
http_error SessionError.commit_failed = failed SessionError.commit_failed
http_error SessionError.refresh_failed = failed SessionError.refresh_failed

abbrev pub answered : Step Artifact → Result HttpError Artifact × World
answered (err e, w) = (err (http_error e), w)
answered (ok a, w) = (ok a, w)

-- The limit of uploads in a window, and what this call draws.
pub record Rate : Type 0 where
  pub upload_rate_limit : ℕ
  pub upload_rate_window_seconds : ℕ
  pub now_ms : ℕ
  pub member : String

module _ (Z : SortedSet) (Q : Rate) (U : UploadSettings) (N : Names) (S : Setting) where
  -- What is left when the session is there and the limit allows the upload.
  abbrev pub received :
      ℕ
      → ℕ
      → Option (Result UploadError ValidatedUpload)
      → World
      → Result HttpError Artifact × World
  received user_id session_id none w = (err endless, w)
  received user_id session_id (some (err e)) w = (err (invalid_upload e), w)
  received user_id session_id (some (ok v)) w =
      answered (create_artifact_from_stream S user_id session_id (stream_of v) w)

  unfoldable pub upload_artifact :
      ℕ
      → ℕ
      → Option Text
      → Bytes
      → Bucket Z
      → World
      → Result HttpError Artifact × (Bucket Z × World)
  unfolding check_rate_limit validate_upload create_artifact_from_stream
  upload_artifact user_id session_id upload_name content b w =
      elim (find? (is_session user_id session_id) w.chats) [
        | none ↦ (err session_missing, (b, w))
        | some chat ↦
            let (b', rate) =
              check_rate_limit Z b Q.now_ms Q.upload_rate_limit Q.upload_rate_window_seconds
                Q.member in
            if not rate.allowed
            then (err (too_many_uploads rate.retry_after_seconds), (b', w))
            else let (r, w') =
                received user_id session_id (validate_upload U N upload_name content) w in
              (r, (b', w'))
      ]
