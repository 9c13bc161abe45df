-- ===== src/Sessions/Routes/Read.antt =====
-- Reading back what was uploaded.
use root_agent.Common.{
  append_assoc, append_nil, ltb, ◌==◌, if◌then◌else◌, ==_iff, ==_refl, length, take, drop, find?,
  length-append, length-take, length-drop, take-append-drop, ℕ, zero, suc, ◌+◌, ◌≤◌, ◌≡◌, refl, sym,
  ap, ◌∙◌, subst, Bool, true, false, not, Option, none, some, List, [], ◌∷◌, ◌++◌, arith, Text,
  codes, text_eq, text_eq_refl,
}
use root_agent.Common.Result.{Result, ok, err, ◌>>=◌, refuse}
use root_agent.Redis.RateLimit.{SortedSet, Bucket, RateLimitResult, check_rate_limit}
use root_agent.Run.Model.{Chat}
use root_agent.Artifacts.Gateway.{Bytes}
use root_agent.Artifacts.Gateway.Reading.{Artifact, read_chunks}
use root_agent.Artifacts.Gateway.SaveRead.{length-zero}
use root_agent.Artifacts.Uploads.{
  UploadError, UploadSettings, Names, ValidatedUpload, validate_upload, checked_content,
  sanitize_display_filename, unsupported_upload_type, upload_too_large, empty_upload,
}
use root_agent.Artifacts.Uploads.Reads.{is_table, upload_of, validate_upload_meets}
use root_agent.Sessions.Service.{is_session}
use root_agent.Sessions.{World, Object, Setting, Step, is_named}
use root_agent.Sessions.Artifacts.{create_artifact_from_stream, get_artifact_for_user, is_reached}
use root_agent.Sessions.Routes.{
  Views, Rate, HttpError, session_missing, too_many_uploads, gather, open_download, verified_bytes,
  get_artifact, received, stream_of, answered, upload_artifact,
}
use root_agent.Sessions.Routes.Upload.{Stored, create_artifact-Stored}

module _ (V : Views) where
  -- Chunks within the limits are gathered.
  gather-read_chunks :
      (k n size : ℕ) (raw output : Bytes)
      → 1 ≤ k
      → length raw ≤ n
      → length output + length raw ≤ size
      → length output + length raw ≤ V.max_generated_file_bytes
      → gather V size (read_chunks k n raw) output ≡ ok (output ++ raw)
  gather-read_chunks k zero size raw output some_read fuel room limit =
      rw (length-zero raw fuel) (ap ok (sym (append_nil output)))
  gather-read_chunks k (suc n) size [] output some_read fuel room limit =
      ap ok (sym (append_nil output))
  gather-read_chunks k (suc n) size (b ∷ raw) output some_read fuel room limit =
      let chunk = take k (b ∷ raw) in
      let taken = length-take k (b ∷ raw) in
      let dropped = length-drop k (b ∷ raw) in
      let grown = length-append output chunk in
      let below : ltb size (length (output ++ chunk)) ≡ false = ground arith in
      let within : ltb V.max_generated_file_bytes (length (output ++ chunk)) ≡ false =
        ground arith in
      let ih =
        gather-read_chunks k n size (drop k (b ∷ raw)) (output ++ chunk) some_read
          (omega (arith, fuel, dropped, some_read)) (omega (arith, room, taken, dropped, grown))
          (omega (arith, limit, taken, dropped, grown)) in
      let whole = append_assoc output chunk (drop k (b ∷ raw)) in
      rw (within, below) (ih ∙ ap ok (whole ∙ ap (λ t. output ++ t) (take-append-drop k (b ∷ raw))))

  verified_bytes_whole :
      (a : Artifact) (objects : List Object) (name : Text) (raw : Bytes)
      → 1 ≤ V.stream_chunk_bytes
      → length raw ≤ V.max_generated_file_bytes
      → find? (is_named a.storage_path) objects ≡ some (record { name = name; content = raw })
      → a.file_size ≡ length raw
      → a.sha256 ≡ V.sha256 raw
      → verified_bytes V a objects ≡ ok raw
  unfolding verified_bytes
  verified_bytes_whole a objects name raw reads limit found measured digested =
      let all =
        gather-read_chunks V.stream_chunk_bytes (length raw) a.file_size raw [] reads (omega arith)
          (omega (arith, measured)) (omega (arith, limit)) in
      let opened : open_download V a.storage_path objects
          ≡ ok (read_chunks V.stream_chunk_bytes (length raw) raw) =
        rw (open_download, found) refl in
      rw (opened, all)
        (rw (measured, digested, ==_refl (length raw), text_eq_refl (V.sha256 raw)) refl)

-- What is accepted of an upload.
abbrev Whole : UploadSettings → Bytes → Result UploadError ValidatedUpload → Type 0
Whole U content (err e) = Unit {0}
Whole U content (ok v) =
    (v.stream ≡ content) × (v.size ≡ length content) × (v.sha256 ≡ U.sha256 content)

bind-Whole :
    {A : Type 0} (U : UploadSettings) (content : Bytes) (m : Result UploadError A)
    (k : A → Result UploadError ValidatedUpload)
    → ((x : A) → Whole U content (k x))
    → Whole U content (m >>= k)
bind-Whole U content (err e) k h = tt
bind-Whole U content (ok x) k h = h x

upload_of-Whole :
    (U : UploadSettings) (N : Names) (filename : Text) (content : Bytes)
    → Whole U content (upload_of U N filename content)
unfolding upload_of
upload_of-Whole U N filename content =
    let suffix = N.lower (N.suffix filename) in
    bind-Whole U content (refuse (not (is_table suffix)) unsupported_upload_type) _ (λ _.
      bind-Whole U content (refuse (ltb U.max_upload_bytes (length content)) upload_too_large) _
        (λ _. bind-Whole U content (refuse (length content == 0) empty_upload) _ (λ _.
          bind-Whole U content (checked_content U (text_eq suffix (codes ".csv")) content) _
            (λ content_type. (refl, refl, refl)))))

module _ (Z : SortedSet) (Q : Rate) (U : UploadSettings) (N : Names) (S : Setting) (V : Views)
    (user_id session_id : ℕ) (content : Bytes) (w : World) (reads : 1 ≤ U.upload_chunk_bytes)
    (chunks : 1 ≤ V.stream_chunk_bytes) (limit : length content ≤ V.max_generated_file_bytes)
    (digest : U.sha256 ≡ V.sha256) where
  -- What a response that has an artifact promises.
  Readable : Result HttpError Artifact → World → Type 0
  Readable (err e) w' = Unit {0}
  Readable (ok a) w' =
      (get_artifact user_id session_id a.id w' ≡ ok a)
      × (verified_bytes V a w'.objects ≡ ok content)

  answered-Readable :
      (v : ValidatedUpload) (r : Step Artifact)
      → Whole U content (ok v)
      → Stored user_id session_id (stream_of v) w r
      → Readable (answered r).0 (answered r).1
  unfolding Readable Stored get_artifact get_artifact_for_user
  answered-Readable v (err e, w') whole stored = tt
  answered-Readable v (ok a, w') (stream, size, sha)
        (rows, chats, owner, reached, object, sized, digested) =
      let mine : (a.user_id == user_id) ≡ true = (==_iff a.user_id user_id).1 owner in
      let at : is_reached user_id session_id a.id w'.chats a ≡ true =
        ap (λ cs. is_reached user_id session_id a.id cs a) chats
        ∙ rw (==_refl a.id, reached, mine) refl in
      let first : find? (is_reached user_id session_id a.id w'.chats) w'.artifacts ≡ some a =
        ap (λ l. find? (is_reached user_id session_id a.id w'.chats) l) rows ∙ rw at refl in
      (
        rw (first, mine) refl,
        verified_bytes_whole V a w'.objects a.storage_path content chunks limit
            (object ∙ ap (λ c. some (record { name = a.storage_path; content = c })) stream)
            (sized ∙ size) (digested ∙ (sha ∙ ap (λ f. f content) digest)),
      )

  received-Readable :
      (upload_name : Option Text)
      → Readable
          (received Z Q U N S user_id session_id (validate_upload U N upload_name content) w).0
          (received Z Q U N S user_id session_id (validate_upload U N upload_name content) w).1
  unfolding Readable
  received-Readable upload_name =
      let filename = sanitize_display_filename N upload_name (codes "upload") in
      let meets = (validate_upload_meets U N upload_name content reads).0 in
      let P = λ (x : Option (Result UploadError ValidatedUpload)).
        Readable (received Z Q U N S user_id session_id x w).0
          (received Z Q U N S user_id session_id x w).1 in
      subst P (sym meets)
        (by_result (upload_of U N filename content) (upload_of-Whole U N filename content))
    where
      by_result :
          (r : Result UploadError ValidatedUpload)
          → Whole U content r
          → Readable
              (received Z Q U N S user_id session_id (some r) w).0
              (received Z Q U N S user_id session_id (some r) w).1
      by_result (err e) whole = tt
      by_result (ok v) whole =
          answered-Readable v (create_artifact_from_stream S user_id session_id (stream_of v) w)
            whole (create_artifact-Stored S user_id session_id (stream_of v) w)

  upload_artifact-Readable :
      (upload_name : Option Text) (b : Bucket Z)
      → Readable
          (upload_artifact Z Q U N S user_id session_id upload_name content b w).0
          (upload_artifact Z Q U N S user_id session_id upload_name content b w).1.1
  unfolding upload_artifact Readable
  upload_artifact-Readable upload_name b = found (find? (is_session user_id session_id) w.chats)
    where
      later : Result HttpError Artifact × World
      later = received Z Q U N S user_id session_id (validate_upload U N upload_name content) w

      limited : Bucket Z × RateLimitResult
      limited =
          check_rate_limit Z b Q.now_ms Q.upload_rate_limit Q.upload_rate_window_seconds Q.member

      answer : Bool → Result HttpError Artifact × (Bucket Z × World)
      answer refused =
          if refused
          then (err (too_many_uploads limited.1.retry_after_seconds), (limited.0, w))
          else (later.0, (limited.0, later.1))

      allowed : (refused : Bool) → Readable (answer refused).0 (answer refused).1.1
      allowed true = tt
      allowed false = received-Readable upload_name

      found :
          (x : Option Chat)
          → Readable
              (elim x as (λ y. Result HttpError Artifact × (Bucket Z × World)) [
                | none ↦ (err session_missing, (b, w))
                | some chat ↦ answer (not limited.1.allowed)
              ]).0
              (elim x as (λ y. Result HttpError Artifact × (Bucket Z × World)) [
                | none ↦ (err session_missing, (b, w))
                | some chat ↦ answer (not limited.1.allowed)
              ]).1.1
      found none = tt
      found (some chat) = allowed (not limited.1.allowed)

  -- An upload that is answered with an artifact can be read back: asking for the artifact by the
  -- session and its identifier gives it, and the checked download of its object gives the bytes
  -- that were uploaded, for any settings in which reads have a byte at least, and for an upload
  -- within the limit of generated files, which the download applies to uploads too. Both sides have
  -- to use one digest.
  pub verified_bytes-upload_artifact :
      (upload_name : Option Text) (b b' : Bucket Z) (a : Artifact) (w' : World)
      → upload_artifact Z Q U N S user_id session_id upload_name content b w ≡ (ok a, (b', w'))
      → (get_artifact user_id session_id a.id w' ≡ ok a)
        × (verified_bytes V a w'.objects ≡ ok content)
  unfolding Readable
  verified_bytes-upload_artifact upload_name b b' a w' done =
      subst (λ r. Readable r.0 r.1.1) done (upload_artifact-Readable upload_name b)
