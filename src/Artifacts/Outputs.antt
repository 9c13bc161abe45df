-- ===== src/Artifacts/Outputs.antt =====
-- backend/app/services/generated_outputs.py: `persist_generated_outputs`, with the keys that
-- backend/app/services/artifact_service.py gives to objects. The loop is a pass over the outputs; an
-- exception carries the state it was raised in, which the handler cleans up.
pub mod Persist
pub mod Collect
pub mod Handover
pub mod Rollback
pub mod Isolation
pub mod Loop
pub mod Untouched
use root_agent.Common.{
  ◌==◌, if◌then◌else◌, length, filter, any, find?, ℕ, ◌+◌, ◌-◌, ◌/◌, Bool, true, false, not, ◌&&◌,
  ◌||◌, Option, none, some, List, [], ◌∷◌, ◌++◌, map, Text, codes, text_eq, is_empty,
}
use root_agent.Common.Result.{Result, ok, err, ◌>>=◌, ◌>>◌, refuse, is_ok}
use root_agent.Artifacts.Gateway.{ArtifactSource, upload, generated, Bytes}
use root_agent.Artifacts.Gateway.Reading.{Artifact, ArtifactOutputKind}

-- `str` of an identifier is a parameter, `uuid`.
abbrev pub kind_of : ArtifactSource → Text
kind_of upload = codes "upload"
kind_of generated = codes "generated"

unfoldable pub storage_path : (ℕ → Text) → ℕ → ℕ → ℕ → ArtifactSource → Text
storage_path uuid user_id chat_id artifact_id source =
    uuid user_id
    ++ (codes "/"
        ++ (uuid chat_id ++ (codes "/" ++ (kind_of source ++ (codes "/" ++ uuid artifact_id)))))

-- `CollectedGeneratedOutput` with its manifest. `on_disk` is what the path holds when the batch is
-- persisted, `none` for what is not a regular file.
pub record Output : Type 0 where
  pub on_disk : Option Bytes
  pub safe_name : Text
  pub media_type : Text
  pub size : ℕ
  pub sha256 : Text
  pub output_kind : Option ArtifactOutputKind
  pub width : Option ℕ
  pub height : Option ℕ

pub data PersistError : Type 0 where
  not_owned unsafe_output size_changed hash_changed : PersistError
  upload_failed delete_failed commit_failed refresh_failed : PersistError

-- What a batch is given: the functions of the libraries, the identifiers and the time it draws,
-- which calls of the storage fail, whether the database refuses to commit the rows, or to read them
-- back after the commit, the order of the query, and whose batch it is.
pub record Setting : Type 0 where
  pub hash : Bytes → Text
  pub uuid : ℕ → Text
  pub new_id : ℕ → ℕ
  pub now : ℕ
  pub upload_fails : Text → Bool
  pub delete_fails : Text → Bool
  pub commit_fails : List Artifact → Bool
  pub refresh_fails : Bool
  pub newest_first : List Artifact → List Artifact
  pub user_id : ℕ
  pub chat_id : ℕ
  pub run_id : ℕ

abbrev pub Objects : Type 0
Objects = Text → Option Bytes

abbrev pub put : Text → Option Bytes → Objects → Objects
put key raw objects k = if text_eq k key then raw else objects k

-- The variables of the function. A row is known by its `id`, since rows are shared and changed in
-- place.
pub record Batch : Type 0 where
  pub rows : List Artifact
  pub objects : Objects
  pub by_digest : Text → Option ℕ
  pub by_filename : Text → List ℕ
  pub ordered : List ℕ
  pub uploaded_keys : List Text
  pub touched : List ℕ
  pub seen : List Text
  pub drawn : ℕ

abbrev pub has_id : ℕ → Artifact → Bool
has_id id a = a.id == id

abbrev pub path_of : List Artifact → ℕ → Text
path_of rows id = elim (find? (has_id id) rows) [ none ↦ [] | some a ↦ a.storage_path ]

-- `if artifact.storage_path and artifact.storage_path != object_key`
abbrev pub stale_path : Text → Text → List Text
stale_path key path = if is_empty path || text_eq path key then [] else path ∷ []

abbrev pub obsolete : List Artifact → Text → ℕ → List ℕ → List Text
obsolete rows key id extras =
    stale_path key (path_of rows id) ++ filter (λ p. not (is_empty p)) (map (path_of rows) extras)

abbrev pub is_extra : List ℕ → Artifact → Bool
is_extra extras a = any (λ i. i == a.id) extras

abbrev pub map_at : {A : Type 0} → Text → A → (Text → A) → Text → A
map_at key x f k = if text_eq k key then x else f k

-- `if x in xs`
abbrev pub is_in : Text → List Text → Bool
is_in x xs = any (text_eq x) xs

module _ (S : Setting) where
  abbrev pub generated_object_key : ℕ → Text
  generated_object_key artifact_id = storage_path S.uuid S.user_id S.chat_id artifact_id generated

  unfoldable pub verify_unchanged : Output → Result PersistError Bytes
  verify_unchanged o = do
    raw ← elim o.on_disk [ none ↦ err unsafe_output | some raw ↦ ok raw ]
    refuse (not (length raw == o.size)) size_changed
    refuse (not (text_eq (S.hash raw) o.sha256)) hash_changed
    ok raw

  -- Deletes until one fails.
  abbrev pub delete_files : List Text → Objects → Bool × Objects
  delete_files [] objects = (true, objects)
  delete_files (key ∷ keys) objects =
      if S.delete_fails key then (false, objects) else delete_files keys (put key none objects)

  -- Deletes what it can.
  abbrev pub delete_quietly : List Text → Objects → Objects
  delete_quietly [] objects = objects
  delete_quietly (key ∷ keys) objects =
      delete_quietly keys (if S.delete_fails key then objects else put key none objects)

  abbrev pub set_output : Output → Text → Artifact → Artifact
  set_output o key a = record a {
    run_id = some S.run_id;
    filename = o.safe_name;
    content_type = o.media_type;
    storage_path = key;
    file_size = o.size;
    sha256 = o.sha256;
    output_kind = o.output_kind;
    width = o.width;
    height = o.height;
  }

  abbrev pub recorded : Output → ℕ → List Artifact → Batch → Batch
  recorded o id rows b = record b {
    rows = rows;
    by_filename = map_at o.safe_name (id ∷ []) b.by_filename;
    by_digest = map_at o.sha256 (some id) b.by_digest;
    touched = b.touched ++ (id ∷ []);
    ordered = b.ordered ++ (id ∷ []);
  }

  abbrev pub stored : Text → Bytes → Batch → Batch
  stored key raw b = record b {
    objects = put key (some raw) b.objects;
    uploaded_keys = b.uploaded_keys ++ (key ∷ []);
  }

  -- The branch that overwrites `prior[0]` in place.
  abbrev pub replaced :
      Output → ℕ → List ℕ → Text → Bool × Objects → Batch → Result PersistError (Unit {0}) × Batch
  replaced o id extras key (false, objects) b = (err delete_failed, record b { objects = objects })
  replaced o id extras key (true, objects) b = (
    ok tt,
    recorded o id
        (map (λ a. if has_id id a then set_output o key a else a)
          (filter (λ a. not (is_extra extras a)) b.rows))
        (record b { objects = objects }),
  )

  unfoldable pub overwrite_prior :
      Output → Bytes → ℕ → List ℕ → Batch → Result PersistError (Unit {0}) × Batch
  overwrite_prior o raw id extras b =
      let key = generated_object_key id in
      let b₁ = stored key raw b in
      if S.upload_fails key
      then (err upload_failed, b)
      else replaced o id extras key (delete_files (obsolete b.rows key id extras) b₁.objects) b₁

  abbrev pub new_row : Output → ℕ → Text → Artifact
  new_row o id key = record {
    id = id;
    user_id = S.user_id;
    chat_id = S.chat_id;
    run_id = some S.run_id;
    filename = o.safe_name;
    source = generated;
    content_type = o.media_type;
    file_size = o.size;
    sha256 = o.sha256;
    created_at = S.now;
    storage_path = key;
    output_kind = o.output_kind;
    width = o.width;
    height = o.height;
  }

  unfoldable pub add_row : Output → Bytes → Batch → Result PersistError (Unit {0}) × Batch
  add_row o raw b =
      let id = S.new_id b.drawn in
      let key = generated_object_key id in
      let b₁ = record b { drawn = b.drawn + 1 } in
      if S.upload_fails key
      then (err upload_failed, b₁)
      else (ok tt, recorded o id (b.rows ++ (new_row o id key ∷ [])) (stored key raw b₁))

  abbrev pub write_output : Output → Bytes → List ℕ → Batch → Result PersistError (Unit {0}) × Batch
  write_output o raw [] b = add_row o raw b
  write_output o raw (id ∷ extras) b = overwrite_prior o raw id extras b

  abbrev pub verified :
      Output → Result PersistError Bytes → Batch → Result PersistError (Unit {0}) × Batch
  verified o (err e) b = (err e, b)
  verified o (ok raw) b = write_output o raw (b.by_filename o.safe_name) b

  abbrev pub unless_known : Output → Option ℕ → Batch → Result PersistError (Unit {0}) × Batch
  unless_known o (some id) b = (ok tt, record b { ordered = b.ordered ++ (id ∷ []) })
  unless_known o none b = verified o (verify_unchanged o) b

  -- The body of the loop.
  unfoldable pub persist_output : Output → Batch → Result PersistError (Unit {0}) × Batch
  unfolding verify_unchanged overwrite_prior add_row
  persist_output o b =
      if is_in o.sha256 b.seen
      then (ok tt, b)
      else unless_known o (b.by_digest o.sha256) (record b { seen = o.sha256 ∷ b.seen })

  abbrev pub after :
      Result PersistError (Unit {0}) × Batch
      → (Batch → Result PersistError (Unit {0}) × Batch)
      → Result PersistError (Unit {0}) × Batch
  after (err e, b) next = (err e, b)
  after (ok done, b) next = next b

  unfoldable pub persist_outputs : List Output → Batch → Result PersistError (Unit {0}) × Batch
  persist_outputs [] b = (ok tt, b)
  persist_outputs (o ∷ outputs) b = after (persist_output o b) (persist_outputs outputs)

  abbrev pub is_generated_in : Artifact → Bool
  is_generated_in a =
      a.user_id == S.user_id
      && a.chat_id == S.chat_id
      && elim a.source [ upload ↦ false | generated ↦ true ]

  abbrev pub is_of_run : Artifact → Bool
  is_of_run a = elim a.run_id [ none ↦ false | some r ↦ r == S.run_id ]

  -- The dictionary keeps the last row of a digest.
  abbrev pub digest_index : List Artifact → (Text → Option ℕ) → Text → Option ℕ
  digest_index [] index = index
  digest_index (a ∷ rows) index = digest_index rows (map_at a.sha256 (some a.id) index)

  -- `all_generated` is in the order of the query.
  unfoldable pub begin_batch : List Artifact → List Artifact → Objects → Batch
  begin_batch all_generated rows objects = record {
    rows = rows;
    objects = objects;
    by_digest = digest_index (filter is_of_run all_generated) (λ d. none);
    by_filename = λ name. map Artifact.id (filter (λ a. text_eq a.filename name) all_generated);
    ordered = [];
    uploaded_keys = [];
    touched = [];
    seen = [];
    drawn = 0;
  }
