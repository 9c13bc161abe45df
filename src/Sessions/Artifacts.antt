-- ===== src/Sessions/Artifacts.antt =====
-- The artifacts of sessions: backend/app/services/artifact_service.py.
use root_agent.Common.{
  ◌==◌, if◌then◌else◌, filter, any, find?, ℕ, Bool, not, ◌&&◌, Option, none, some, List, [], ◌∷◌,
  Text, text_eq,
}
use root_agent.Common.Result.{after, Result, ok, err}
use root_agent.Run.Model.{Chat}
use root_agent.Artifacts.Gateway.{ArtifactSource, Bytes}
use root_agent.Artifacts.Gateway.Reading.{Artifact, ArtifactOutputKind}
use root_agent.Artifacts.Outputs.{storage_path}
use root_agent.Sessions.{
  World, Setting, SessionError, Step, session_not_found, duplicate_filename, commit_failed,
  refresh_failed, delete_file, upload_stream,
}
use root_agent.Sessions.Service.{is_session, commit}

-- What is stored of a stream.
pub record Stream : Type 0 where
  pub filename : Text
  pub content_type : Text
  pub content : Bytes
  pub file_size : ℕ
  pub sha256 : Text
  pub source : ArtifactSource
  pub output_kind : Option ArtifactOutputKind
  pub width : Option ℕ
  pub height : Option ℕ

unfoldable pub get_owned_chat : ℕ → ℕ → List Chat → Result SessionError Chat
get_owned_chat user_id session_id chats = elim (find? (is_session user_id session_id) chats) [
  | none ↦ err session_not_found
  | some chat ↦ ok chat
]

abbrev pub is_taken : ℕ → Text → Artifact → Bool
is_taken chat_id filename a = a.chat_id == chat_id && text_eq a.filename filename

-- `user_can_access_artifact`
abbrev pub user_can_access_artifact : ℕ → Artifact → Bool
user_can_access_artifact user_id a = a.user_id == user_id

-- The join of an artifact with its chat.
abbrev pub is_reached : ℕ → ℕ → ℕ → List Chat → Artifact → Bool
is_reached user_id session_id artifact_id chats a =
    a.id == artifact_id
    && any (λ c. a.chat_id == c.id && c.session_id == session_id && c.user_id == user_id) chats
    && a.user_id == user_id

unfoldable pub get_artifact_for_user : ℕ → ℕ → ℕ → World → Option Artifact
get_artifact_for_user user_id session_id artifact_id w =
    elim (find? (is_reached user_id session_id artifact_id w.chats) w.artifacts) [
      | none ↦ none
      | some a ↦ if user_can_access_artifact user_id a then some a else none
    ]

unfoldable pub list_artifacts_for_chat :
    (List Artifact → List Artifact) → ℕ → ℕ → World → List Artifact
list_artifacts_for_chat newest_first user_id session_id w =
    elim (find? (is_session user_id session_id) w.chats) [
      | none ↦ []
      | some chat ↦ newest_first (filter (λ a. a.chat_id == chat.id) w.artifacts)
    ]

module _ (S : Setting) where
  abbrev pub new_artifact : ℕ → Chat → Text → Text → Stream → Artifact
  new_artifact user_id chat name key s = record {
    id = S.new_id;
    user_id = user_id;
    chat_id = chat.id;
    run_id = none;
    filename = name;
    source = s.source;
    content_type = s.content_type;
    file_size = s.file_size;
    sha256 = s.sha256;
    created_at = S.now;
    storage_path = key;
    output_kind = s.output_kind;
    width = s.width;
    height = s.height;
  }

  -- The handler: the object is deleted if it can be.
  abbrev pub taken_back : Text → SessionError → World → Step Artifact
  taken_back key e w = (err e, (delete_file S key w).1)

  -- The row is added and refreshed; a refresh that fails comes after the commit.
  unfoldable pub add_artifact : Artifact → World → Step Artifact
  add_artifact a w =
      let changed = record w { artifacts = a ∷ w.artifacts } in
      if S.commit_fails
      then taken_back a.storage_path commit_failed w
      else if S.refresh_fails
      then taken_back a.storage_path refresh_failed changed
      else (ok a, changed)

  abbrev pub store_artifact : ℕ → Chat → Text → Stream → World → Step Artifact
  store_artifact user_id chat name s w =
      let key = storage_path S.uuid user_id chat.id S.new_id s.source in
      after (upload_stream S key s.content w)
        (λ _ w₁. add_artifact (new_artifact user_id chat name key s) w₁)

  unfoldable pub create_artifact_from_stream : ℕ → ℕ → Stream → World → Step Artifact
  unfolding get_owned_chat add_artifact
  create_artifact_from_stream user_id session_id s w =
      elim (get_owned_chat user_id session_id w.chats) [
        | err e ↦ (err e, w)
        | ok chat ↦
            let name = S.clean s.filename S.fallback in
            if any (is_taken chat.id name) w.artifacts
            then (err duplicate_filename, w)
            else store_artifact user_id chat name s w
      ]

  unfoldable pub delete_artifact : ℕ → ℕ → ℕ → World → Step (Unit {0})
  unfolding get_artifact_for_user
  delete_artifact user_id session_id artifact_id w =
      elim (get_artifact_for_user user_id session_id artifact_id w) [
        | none ↦ (ok tt, w)
        | some a ↦ after (delete_file S a.storage_path w) (λ _ w₁.
            commit S (record w₁ { artifacts = filter (λ b. not (b.id == a.id)) w₁.artifacts }) w₁)
      ]
