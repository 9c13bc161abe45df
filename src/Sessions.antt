-- ===== src/Sessions.antt =====
-- The sessions of a user and what hangs on them: rows of chats, runs and artifacts, objects in the
-- storage, history keys in Redis, and local workspaces. This file has the state, the storage's
-- operations of backend/app/services/storage.py, and the keys of
-- backend/app/services/artifact_service.py.
pub mod Service
pub mod Artifacts
pub mod Prefix
pub mod Keys
pub mod Deletion
pub mod Sound
pub mod Single
pub mod Erased
pub mod Cascade
pub mod Orphans
pub mod Isolation
pub mod Calls
pub mod View
pub mod Created
pub mod Refine
pub mod Routes
pub mod Pending
use root_agent.Common.{
  if◌then◌else◌, filter, ℕ, ◌+◌, ◌-◌, ◌/◌, Bool, not, List, [], ◌∷◌, ◌++◌, map, reverse, Text,
  codes, text_eq, starts_with,
}
use root_agent.Common.Result.{after, Result, ok, err, ◌>>=◌, ◌>>◌, refuse, is_ok}
use root_agent.Run.Model.{Chat, ChatRun}
use root_agent.Artifacts.Gateway.{Bytes}
use root_agent.Artifacts.Gateway.Reading.{Artifact}

pub record Object : Type 0 where
  pub name : Text
  pub content : Bytes

pub record World : Type 0 where
  pub users : List ℕ
  pub chats : List Chat
  pub runs : List ChatRun
  pub artifacts : List Artifact
  pub objects : List Object
  pub keys : List Text
  pub workspaces : List Text

pub data SessionError : Type 0 where
  session_not_found duplicate_filename : SessionError
  storage_failed redis_failed workspace_failed commit_failed refresh_failed : SessionError

-- Which calls of the libraries fail, and what they draw: the text of an identifier, the cleaning of
-- a filename (of Artifacts/Uploads, with its Unicode tables), a new identifier, the time.
-- `bad_workspace` says that an identifier is no UUID or leads out of the root, and `rmtree_fails`
-- that a workspace stays, an error that is ignored.
pub record Setting : Type 0 where
  pub uuid : ℕ → Text
  pub clean : Text → Text → Text
  pub fallback : Text
  pub new_id : ℕ
  pub now : ℕ
  pub upload_fails : Text → Bool
  pub list_fails : Text → Bool
  pub remove_fails : Text → Bool
  pub redis_fails : Bool
  pub is_local : Bool
  pub bad_workspace : Text → Bool
  pub rmtree_fails : Text → Bool
  pub commit_fails : Bool
  pub refresh_fails : Bool

abbrev pub Step : Type 0 → Type 0
Step A = Result SessionError A × World

abbrev pub is_named : Text → Object → Bool
is_named name o = text_eq o.name name

abbrev pub without_object : Text → List Object → List Object
without_object name objects = filter (λ o. not (is_named name o)) objects

module _ (S : Setting) where
  unfoldable pub chat_storage_prefix : ℕ → ℕ → Text
  chat_storage_prefix user_id chat_id =
      S.uuid user_id ++ (codes "/" ++ (S.uuid chat_id ++ codes "/"))

  unfoldable pub user_storage_prefix : ℕ → Text
  user_storage_prefix user_id = S.uuid user_id ++ codes "/"

  -- `delete_file`
  abbrev pub delete_file : Text → World → Step (Unit {0})
  delete_file name w =
      if S.remove_fails name
      then (err storage_failed, w)
      else (ok tt, record w { objects = without_object name w.objects })

  -- `upload_stream`: an object of the name is replaced.
  abbrev pub upload_stream : Text → Bytes → World → Step (Unit {0})
  upload_stream name content w = if S.upload_fails name then (err storage_failed, w) else (
    ok tt,
    record w {
      objects = record { name = name; content = content } ∷ without_object name w.objects;
    },
  )

  -- `prefix if prefix.endswith("/") else f"{prefix}/"`
  abbrev pub normalized : Text → Text
  normalized prefix =
      if starts_with (reverse prefix) (codes "/") then prefix else prefix ++ codes "/"

  abbrev pub delete_names : List Text → World → Step (Unit {0})
  delete_names [] w = (ok tt, w)
  delete_names (name ∷ names) w = after (delete_file name w) (λ done w₁. delete_names names w₁)

  abbrev pub under : Text → Object → Bool
  under prefix o = starts_with o.name prefix

  -- `_delete_prefix_sync`: the names are listed first.
  unfoldable pub delete_prefix : Text → World → Step (Unit {0})
  delete_prefix prefix w =
      let path = normalized prefix in
      if S.list_fails path
      then (err storage_failed, w)
      else delete_names (map Object.name (filter (under path) w.objects)) w
