-- ===== src/Sessions/Service.antt =====
-- backend/app/services/session_service.py
use root_agent.Common.{
  ◌==◌, if◌then◌else◌, filter, any, find?, ℕ, Bool, not, ◌&&◌, ◌||◌, Option, none, some, List, [],
  ◌∷◌, ◌++◌, map, Text, codes, text_eq,
}
use root_agent.Common.Result.{after, ok, err}
use root_agent.Run.Model.{Chat, ChatRun}
use root_agent.Sessions.{
  World, Setting, Step, redis_failed, workspace_failed, commit_failed, refresh_failed,
  chat_storage_prefix, user_storage_prefix, delete_prefix,
}

abbrev pub is_session : ℕ → ℕ → Chat → Bool
is_session user_id session_id c = c.user_id == user_id && c.session_id == session_id

-- `newest_first` is the database's ORDER BY.
unfoldable pub list_sessions : (List Chat → List Chat) → ℕ → List Chat → List Chat
list_sessions newest_first user_id chats = newest_first (filter (λ c. c.user_id == user_id) chats)

-- What the database deletes with a chat, and with a user. The run of an artifact is one of its
-- chat, so that no artifact that stays loses its run.
abbrev pub cascade_chat : ℕ → World → World
cascade_chat chat_id w = record w {
  chats = filter (λ c. not (c.id == chat_id)) w.chats;
  runs = filter (λ r. not (r.chat_id == chat_id)) w.runs;
  artifacts = filter (λ a. not (a.chat_id == chat_id)) w.artifacts;
}

abbrev pub owns : ℕ → List Chat → ℕ → Bool
owns user_id chats chat_id = any (λ c. c.user_id == user_id && c.id == chat_id) chats

abbrev pub cascade_user : ℕ → World → World
cascade_user user_id w = record w {
  users = filter (λ u. not (u == user_id)) w.users;
  chats = filter (λ c. not (c.user_id == user_id)) w.chats;
  runs = filter (λ r. not (r.user_id == user_id || owns user_id w.chats r.chat_id)) w.runs;
  artifacts =
      filter (λ a. not (a.user_id == user_id || owns user_id w.chats a.chat_id)) w.artifacts;
}

abbrev pub is_in : Text → List Text → Bool
is_in x xs = any (text_eq x) xs

module _ (S : Setting) where
  -- The key of a session's history.
  abbrev pub session_key : ℕ → ℕ → Text
  session_key user_id session_id =
      codes "session:" ++ (S.uuid user_id ++ (codes ":" ++ S.uuid session_id))

  abbrev pub delete_keys : List Text → World → Step (Unit {0})
  delete_keys keys w =
      if S.redis_fails
      then (err redis_failed, w)
      else (ok tt, record w { keys = filter (λ k. not (is_in k keys)) w.keys })

  abbrev pub remove_directories : List Text → World → Step (Unit {0})
  remove_directories [] w = (ok tt, w)
  remove_directories (id ∷ ids) w =
      if S.bad_workspace id
      then (err workspace_failed, w)
      else remove_directories ids (record w {
        workspaces =
            if S.rmtree_fails id
            then w.workspaces
            else filter (λ d. not (text_eq d id)) w.workspaces;
      })

  -- `_remove_local_workspaces`
  unfoldable pub remove_local_workspaces : List Text → World → Step (Unit {0})
  remove_local_workspaces ids w = if S.is_local then remove_directories ids w else (ok tt, w)

  abbrev pub commit : World → World → Step (Unit {0})
  commit changed w = if S.commit_fails then (err commit_failed, w) else (ok tt, changed)

  unfoldable pub resolve_run_session : ℕ → Option ℕ → ℕ → World → Step (Option Chat)
  resolve_run_session user_id (some session_id) new_session w =
      (ok (find? (is_session user_id session_id) w.chats), w)
  resolve_run_session user_id none new_session w =
      let chat : Chat = record {
        id = S.new_id;
        user_id = user_id;
        session_id = new_session;
        deletion_requested_at = none;
      } in
      after (commit (record w { chats = chat ∷ w.chats }) w)
        (λ done w₁. if S.refresh_fails then (err refresh_failed, w₁) else (ok (some chat), w₁))

  -- The steps of `delete_session` on a chat that was found, which is the user's and the session's.
  unfoldable pub wipe_session : Chat → World → Step (Unit {0})
  unfolding delete_prefix remove_local_workspaces
  wipe_session chat w =
      let workspace_ids =
        map (λ r. S.uuid (ChatRun.id r)) (filter (λ r. r.chat_id == chat.id) w.runs) in
      after (delete_prefix S (chat_storage_prefix S chat.user_id chat.id) w) (λ _ w₁.
        after (delete_keys (session_key chat.user_id chat.session_id ∷ []) w₁) (λ _ w₂.
          after (remove_local_workspaces workspace_ids w₂)
            (λ _ w₃. commit (cascade_chat chat.id w₃) w₃)))

  unfoldable pub delete_session : ℕ → ℕ → World → Step (Unit {0})
  unfolding wipe_session
  delete_session user_id session_id w = elim (find? (is_session user_id session_id) w.chats) [
    | none ↦ (ok tt, w)
    | some chat ↦ wipe_session chat w
  ]

  abbrev pub mark : Chat → Chat
  mark chat = record chat { deletion_requested_at = some S.now }

  unfoldable pub request_session_deletion : Chat → World → Step (Unit {0})
  request_session_deletion chat w = elim chat.deletion_requested_at [
    | some at ↦ (ok tt, w)
    | none ↦
        commit (record w { chats = map (λ c. if c.id == chat.id then mark c else c) w.chats }) w
  ]

  unfoldable pub delete_user : ℕ → World → Step (Unit {0})
  unfolding delete_prefix remove_local_workspaces
  delete_user user_id w =
      let session_ids = map Chat.session_id (filter (λ c. c.user_id == user_id) w.chats) in
      let workspace_ids =
        map (λ r. S.uuid (ChatRun.id r)) (filter (λ r. r.user_id == user_id) w.runs) in
      after (delete_prefix S (user_storage_prefix S user_id) w) (λ _ w₁.
        after (delete_keys (map (session_key user_id) session_ids) w₁) (λ _ w₂.
          after (remove_local_workspaces workspace_ids w₂)
            (λ _ w₃. commit (cascade_user user_id w₃) w₃)))
