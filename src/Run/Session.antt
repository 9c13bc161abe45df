-- ===== src/Run/Session.antt =====
-- The first half of `execute`: the rate limit, the session, its lock and the row of the run.
use root_agent.Common.{
  ◌==◌, if◌then◌else◌, any, find?, ℕ, String, Bool, true, false, ◌&&◌, ◌||◌, Option, none, some,
  List, ◌∷◌, ◌++◌, str_eq, Text, codes,
}
use root_agent.Run.Model.{
  running, Chat, ChatRun, Tables, Exn, Call, M, ◌>>=◌, ◌>>◌, pure, raise, modify, gets, call,
  at_session,
}
use root_agent.Run.Replay.{ChatResponse, find_run, existing_result, is_running}

-- What `execute` is given, with what it draws: the identifiers of a new chat and its session and
-- of the run, the token of the lock, and the digest of the request.
pub record Request : Type 0 where
  pub user_id : ℕ
  pub request_id : ℕ
  pub session_id : Option ℕ
  pub digest : String
  pub correlation_id : ℕ
  pub new_chat_id : ℕ
  pub new_session_id : ℕ
  pub new_run_id : ℕ
  pub token : String

abbrev refusal : String → Text → ℕ → Bool → Option ℕ → Option ℕ → Exn
refusal code message status_code retryable run_id session_id = Exn.failure (record {
  code = code;
  message = message;
  status_code = status_code;
  retryable = retryable;
  run_id = run_id;
  session_id = session_id;
})

abbrev pub new_run : Request → Chat → ChatRun
new_run r chat = record {
  id = r.new_run_id;
  user_id = r.user_id;
  chat_id = chat.id;
  request_id = r.request_id;
  query_digest = r.digest;
  status = running;
  correlation_id = r.correlation_id;
  final_answer = none;
  message_id = none;
  error_code = none;
  error_message = none;
  completed_at = none;
}

-- `get_owned_session`
unfoldable pub get_owned_session : Tables → ℕ → ℕ → Option Chat
get_owned_session t user_id session_id =
    find? (λ c. c.user_id == user_id && c.session_id == session_id) t.chats

-- The unique constraints of `chat_runs`: one run for a user's request, and one running run for a
-- chat.
unfoldable pub clashes : ChatRun → ChatRun → Bool
clashes run r =
    (r.user_id == run.user_id && r.request_id == run.request_id)
    || (r.chat_id == run.chat_id && is_running r.status && is_running run.status)

abbrev pub in_progress : Option ℕ → ℕ → Exn
in_progress run_id session_id =
    refusal "run_in_progress" (codes "A chat run is already active for this session") 409 true
      run_id (some session_id)

module _ (raises : Call → Option Exn) (artifacts : ℕ → List ℕ) where
  -- `redis_store.acquire_run_lock`: the token, if the lock was free.
  unfoldable pub acquire_lock : Call → ℕ → ℕ → String → M (Option String)
  acquire_lock site user session token = do
    call raises site
    held ← gets (λ w. w.lock user session)
    elim held [
      | some other ↦ pure none
      | none ↦
          modify (λ w. record w { lock = at_session w.lock user session (some token) })
          >> pure (some token)
    ]

  -- `redis_store.release_run_lock`: only the holder's token gives the lock back.
  unfoldable pub release_lock : Call → ℕ → ℕ → String → M (Unit {0})
  release_lock site user session token = do
    call raises site
    held ← gets (λ w. w.lock user session)
    elim held [
      | none ↦ pure tt
      | some other ↦
          if str_eq other token
          then modify (λ w. record w { lock = at_session w.lock user session none })
          else pure tt
    ]

  -- The session of the request: a new one, or an existing one of the user.
  unfoldable pub resolve_session : Request → M Chat
  unfolding get_owned_session
  resolve_session r = elim r.session_id [
    | none ↦ do
      let chat : Chat = record {
        id = r.new_chat_id;
        user_id = r.user_id;
        session_id = r.new_session_id;
        deletion_requested_at = none;
      }
      modify (λ w. record w { db = record (w.db) { chats = chat ∷ w.db.chats } })
      call raises Call.flush_chat
      pure chat
    | some session_id ↦ do
      call raises Call.owned_session
      found ← gets (λ w. get_owned_session w.db r.user_id session_id)
      elim found [
        | none ↦
            raise
              (refusal "session_not_found" (codes "The session does not exist") 404 false none none)
        | some chat ↦ elim chat.deletion_requested_at [
          | none ↦ pure chat
          | some at ↦ raise (
              refusal "session_deleting" (codes "The session is pending deletion") 409 false none
                (some chat.session_id))
        ]
      ]
  ]

  settle : ChatRun → Bool → M (Unit {0})
  settle run true = raise Exn.integrity_error
  settle run false = modify (λ w. record w {
    db = record (w.db) { runs = run ∷ w.durable.runs };
    durable = record { chats = w.db.chats; runs = run ∷ w.durable.runs };
  })

  -- `db.commit()` and `db.refresh()` of the new row. If only the second raises, the row stays, as
  -- running. `rivals` are rows that other workers committed meanwhile.
  unfoldable pub commit_run : List ChatRun → ChatRun → M (Unit {0})
  unfolding clashes settle
  commit_run rivals run = do
    call raises Call.commit_run
    modify (λ w. record w { durable = record (w.durable) { runs = rivals ++ w.durable.runs } })
    clash ← gets (λ w. any (clashes run) w.durable.runs)
    settle run clash
    call raises Call.refresh_run

  -- The row was refused: another worker was first with the request, or runs in the session.
  unfoldable pub lost_race : Request → Chat → Bool → M ChatResponse
  unfolding find_run existing_result
  lost_race r chat sink = do
    call raises Call.find_again
    existing ← gets (λ w. find_run w.db r.user_id r.request_id)
    elim existing [
      | some (run, its_chat) ↦ existing_result raises artifacts run its_chat r.digest sink
      | none ↦ do
        call raises Call.find_active
        active ← gets (λ w. find? (λ a. a.chat_id == chat.id && is_running a.status) w.db.runs)
        elim active [
          | some a ↦ call raises Call.read_chat >> raise (in_progress (some a.id) chat.session_id)
          | none ↦ raise Exn.integrity_error
        ]
    ]
