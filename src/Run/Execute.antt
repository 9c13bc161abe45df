-- ===== src/Run/Execute.antt =====
-- `execute`: the two halves, the handlers of the `try` block, and its `finally`.
pub mod Outcome
use root_agent.Common.{
  ltb, leb, ◌==◌, if◌then◌else◌, ltb→lt, leb→le, ==_iff, ==_refl, Bool-cases, Option-cases, length,
  take, drop, filter, any, find?, sum_by, All, length-append, sum_by-append, length-take,
  length-drop, take-append-drop, length-filter, sum_by-filter, All-filter, All-append, ℕ, zero, suc,
  ◌+◌, ◌-◌, ◌*◌, ◌/◌, ◌%◌, ◌^◌, ◌≤◌, ◌<◌, min, max, String, ◌<>◌, ◌≡◌, refl, sym, ap, ◌∙◌, subst,
  fun_ext, ◌≢◌, ◌↔◌, ◌⊎◌, inl, inr, Bool, true, false, not, ◌&&◌, ◌||◌, Option, none, some, List,
  [], ◌∷◌, ◌++◌, map, reverse, arith, str_eq, eq_iff, All_mono, and_left, and_right, or_left,
  or_right, not-true, true≢false, false≢true, All-Memᴰ, All-filter_mono, Memᴰ, Text, codes,
  is_space, drop_while, rstrip_by, strip_by, strip, text_eq, starts_with, contains, is_empty,
  length-drop_while, str_eq_refl, text_eq_refl, text_eq_sound, text_eq_sym,
}
use root_agent.Common.Result.{Result, ok, err}
use root_agent.Run.Model.{
  Status, failed, Chat, ChatRun, Tables, Failure, Exn, Call, World, M, ◌>>=◌, ◌>>◌, pure, raise,
  modify, gets, call, roll_back, at_session, catch_with, finally_with, quietly, when, is_exception,
}
use root_agent.Run.Replay.{ChatResponse, find_run, existing_result}
use root_agent.Run.Session.{
  Request, new_run, get_owned_session, acquire_lock, release_lock, resolve_session, commit_run,
  lost_race, in_progress,
}
use root_agent.Run.Body.{Setup, set_run, committed, try_body}

-- What the `except` clauses make of an exception: the code and message that are stored, and the
-- status and retryability that are reported. A `ChatRunFailure` passes unchanged, and so does what
-- is no `Exception`.
pub record Report : Type 0 where
  pub code : String
  pub message : Text
  pub status_code : ℕ
  pub retryable : Bool

unfoldable pub report : Exn → Option Report
report (Exn.failure f) = none
report Exn.cancelled = none
report (Exn.generated_output_error code message status_code) =
    some (record { code = code; message = message; status_code = status_code; retryable = false })
report Exn.sandbox_unavailable = some (record {
  code = "sandbox_unavailable";
  message = codes "The configured sandbox is unavailable";
  status_code = 503;
  retryable = true;
})
report _ = some (record {
  code = "execution_failed";
  message = codes "The chat run could not be completed";
  status_code = 500;
  retryable = true;
})

-- The row after a failure: its message is cut at 512 characters.
abbrev pub failed_run : Setup → ChatRun → Report → ChatRun
failed_run setup run e = record run {
  status = failed;
  error_code = some e.code;
  error_message = some (take 512 e.message);
  completed_at = some setup.now;
}

-- The tables without a chat, whose runs go with it.
abbrev pub without : Chat → Tables → Tables
without chat t = record {
  chats = filter (λ c. not (c.id == chat.id)) t.chats;
  runs = filter (λ x. not (x.chat_id == chat.id)) t.runs;
}

abbrev too_many : Exn
too_many = Exn.failure (record {
  code = "rate_limited";
  message = codes "Too many chat requests";
  status_code = 429;
  retryable = true;
  run_id = none;
  session_id = none;
})

-- The variables that `finally` reads are not set before the `try`.
abbrev pub started : World → World
started w = record w { executor = false; workspace = false; gateway = false }

module _ (raises : Call → Option Exn) (artifacts : ℕ → List ℕ) (r : Request) (setup : Setup) where
  -- `_mark_failed`: the failure is stored, or the session is rolled back.
  unfoldable pub mark_failed : ChatRun → Report → M (Unit {0})
  mark_failed run e =
      quietly
        (modify (set_run (failed_run setup run e))
          >> (call raises Call.mark_failed >> modify committed))
        (roll_back raises >> call raises Call.log_mark)

  -- The last `except` clause reads the run's identifier for the log before it marks the run.
  abbrev pub log_failure : Exn → M (Unit {0})
  log_failure Exn.sandbox_unavailable = pure tt
  log_failure (Exn.generated_output_error code message status_code) = pure tt
  log_failure e = call raises Call.log_run

  -- The `except` clauses.
  unfoldable pub handle : Chat → ChatRun → Exn → M ChatResponse
  unfolding report mark_failed
  handle chat run e = elim (report e) [
    | none ↦ raise e
    | some rep ↦ do
      log_failure e
      mark_failed run rep
      call raises Call.read_run
      raise (
          Exn.failure (record {
            code = rep.code;
            message = rep.message;
            status_code = rep.status_code;
            retryable = rep.retryable;
            run_id = some run.id;
            session_id = some chat.session_id;
          }))
  ]

  abbrev pub destroy_workspace : ChatRun → M (Unit {0})
  destroy_workspace run = do
    call raises Call.destroy_workspace
    modify (λ w. record w { workspaces = filter (λ x. not (x == run.id)) w.workspaces })

  -- `session_service.delete_session`, with its history, its runs and its row.
  abbrev pub delete_session : Chat → M (Unit {0})
  delete_session chat = do
    call raises Call.delete_session
    modify (λ w. record w {
      db = without chat w.db;
      durable = without chat w.durable;
      history = at_session w.history chat.user_id chat.session_id [];
    })

  -- A deletion that was requested during the run (`pending`) is carried out under the lock, which
  -- is given back also if it fails.
  abbrev pub finish_deletion : Chat → Bool → String → M (Unit {0})
  finish_deletion chat pending cleanup_token = do
    call raises Call.pending_session
    token ←
        (if pending
          then acquire_lock raises artifacts Call.acquire_cleanup r.user_id chat.session_id
              cleanup_token
          else pure none)
    elim token [
      | none ↦ pure tt
      | some t ↦ λ w.
          finally_with (delete_session chat w)
            (release_lock raises artifacts Call.release_cleanup r.user_id chat.session_id t)
    ]

  -- The `finally` block. Waiting for the heartbeat and closing the gateway are not guarded.
  unfoldable pub finalize : Chat → ChatRun → Bool → String → M (Unit {0})
  unfolding acquire_lock release_lock
  finalize chat run pending cleanup_token w =
      (call raises Call.await_heartbeat
          >> (quietly (when (w.executor && w.workspace) (destroy_workspace run)) (pure tt)
              >> (when w.gateway (call raises Call.close_gateway)
                  >> (quietly (when w.executor (call raises Call.close_executor))
                        (call raises Call.log_close)
                      >> (quietly
                            (release_lock raises artifacts Call.release_lock r.user_id
                              chat.session_id r.token)
                            (call raises Call.log_release)
                          >> quietly (finish_deletion chat pending cleanup_token)
                              (call raises Call.log_deletion))))))
        w

  -- The row is there: run the agent, handle what it raises, and clean up.
  unfoldable pub guarded : Chat → ChatRun → Bool → Bool → String → M ChatResponse
  unfolding try_body handle finalize
  guarded chat run sink pending cleanup_token w =
      finally_with
        (catch_with (try_body raises r chat run setup sink (started w)) (handle chat run))
        (finalize chat run pending cleanup_token)

  abbrev after_refusal : Chat → Bool → Exn → M ChatResponse
  after_refusal chat sink Exn.integrity_error = lost_race raises artifacts r chat sink
  after_refusal chat sink e = raise e

  -- The commit of the row failed: roll back, give the lock back, and see who was first.
  unfoldable pub not_started : Chat → Bool → Exn → M ChatResponse
  unfolding release_lock lost_race
  not_started chat sink e = do
    roll_back raises
    release_lock raises artifacts Call.release_lock r.user_id chat.session_id r.token
    after_refusal chat sink e

  -- Another run holds the lock.
  abbrev refuse_busy : Chat → M ChatResponse
  refuse_busy chat = do
    roll_back raises
    call raises Call.read_chat
    raise (in_progress none chat.session_id)

  abbrev with_lock : List ChatRun → Bool → Bool → String → Chat → Option String → M ChatResponse
  with_lock rivals sink pending cleanup_token chat none w = refuse_busy chat w
  with_lock rivals sink pending cleanup_token chat (some token) w =
      let (result, w') = commit_run raises artifacts rivals (new_run r chat) w in
      elim result [
        | ok done ↦ guarded chat (new_run r chat) sink pending cleanup_token w'
        | err e ↦ if is_exception e then not_started chat sink e w' else (err e, w')
      ]

  -- `allowed` is the verdict of the rate limit. `rivals`, `pending` and `cleanup_token` are what
  -- other workers commit and request meanwhile, and a second token.
  unfoldable pub execute : Bool → List ChatRun → Bool → Bool → String → M ChatResponse
  unfolding find_run existing_result resolve_session acquire_lock commit_run guarded not_started
  execute allowed rivals sink pending cleanup_token = do
    call raises Call.find_run
    existing ← gets (λ w. find_run w.db r.user_id r.request_id)
    elim existing [
      | some (run, chat) ↦ existing_result raises artifacts run chat r.digest sink
      | none ↦ do
        call raises Call.rate_limit
        chat ← (if allowed then resolve_session raises artifacts r else raise too_many)
        lock_token ←
            acquire_lock raises artifacts Call.acquire_lock r.user_id chat.session_id r.token
        with_lock rivals sink pending cleanup_token chat lock_token
    ]
