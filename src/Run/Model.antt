-- ===== src/Run/Model.antt =====
-- The state that a run changes, the calls that may fail, and the exceptions that they raise.
use root_agent.Common.{
  ◌==◌, if◌then◌else◌, ==_refl, ℕ, String, ◌≡◌, refl, Bool, true, false, ◌&&◌, Option, none, some,
  List, [], ◌∷◌, ◌++◌, Text,
}
use root_agent.Common.Result.{Result, ok, err}
use root_agent.Chat.Message.{Message}

pub data Status : Type 0 where
  running completed failed : Status

-- The rows of `Chat` and `ChatRun` (backend/app/db/models.py).
pub record Chat : Type 0 where
  pub id : ℕ
  pub user_id : ℕ
  pub session_id : ℕ
  pub deletion_requested_at : Option ℕ

pub record ChatRun : Type 0 where
  pub id : ℕ
  pub user_id : ℕ
  pub chat_id : ℕ
  pub request_id : ℕ
  pub query_digest : String
  pub status : Status
  pub correlation_id : ℕ
  pub final_answer : Option Text
  pub message_id : Option String
  pub error_code : Option String
  pub error_message : Option Text
  pub completed_at : Option ℕ

pub record Tables : Type 0 where
  pub chats : List Chat
  pub runs : List ChatRun

-- What is sent to the client.
pub data Event : Type 0 where
  run_started : ℕ → Event
  step_event : ℕ → Event
  tool_event : ℕ → Text → Event
  artifact_event : ℕ → Event
  done : ℕ → Text → String → List ℕ → Event

-- `ChatRunFailure`
pub record Failure : Type 0 where
  pub code : String
  pub message : Text
  pub status_code : ℕ
  pub retryable : Bool
  pub run_id : Option ℕ
  pub session_id : Option ℕ

pub data Exn : Type 0 where
  failure : Failure → Exn
  integrity_error : Exn
  sandbox_unavailable : Exn
  generated_output_error : String → Text → ℕ → Exn
  -- any other `Exception`
  other : Exn
  -- `CancelledError`, which is no `Exception`
  cancelled : Exn

abbrev pub is_exception : Exn → Bool
is_exception Exn.cancelled = false
is_exception e = true

-- The places from which the run calls what is outside of it, and which may raise there. Places
-- inside a loop are numbered. Among them are the places that read an attribute of a row after a
-- rollback or a failed flush, since the row has expired then and cannot be loaded: `read_chat` and
-- `read_run`, and for the log `log_run`, `log_final`, `log_mark`, `log_close`, `log_release` and
-- `log_deletion`.
pub data Call : Type 0 where
  find_run find_again find_active rate_limit flush_chat owned_session acquire_lock commit_run : Call
  refresh_run db_rollback read_chat : Call
  create_executor prepare_workspace create_gateway save_question load_history : Call
  deliver : ℕ → Call
  save_trace : ℕ → Call
  collect_outputs persist_outputs save_final commit_final delete_final : Call
  mark_failed log_run log_final log_mark read_run : Call
  await_heartbeat destroy_workspace close_gateway close_executor release_lock : Call
  log_close log_release log_deletion : Call
  pending_session acquire_cleanup delete_session release_cleanup : Call

-- `db` is the session's view and `durable` what is committed. The lock of a session shows its
-- holder, and its history is the stored messages. `executor`, `workspace` and `gateway` say whether
-- these variables of `execute`, which its `finally` reads, are set.
pub record World : Type 0 where
  pub db : Tables
  pub durable : Tables
  pub lock : ℕ → ℕ → Option String
  pub history : ℕ → ℕ → List Message
  pub workspaces : List ℕ
  pub executor : Bool
  pub workspace : Bool
  pub gateway : Bool
  pub sent : List Event

-- Code that may raise, and keeps what it did before.
abbrev pub M {ℓ} : Type ℓ → Type ℓ
M A = World → Result Exn A × World

abbrev pub resume {ℓ κ} :
    {A : Type ℓ} {B : Type κ}
    → Result Exn A
    → World
    → (A → World → Result Exn B × World)
    → Result Exn B × World
resume (ok a) w f = f a w
resume (err e) w f = (err e, w)

infixl 5 ◌>>=◌ ◌>>◌
abbrev pub ◌>>=◌ {ℓ κ} : {A : Type ℓ} {B : Type κ} → M A → (A → M B) → M B
◌>>=◌ m f w = let (r, w') = m w in resume r w' f

abbrev pub ◌>>◌ {ℓ} : {B : Type ℓ} → M (Unit {0}) → M B → M B
m >> k = m >>= λ _. k

abbrev pub pure {ℓ} : {A : Type ℓ} → A → M A
pure a w = (ok a, w)

abbrev pub raise {ℓ} : {A : Type ℓ} → Exn → M A
raise e w = (err e, w)

abbrev pub modify : (World → World) → M (Unit {0})
modify f w = (ok tt, f w)

abbrev pub gets {ℓ} : {A : Type ℓ} → (World → A) → M A
gets f w = (ok (f w), w)

-- `try: m except Exception as e: handler(e)`
abbrev pub catch_with {ℓ} : {A : Type ℓ} → Result Exn A × World → (Exn → M A) → Result Exn A × World
catch_with (ok a, w) handler = (ok a, w)
catch_with (err e, w) handler = if is_exception e then handler e w else (err e, w)

-- `try: m finally: cleanup`, as `m` ended: an exception of `cleanup` replaces the outcome.
abbrev pub finally_with {ℓ} :
    {A : Type ℓ} → Result Exn A × World → M (Unit {0}) → Result Exn A × World
finally_with (result, w) cleanup =
    let (cleaned, w') = cleanup w in (elim cleaned [ ok _ ↦ result | err e ↦ err e ], w')

-- A step whose `Exception` is logged and dropped. The log may raise as well.
abbrev pub quietly : M (Unit {0}) → M (Unit {0}) → M (Unit {0})
quietly m log w = catch_with (m w) (λ e. log)

abbrev pub when : Bool → M (Unit {0}) → M (Unit {0})
when true m = m
when false m = pure tt

-- `db.rollback()` that does not raise
abbrev pub rollback : World → World
rollback w = record w { db = w.durable }

-- A write at one session's key.
abbrev pub at_session {ℓ} : {A : Type ℓ} → (ℕ → ℕ → A) → ℕ → ℕ → A → ℕ → ℕ → A
at_session f user session a u s = if user == u && session == s then a else f u s

pub at_session-own {ℓ} :
    {A : Type ℓ} (f : ℕ → ℕ → A) (user session : ℕ) (a : A)
    → at_session f user session a user session ≡ a
at_session-own f user session a = rw (==_refl user, ==_refl session) refl

-- Every place at which a run calls out may raise.
module _ (raises : Call → Option Exn) where
  abbrev pub call : Call → M (Unit {0})
  call c w = elim (raises c) [ none ↦ (ok tt, w) | some e ↦ (err e, w) ]

  -- `db.rollback()`
  abbrev pub roll_back : M (Unit {0})
  roll_back = call Call.db_rollback >> modify rollback

  -- `_deliver_event`: whether the event went out. Delivery raises no `Exception`; a cancellation of
  -- the task during a delivery is not modelled.
  unfoldable pub deliver_event : Bool → ℕ → Event → World → Bool × World
  deliver_event sink n event w =
      if sink
      then elim (raises (deliver n)) [
        | none ↦ (true, record w { sent = w.sent ++ event ∷ [] })
        | some e ↦ (false, w)
      ]
      else (false, w)
