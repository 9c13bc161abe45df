-- ===== src/Run/Replay.antt =====
-- A request whose identifier was used before: `_find_run`, `_response`, `get_run` and
-- `_existing_result`.
pub mod Laws
use root_agent.Common.{
  ◌==◌, if◌then◌else◌, length, find?, ℕ, ◌+◌, ◌-◌, String, Bool, true, false, not, ◌&&◌, Option,
  none, some, List, [], ◌∷◌, str_eq, Text, codes,
}
use root_agent.Common.Result.{Result, ok, err, ◌>>=◌, ◌>>◌, refuse, is_ok}
use root_agent.Agent.{or_text}
use root_agent.Run.Model.{
  Status, running, completed, failed, Chat, ChatRun, Tables, Event, run_started, artifact_event,
  done, Failure, Exn, Call, World, M, deliver_event,
}

pub record ChatResponse : Type 0 where
  pub run_id : ℕ
  pub request_id : ℕ
  pub session_id : ℕ
  pub status : Status
  pub response : Option Text
  pub message_id : Option String
  pub error_code : Option String
  pub error_message : Option Text
  pub retryable : Bool
  pub artifacts : List ℕ

abbrev pub is_failed : Status → Bool
is_failed failed = true
is_failed _ = false

abbrev pub is_completed : Status → Bool
is_completed completed = true
is_completed _ = false

abbrev pub is_running : Status → Bool
is_running running = true
is_running _ = false

abbrev pub string_or : Option String → String → String
string_or none d = d
string_or (some s) d = if str_eq s "" then d else s

abbrev pub text_or_empty : Option Text → Text
text_or_empty none = []
text_or_empty (some t) = t

-- The join of `ChatRun` and `Chat`.
abbrev pub joined : Tables → Option ChatRun → Option (ChatRun × Chat)
joined t none = none
joined t (some run) = elim (find? (λ c. c.id == run.chat_id) t.chats) [
  | none ↦ none
  | some chat ↦ some (run, chat)
]

unfoldable pub find_run : Tables → ℕ → ℕ → Option (ChatRun × Chat)
find_run t user_id request_id =
    joined t (find? (λ r. r.user_id == user_id && r.request_id == request_id) t.runs)

-- `artifacts` has the artifacts of a run, in the order of `_artifact_metadata`.
module _ (raises : Call → Option Exn) (artifacts : ℕ → List ℕ) where
  unfoldable pub response : ChatRun → Chat → ChatResponse
  response run chat = record {
    run_id = run.id;
    request_id = run.request_id;
    session_id = chat.session_id;
    status = run.status;
    response = run.final_answer;
    message_id = run.message_id;
    error_code = run.error_code;
    error_message = run.error_message;
    retryable = is_failed run.status;
    artifacts = artifacts run.id;
  }

  unfoldable pub get_run : Tables → ℕ → ℕ → Option ChatResponse
  unfolding find_run response
  get_run t user_id request_id = elim (find_run t user_id request_id) [
    | none ↦ none
    | some (run, chat) ↦ some (response run chat)
  ]

  -- The artifact events, while they are delivered; then whether all were.
  unfoldable pub deliver_artifacts : ℕ → List ℕ → Bool → World → Bool × World
  unfolding deliver_event
  deliver_artifacts n [] delivered w = (delivered, w)
  deliver_artifacts n (a ∷ as') delivered w =
      let (delivered', w') = deliver_event raises true n (artifact_event a) w in
      let rest = deliver_artifacts (n + 1) as' delivered' w' in
      if delivered then rest else (false, w)

  abbrev finish : ℕ → Event → Bool × World → World
  finish n event (delivered, w) = (deliver_event raises delivered n event w).1

  unfoldable pub replay_events : ChatRun → World → World
  unfolding deliver_artifacts
  replay_events run w =
      let (started, w₁) = deliver_event raises true 0 (run_started run.id) w in
      finish (1 + length (artifacts run.id))
        (done run.id (text_or_empty run.final_answer) (string_or run.message_id "")
          (artifacts run.id))
        (deliver_artifacts 1 (artifacts run.id) started w₁)

  unfoldable pub existing_result : ChatRun → Chat → String → Bool → M ChatResponse
  unfolding response replay_events
  existing_result run chat digest sink w =
      if not (str_eq run.query_digest digest)
      then (
        err (
            Exn.failure (record {
              code = "request_id_conflict";
              message = codes "The request ID was already used for different input";
              status_code = 409;
              retryable = false;
              run_id = some run.id;
              session_id = some chat.session_id;
            })),
        w,
      )
      else if is_failed run.status
      then (
        err (
            Exn.failure (record {
              code = string_or run.error_code "execution_failed";
              message = or_text run.error_message (codes "The chat run could not be completed");
              status_code = 500;
              retryable = true;
              run_id = some run.id;
              session_id = some chat.session_id;
            })),
        w,
      )
      else (
        ok (response run chat),
        if is_completed run.status && sink then replay_events run w else w,
      )
