-- ===== src/Tests/Run.antt =====
-- The theorems on backend/app/services/chat_run_service.py at concrete inputs.
use root_agent.Common.{
  if◌then◌else◌, Bool-cases, ◌≡◌, refl, ap, ◌≢◌, inl, inr, Bool, true, false, Option, none, some,
  [], ◌∷◌, true≢false, false≢true, codes,
}
use mathlib.Core.Option.{none-ne-some, some-injective}
use root_agent.Agent
use root_agent.Agent.{final_step}
use root_agent.Tests.Chat.{fives, plain_steps}
use root_agent.Run.Model.{completed, Chat, ChatRun, Exn, Failure, failure, Call, World, at_session}
use root_agent.Run.Session.{Request, new_run}
use root_agent.Run.Body.{Setup}
use root_agent.Common.Result.{err}
use root_agent.Chat.Message.{Message}
use root_agent.Chat.Projection.{message_for_assistant}
use root_agent.Run.Model.{cancelled, is_exception}
use root_agent.Run.Body.{publish}
use root_agent.Run.Body.Compensation.{publish_takes_back}
use root_agent.Run.Execute.{guarded, execute, handle, finalize, report, mark_failed}
use root_agent.Run.Session.{acquire_lock, release_lock}
use root_agent.Run.Body.{try_body, consume_all, consume, announce}
use root_agent.Run.Model.{deliver_event}
use root_agent.Run.Replay.{find_run, get_run}
use root_agent.Run.Replay.Laws.{SameStore}
use root_agent.Run.Execute.Outcome.Locked.{CanRelease, guarded_frees}
use root_agent.Run.Execute.Outcome.Settled.{guarded_settles}
use root_agent.Run.Execute.Outcome.Completed.{runs_on}
use root_agent.Run.Execute.Outcome.Again.{execute_again_keeps, execute_again_answers, map_ok}

abbrev request : Request
request = record {
  user_id = 1;
  request_id = 7;
  session_id = some 5;
  digest = "d";
  correlation_id = 9;
  new_chat_id = 3;
  new_session_id = 6;
  new_run_id = 2;
  token = "t";
}

abbrev chat : Chat
chat = record { id = 3; user_id = 1; session_id = 5; deletion_requested_at = none }

abbrev row : ChatRun
row = new_run request chat

abbrev setup : Setup
setup = record {
  stream = Agent.step 1 (final_step (codes "5")) ∷ [];
  generated = 4 ∷ [];
  json = fives;
  codec = plain_steps;
  question = codes "What is 2 + 3?";
  message_id = λ n. "m";
  now = 100;
}

-- The run's row is there and its lock is held.
abbrev begun : World
begun = record {
  db = record { chats = chat ∷ []; runs = row ∷ [] };
  durable = record { chats = chat ∷ []; runs = row ∷ [] };
  lock = at_session (λ u s. none) 1 5 (some "t");
  history = λ u s. [];
  workspaces = [];
  executor = false;
  workspace = false;
  gateway = false;
  sent = [];
}

-- Reading the history back fails, and nothing else does.
abbrev is_load : Call → Bool
is_load Call.load_history = true
is_load _ = false

abbrev faulty : Call → Option Exn
faulty c = if is_load c then some Exn.other else none

is_own : Exn → Bool
is_own (failure f) = true
is_own _ = false

faulty_foreign : (c : Call) (f : Failure) → faulty c ≢ some (failure f)
unfolding is_own
faulty_foreign c f e = elim (Bool-cases (is_load c)) [
  | inl loads ↦ false≢true (ap is_own (some-injective Exn.other (failure f) (rw loads at e)))
  | inr fine ↦ none-ne-some (failure f) (rw fine at e)
]

faulty_awake : (c : Call) → faulty c ≢ some cancelled
unfolding is_own
faulty_awake c e = elim (Bool-cases (is_load c)) [
  | inl loads ↦ true≢false (ap is_exception (some-injective Exn.other cancelled (rw loads at e)))
  | inr fine ↦ none-ne-some cancelled (rw fine at e)
]

-- The task is cancelled while the history is read, and no other place raises.
abbrev interrupted : Call → Option Exn
interrupted c = if is_load c then some cancelled else none

interrupted-CanRelease : CanRelease interrupted (λ n. []) request setup
interrupted-CanRelease = record {
  heartbeat = refl;
  workspace = λ e at. absurd (none-ne-some e at);
  gateway = refl;
  executor = λ e at. absurd (none-ne-some e at);
  log = refl;
  lock = refl;
  cleanup = refl;
}

guarded_frees_example :
    (guarded interrupted (λ n. []) request setup chat row true true "t2" begun).1.lock 1 5 ≡ none
guarded_frees_example =
    guarded_frees interrupted (λ n. []) request setup chat row true "t2" interrupted-CanRelease true
      begun refl

guarded_settles_example :
    runs_on 2 (guarded faulty (λ n. []) request setup chat row true false "t2" begun).1.durable.runs
    ≡ false
guarded_settles_example =
    guarded_settles faulty (λ n. []) request chat row setup true false "t2" begun refl refl
      faulty_foreign faulty_awake

-- A cancelled run stays running.
cancellation_leaves_row :
    runs_on 2
      (guarded interrupted (λ n. []) request setup chat row true false "t2" begun).1.durable.runs
    ≡ true
unfolding guarded try_body handle finalize acquire_lock release_lock consume_all publish announce
    deliver_event
cancellation_leaves_row = refl

-- The gateway cannot be closed.
abbrev is_close : Call → Bool
is_close Call.close_gateway = true
is_close _ = false

abbrev unclosed : Call → Option Exn
unclosed c = if is_close c then some Exn.other else none

-- The lock of such a run is kept.
unclosed_keeps_lock :
    (guarded unclosed (λ n. []) request setup chat row true false "t2" begun).1.lock 1 5 ≡ some "t"
unfolding guarded try_body handle finalize acquire_lock release_lock consume_all publish announce
    deliver_event consume report mark_failed
unclosed_keeps_lock = refl

-- The same run, completed.
abbrev done_row : ChatRun
done_row = record row { status = completed; final_answer = some (codes "5") }

abbrev finished : World
finished = record begun {
  db = record { chats = chat ∷ []; runs = done_row ∷ [] };
  durable = record { chats = chat ∷ []; runs = done_row ∷ [] };
}

execute_again_keeps_example :
    SameStore (execute faulty (λ n. []) request setup true [] true false "t2" finished).1 finished
unfolding find_run
execute_again_keeps_example =
    execute_again_keeps faulty (λ n. []) request setup true [] true false "t2" done_row chat
      finished refl refl

execute_again_answers_example :
    map_ok (execute faulty (λ n. []) request setup true [] true false "t2" finished).0
    ≡ get_run faulty (λ n. []) finished.db 1 7
unfolding find_run
execute_again_answers_example =
    execute_again_answers faulty (λ n. []) request setup true [] true false "t2" done_row chat
      finished refl refl refl refl

-- The commit of the completed run fails.
abbrev uncommitted : Call → Option Exn
uncommitted Call.commit_final = some Exn.other
uncommitted _ = none

abbrev answer_message : Message
answer_message = message_for_assistant plain_steps "m9" 100 (final_step (codes "5")) (some 1)

publish_takes_back_example :
    ((publish uncommitted request chat row setup (codes "5") answer_message begun).0
      ≡ err Exn.other)
    × ((publish uncommitted request chat row setup (codes "5") answer_message begun).1.history 1 5
        ≡ [])
    × ((publish uncommitted request chat row setup (codes "5") answer_message begun).1.durable
        ≡ begun.durable)
publish_takes_back_example =
    publish_takes_back uncommitted request chat row setup (codes "5") answer_message Exn.other begun
      refl refl refl refl refl
