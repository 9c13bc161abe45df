-- ===== src/Run/Execute/Outcome/Again.antt =====
-- `execute` for a request that was made before.
use root_agent.Common.{
  ℕ, String, ◌≡◌, refl, sym, ap, Bool, true, false, Option, none, some, List, str_eq,
}
use root_agent.Common.Result.{Result, ok, err}
use root_agent.Run.Model.{Chat, ChatRun, Exn, Call, World, call}
use root_agent.Run.Session.{Request}
use root_agent.Run.Body.{Setup}
use root_agent.Run.Execute.{execute}
use root_agent.Run.Replay.{ChatResponse, find_run, get_run, response, existing_result, is_failed}
use root_agent.Run.Replay.Laws.{SameStore, existing_result-SameStore}

abbrev pub map_ok : Result Exn ChatResponse → Option ChatResponse
map_ok (ok a) = some a
map_ok (err e) = none

module _ (raises : Call → Option Exn) (artifacts : ℕ → List ℕ) (r : Request) (setup : Setup)
    (allowed : Bool) (rivals : List ChatRun) (sink pending : Bool) (cleanup_token : String)
    (run : ChatRun) (chat : Chat) (w : World) where
  again :
      raises Call.find_run ≡ none
      → find_run w.db r.user_id r.request_id ≡ some (run, chat)
      → execute raises artifacts r setup allowed rivals sink pending cleanup_token w
        ≡ existing_result raises artifacts run chat r.digest sink w
  unfolding execute
  again up found = rw (up, call, found) refl

  -- If the request was made before and looking it up does not raise, `execute` starts no run:
  -- the tables, the history, the locks and the workspaces stay what they are.
  pub execute_again_keeps :
      raises Call.find_run ≡ none
      → find_run w.db r.user_id r.request_id ≡ some (run, chat)
      → SameStore (execute raises artifacts r setup allowed rivals sink pending cleanup_token w).1 w
  execute_again_keeps up found =
      rw (again up found) (existing_result-SameStore raises artifacts run chat r.digest sink w)

  -- If moreover the digest is the same and the run did not fail, the answer of `execute` is what
  -- `get_run` shows for the request.
  pub execute_again_answers :
      raises Call.find_run ≡ none
      → find_run w.db r.user_id r.request_id ≡ some (run, chat)
      → str_eq run.query_digest r.digest ≡ true
      → is_failed run.status ≡ false
      → map_ok (execute raises artifacts r setup allowed rivals sink pending cleanup_token w).0
        ≡ get_run raises artifacts w.db r.user_id r.request_id
  unfolding existing_result get_run
  execute_again_answers up found same good =
      rw (again up found, same, good, get_run, found)
        (ap (λ b. some (record (response raises artifacts run chat) { retryable = b })) (sym good))
