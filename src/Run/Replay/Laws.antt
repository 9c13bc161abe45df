-- ===== src/Run/Replay/Laws.antt =====
-- A request that was made before changes nothing that is stored.
use root_agent.Common.{
  Bool-cases, ℕ, ◌+◌, String, ◌≡◌, refl, ◌∙◌, inl, inr, Bool, true, false, ◌&&◌, Option, List, [],
  ◌∷◌, arith, str_eq,
}
use root_agent.Run.Model.{Chat, ChatRun, Event, Exn, Call, World, deliver_event}
use root_agent.Run.Replay.{
  is_completed, is_failed, deliver_artifacts, replay_events, existing_result,
}

-- Two states that differ at most in what was sent to the client.
pub record SameStore (v w : World) : Type 0 where
  pub db : v.db ≡ w.db
  pub durable : v.durable ≡ w.durable
  pub lock : v.lock ≡ w.lock
  pub history : v.history ≡ w.history
  pub workspaces : v.workspaces ≡ w.workspaces

pub SameStore-refl : (w : World) → SameStore w w
SameStore-refl w = record {
  db = refl;
  durable = refl;
  lock = refl;
  history = refl;
  workspaces = refl;
}

SameStore-trans : {u v w : World} → SameStore u v → SameStore v w → SameStore u w
SameStore-trans a b = record {
  db = a.db ∙ b.db;
  durable = a.durable ∙ b.durable;
  lock = a.lock ∙ b.lock;
  history = a.history ∙ b.history;
  workspaces = a.workspaces ∙ b.workspaces;
}

module _ (raises : Call → Option Exn) where
  pub deliver-SameStore :
      (sink : Bool) (n : ℕ) (e : Event) (w : World)
      → SameStore (deliver_event raises sink n e w).1 w
  unfolding deliver_event
  deliver-SameStore sink n e w = record {
    db = ground arith;
    durable = ground arith;
    lock = ground arith;
    history = ground arith;
    workspaces = ground arith;
  }

  module _ (artifacts : ℕ → List ℕ) where
    deliver_artifacts-SameStore :
        (n : ℕ) (as' : List ℕ) (delivered : Bool) (w : World)
        → SameStore (deliver_artifacts raises artifacts n as' delivered w).1 w
    unfolding deliver_artifacts
    deliver_artifacts-SameStore n [] delivered w = SameStore-refl w
    deliver_artifacts-SameStore n (a ∷ as') false w = SameStore-refl w
    deliver_artifacts-SameStore n (a ∷ as') true w =
        SameStore-trans (deliver_artifacts-SameStore (n + 1) as' _ _) (deliver-SameStore true n _ w)

    replay-SameStore :
        (run : ChatRun) (w : World) → SameStore (replay_events raises artifacts run w) w
    unfolding replay_events
    replay-SameStore run w = SameStore-trans (deliver-SameStore _ _ _ _) (
        SameStore-trans (deliver_artifacts-SameStore 1 (artifacts run.id) _ _)
          (deliver-SameStore true 0 _ w))

    pub existing_result-SameStore :
        (run : ChatRun) (chat : Chat) (digest : String) (sink : Bool) (w : World)
        → SameStore (existing_result raises artifacts run chat digest sink w).1 w
    unfolding existing_result
    existing_result-SameStore run chat digest sink w =
        elim (Bool-cases (str_eq run.query_digest digest)) [
          | inr differs ↦ rw (differs) (SameStore-refl w)
          | inl equal ↦ elim (Bool-cases (is_failed run.status)) [
            | inl bad ↦ rw (equal, bad) (SameStore-refl w)
            | inr good ↦ elim (Bool-cases (is_completed run.status && sink)) [
              | inl live ↦ rw (equal, good, live) (replay-SameStore run w)
              | inr quiet ↦ rw (equal, good, quiet) (SameStore-refl w)
            ]
          ]
        ]
