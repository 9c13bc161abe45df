-- ===== src/Sessions/Pending.antt =====
-- Deleting sessions under their run locks: `delete_session` of backend/app/routers/chat.py,
-- `reconcile_pending_session_deletion` of backend/app/services/cleanup_service.py, and a round of
-- backend/scripts/cleanup_worker.py. A call of Redis that fails changes nothing there.
pub mod Steps
pub mod Settles
use root_agent.Common.{
  if◌then◌else◌, take, filter, find?, ℕ, ◌-◌, ◌/◌, String, Bool, true, false, not, Option, none,
  some, List, [], ◌∷◌,
}
use root_agent.Common.Result.{after, Result, ok, err, ◌>>=◌, ◌>>◌, refuse, is_ok}
use root_agent.Redis.Server.{Server}
use root_agent.Redis.Lock.{acquire_run_lock, release_run_lock}
use root_agent.Run.Model.{Chat}
use root_agent.Sessions.{World, Setting, SessionError, redis_failed}
use root_agent.Sessions.Service.{is_session, delete_session, request_session_deletion}

pub data SessionDeleteResponse : Type 0 where
  deleted pending : SessionDeleteResponse

-- The times of the calls that take and give back a lock, whether they raise, the lock's time to
-- live, and the token drawn.
pub record Locking : Type 0 where
  pub name : ℕ → String
  pub now : ℕ
  pub later : ℕ
  pub ttl : ℕ
  pub token : String
  pub acquire_fails : Bool
  pub release_fails : Bool

abbrev pub is_marked : Chat → Bool
is_marked c = elim c.deletion_requested_at [ none ↦ false | some at ↦ true ]

module _ (R : Server) (K : Locking) where
  abbrev pub try_lock : ℕ → ℕ → R.State → R.State × Option String
  try_lock user_id session_id s =
      acquire_run_lock R s K.now (K.name user_id) (K.name session_id) K.token K.ttl

  abbrev pub unlocked : ℕ → ℕ → String → R.State → R.State
  unlocked user_id session_id token s =
      release_run_lock R s K.later (K.name user_id) (K.name session_id) token

module _ (R : Server) (K : Locking) (S : Setting) where
  -- The `try` with its `finally`, whose exception is the one that is raised.
  abbrev pub delete_locked :
      {A : Type 0}
      → A
      → ℕ
      → ℕ
      → String
      → R.State
      → World
      → Result SessionError A × (R.State × World)
  delete_locked answer user_id session_id token s w =
      let (r, w') = delete_session S user_id session_id w in
      if K.release_fails
      then (err redis_failed, (s, w'))
      else (r >> ok answer, (unlocked R K user_id session_id token s, w'))

  abbrev pub marked :
      Chat → R.State → World → Result SessionError SessionDeleteResponse × (R.State × World)
  marked chat s w = let (r, w') = request_session_deletion S chat w in (r >> ok pending, (s, w'))

  unfoldable pub delete_session_route :
      ℕ → ℕ → R.State → World → Result SessionError SessionDeleteResponse × (R.State × World)
  unfolding delete_session request_session_deletion acquire_run_lock release_run_lock
  delete_session_route user_id session_id s w =
      elim (find? (is_session user_id session_id) w.chats) [
        | none ↦ (ok deleted, (s, w))
        | some chat ↦
            let (s', token) = try_lock R K user_id session_id s in
            if K.acquire_fails then (err redis_failed, (s, w)) else elim token [
              | none ↦ marked chat s' w
              | some t ↦ delete_locked deleted user_id session_id t s' w
            ]
      ]

  -- The loop over the chats that wait.
  abbrev pub reconcile : List Chat → R.State → World → Result SessionError Bool × (R.State × World)
  reconcile [] s w = (ok false, (s, w))
  reconcile (chat ∷ chats) s w =
      let (s', token) = try_lock R K chat.user_id chat.session_id s in
      let rest = reconcile chats s' w in
      if K.acquire_fails then (err redis_failed, (s, w)) else elim token [
        | none ↦ rest
        | some t ↦ delete_locked true chat.user_id chat.session_id t s' w
      ]

  -- `oldest_first` is the database's ORDER BY.
  unfoldable pub reconcile_pending_session_deletion :
      (List Chat → List Chat) → R.State → World → Result SessionError Bool × (R.State × World)
  unfolding delete_session acquire_run_lock release_run_lock
  reconcile_pending_session_deletion oldest_first s w =
      reconcile (take 50 (oldest_first (filter is_marked w.chats))) s w

  -- A round of the worker: the next job is looked at only if nothing was reconciled and nothing
  -- raised; what is raised is logged. `process` is `process_next_cleanup_job`.
  unfoldable pub worker_round :
      (List Chat → List Chat)
      → (R.State → World → Result SessionError Bool × (R.State × World))
      → R.State
      → World
      → Bool × (R.State × World)
  unfolding reconcile_pending_session_deletion
  worker_round oldest_first process s w =
      let (r, (s', w')) = reconcile_pending_session_deletion oldest_first s w in
      let (p, after_process) = process s' w' in
      elim r [
        | err e ↦ (false, (s', w'))
        | ok reconciled ↦
            if reconciled
            then (true, (s', w'))
            else (elim p [ err e ↦ false | ok processed ↦ processed ], after_process)
      ]
