-- ===== src/Run/Execute/Outcome/Locked.antt =====
-- The lock of a session after a run: given back whatever the run did.
use root_agent.Common.{
  Bool-cases, Option-cases, ℕ, String, ◌≡◌, refl, ap, ◌∙◌, inl, inr, Bool, true, ◌&&◌, Option, none,
  some, List, str_eq_refl,
}
use root_agent.Common.Result.{Result, ok, err}
use root_agent.Run.Model.{at_session-own, Chat, ChatRun, Exn, Call, World, call, catch_with}
use root_agent.Run.Session.{Request, release_lock, acquire_lock}
use root_agent.Run.Body.{Setup}
use root_agent.Run.Execute.{
  destroy_workspace, delete_session, finish_deletion, Report, ChatResponse, handle, mark_failed,
  finalize, guarded, report,
}
use root_agent.Run.Execute.{log_failure, started}
use root_agent.Run.Model.{
  pure, M, is_exception, quietly, when, ◌>>◌, modify, rollback, roll_back, pure,
}
use root_agent.Run.Execute.Outcome.Frame.{IsGood, try_body-IsGood}
use root_agent.Run.Body.{set_run, committed}
use root_agent.Run.Execute.{failed_run}
use root_agent.Run.Execute.Outcome.Steps.{
  Leaves, Reaches, IsMild, call-Leaves, call-Reaches, call-IsMild, reach_then, keep_then,
  quietly-Leaves, quietly-Reaches, when-Leaves, when-Reaches, when-IsMild, caught_reached,
}

module _ (raises : Call → Option Exn) (artifacts : ℕ → List ℕ) (r : Request) (setup : Setup) where
  log_failure-Leaves :
      (P : World → Type 0) (e : Exn) → Leaves P P (log_failure raises artifacts r setup e)
  log_failure-Leaves P Exn.sandbox_unavailable w p = p
  log_failure-Leaves P (Exn.generated_output_error c m n) w p = p
  log_failure-Leaves P (Exn.failure f) w p = call-Leaves raises P Call.log_run w p
  log_failure-Leaves P Exn.integrity_error w p = call-Leaves raises P Call.log_run w p
  log_failure-Leaves P Exn.other w p = call-Leaves raises P Call.log_run w p
  log_failure-Leaves P Exn.cancelled w p = call-Leaves raises P Call.log_run w p

  mark_failed-lock :
      (l : ℕ → ℕ → Option String) (run : ChatRun) (e : Report)
      → Leaves (λ w. w.lock ≡ l) (λ w. w.lock ≡ l) (mark_failed raises artifacts r setup run e)
  unfolding mark_failed
  mark_failed-lock l run e =
      let P = λ (v : World). v.lock ≡ l in
      let store = modify (set_run (failed_run setup run e)) in
      let save = call raises Call.mark_failed >> modify committed in
      quietly-Leaves P (store >> save) (roll_back raises >> call raises Call.log_mark)
        (keep_then P store save (λ v q. q)
          (keep_then P (call raises Call.mark_failed) (modify committed)
            (call-Leaves raises P Call.mark_failed) (λ v q. q)))
        (keep_then P (roll_back raises) (call raises Call.log_mark)
          (keep_then P (call raises Call.db_rollback) (modify rollback)
            (call-Leaves raises P Call.db_rollback) (λ v q. q))
          (call-Leaves raises P Call.log_mark))

  handle-lock :
      (l : ℕ → ℕ → Option String) (chat : Chat) (run : ChatRun) (e : Exn)
      → Leaves (λ w. w.lock ≡ l) (λ w. w.lock ≡ l) (handle raises artifacts r setup chat run e)
  unfolding handle mark_failed
  handle-lock l chat run e w same = elim (Option-cases (report e)) [
    | inl passed ↦ rw (passed, handle) same
    | inr (rep, is) ↦
        let P = λ (v : World). v.lock ≡ l in
        rw (is, handle)
          (keep_then P (log_failure raises artifacts r setup e) _ (log_failure-Leaves P e)
            (keep_then P (mark_failed raises artifacts r setup run rep) _
              (mark_failed-lock l run rep)
              (keep_then P (call raises Call.read_run) _ (call-Leaves raises P Call.read_run)
                (λ v p. p)))
            w same)
  ]

  caught-lock :
      (l : ℕ → ℕ → Option String) (chat : Chat) (run : ChatRun)
      (x : Result Exn ChatResponse × World)
      → IsGood (λ _. Unit {0}) l x
      → (catch_with x (handle raises artifacts r setup chat run)).1.lock ≡ l
  unfolding IsGood
  caught-lock l chat run (ok a, w) good = good
  caught-lock l chat run (err e, w) good = elim (Bool-cases (is_exception e)) [
    | inl caught ↦ rw caught (handle-lock l chat run e w good.0)
    | inr passes ↦ rw passes good.0
  ]

  -- Giving back one's own lock leaves the session without a lock.
  release-free :
      (site : Call) (user session : ℕ) (token : String)
      → raises site ≡ none
      → Reaches
          (λ w. w.lock user session ≡ some token)
          (λ w. w.lock user session ≡ none)
          (release_lock raises artifacts site user session token)
  unfolding release_lock
  release-free site user session token up w mine = (
    rw (up, call, mine, str_eq_refl token) refl,
    rw (up, call, mine, str_eq_refl token) (at_session-own w.lock user session none),
  )

  destroy-lock :
      (run : ChatRun) (w : World)
      → (destroy_workspace raises artifacts r setup run w).1.lock ≡ w.lock
  destroy-lock run w = elim (Option-cases (raises Call.destroy_workspace)) [
    | inl up ↦ rw (up, call) refl
    | inr (e, at) ↦ rw (at, call) refl
  ]

  delete-lock :
      (chat : Chat) (w : World) → (delete_session raises artifacts r setup chat w).1.lock ≡ w.lock
  delete-lock chat w = elim (Option-cases (raises Call.delete_session)) [
    | inl up ↦ rw (up, call) refl
    | inr (e, at) ↦ rw (at, call) refl
  ]

  -- A deletion under its own lock leaves the session free again.
  deletion-free :
      (chat : Chat) (pending : Bool) (token : String) (w : World)
      → raises Call.release_cleanup ≡ none
      → w.lock r.user_id chat.session_id ≡ none
      → (finish_deletion raises artifacts r setup chat pending token w).1.lock r.user_id
          chat.session_id
        ≡ none
  unfolding acquire_lock
  deletion-free chat pending token w up free = elim (Option-cases (raises Call.pending_session)) [
    | inr (e, at) ↦ rw (at, call) free
    | inl asked ↦ elim (Bool-cases pending) [
      | inr none_due ↦ rw (asked, none_due, call) free
      | inl due ↦ elim (Option-cases (raises Call.acquire_cleanup)) [
        | inr (e, at) ↦ rw (asked, due, at, call) free
        | inl got ↦
            rw (asked, due, got, free, call)
              (release-free Call.release_cleanup r.user_id chat.session_id token up _ (
                ap (λ l. l r.user_id chat.session_id) (delete-lock chat _)
                ∙ at_session-own w.lock r.user_id chat.session_id (some token))).1
      ]
    ]
  ]

  -- What `finally` needs to reach the release of the lock, and to release it.
  pub record CanRelease : Type 0 where
    pub heartbeat : raises Call.await_heartbeat ≡ none
    pub workspace : (e : Exn) → raises Call.destroy_workspace ≡ some e → is_exception e ≡ true
    pub gateway : raises Call.close_gateway ≡ none
    pub executor : (e : Exn) → raises Call.close_executor ≡ some e → is_exception e ≡ true
    pub log : raises Call.log_close ≡ none
    pub lock : raises Call.release_lock ≡ none
    pub cleanup : raises Call.release_cleanup ≡ none

  module _ (chat : Chat) (run : ChatRun) (pending : Bool) (cleanup_token : String)
      (can : CanRelease) where
    IsHeld : World → Type 0
    IsHeld w = w.lock r.user_id chat.session_id ≡ some r.token

    IsFree : World → Type 0
    IsFree w = w.lock r.user_id chat.session_id ≡ none

    destroy-IsMild : (w : World) → IsMild (destroy_workspace raises artifacts r setup run w).0
    destroy-IsMild w = elim (Option-cases (raises Call.destroy_workspace)) [
      | inl up ↦ rw (up, call) tt
      | inr (e, at) ↦ rw (at, call) (can.workspace e at)
    ]

    destroys :
        (due : Bool)
        → Reaches IsHeld IsHeld
            (quietly (when due (destroy_workspace raises artifacts r setup run)) (pure tt))
    unfolding IsHeld
    destroys due =
        quietly-Reaches IsHeld _ _
          (λ w.
            when-IsMild due (destroy_workspace raises artifacts r setup run) w (destroy-IsMild w))
          (when-Leaves IsHeld due _
            (λ w held. ap (λ l. l r.user_id chat.session_id) (destroy-lock run w) ∙ held))
          (λ w held. (refl, held))

    closes :
        (due : Bool)
        → Reaches IsHeld IsHeld
            (quietly (when due (call raises Call.close_executor)) (call raises Call.log_close))
    closes due =
        quietly-Reaches IsHeld _ _
          (λ w.
            when-IsMild due (call raises Call.close_executor) w
              (call-IsMild raises Call.close_executor w can.executor))
          (when-Leaves IsHeld due _ (call-Leaves raises IsHeld Call.close_executor))
          (call-Reaches raises IsHeld Call.log_close can.log)

    -- The last steps of `finally`, from the closing of the gateway on.
    abbrev release : M (Unit {0})
    release = release_lock raises artifacts Call.release_lock r.user_id chat.session_id r.token

    abbrev delete_pending : M (Unit {0})
    delete_pending =
        quietly (finish_deletion raises artifacts r setup chat pending cleanup_token)
          (call raises Call.log_deletion)

    abbrev from_release : M (Unit {0})
    from_release = quietly release (call raises Call.log_release) >> delete_pending

    abbrev close : Bool → M (Unit {0})
    close due = quietly (when due (call raises Call.close_executor)) (call raises Call.log_close)

    abbrev close_all : Bool → Bool → M (Unit {0})
    close_all gateway executor =
        when gateway (call raises Call.close_gateway) >> (close executor >> from_release)

    abbrev destroy : Bool → M (Unit {0})
    destroy due = quietly (when due (destroy_workspace raises artifacts r setup run)) (pure tt)

    releases : Leaves IsHeld IsFree from_release
    unfolding IsHeld IsFree
    releases =
        reach_then IsHeld IsFree IsFree (quietly release (call raises Call.log_release))
          delete_pending
          (λ w held.
            let (is, free) =
              release-free Call.release_lock r.user_id chat.session_id r.token can.lock w held in
            caught_reached IsFree (release w).0 (release w).1 (λ _. call raises Call.log_release) is
              free)
          (quietly-Leaves IsFree
            (finish_deletion raises artifacts r setup chat pending cleanup_token)
            (call raises Call.log_deletion)
            (λ w free. deletion-free chat pending cleanup_token w can.cleanup free)
            (call-Leaves raises IsFree Call.log_deletion))

    closes_all : (gateway executor : Bool) → Leaves IsHeld IsFree (close_all gateway executor)
    closes_all gateway executor =
        reach_then IsHeld IsHeld IsFree (when gateway (call raises Call.close_gateway))
          (close executor >> from_release)
          (when-Reaches IsHeld gateway (call raises Call.close_gateway)
            (call-Reaches raises IsHeld Call.close_gateway can.gateway))
          (reach_then IsHeld IsHeld IsFree (close executor) from_release (closes executor) releases)

    finalize-IsFree :
        Leaves IsHeld IsFree (finalize raises artifacts r setup chat run pending cleanup_token)
    unfolding finalize
    finalize-IsFree w held =
        let due = w.executor && w.workspace in
        reach_then IsHeld IsHeld IsFree (call raises Call.await_heartbeat)
          (destroy due >> close_all w.gateway w.executor)
          (call-Reaches raises IsHeld Call.await_heartbeat can.heartbeat)
          (reach_then IsHeld IsHeld IsFree (destroy due) (close_all w.gateway w.executor)
            (destroys due) (closes_all w.gateway w.executor))
          w held

    -- Once `finally` has run, no lock is left on the session of a run that held it, whatever the
    -- run and its handlers raised, a cancellation too, unless it meets the delivery of an event,
    -- where it is not modelled. Of `finally` itself this needs that waiting
    -- for the heartbeat and closing the gateway do not raise, that destroying the workspace and
    -- closing the executor raise nothing but an `Exception`, which the log of the latter can name
    -- the run for, and that giving the locks back does not raise.
    pub guarded_frees :
        (sink : Bool) (w : World)
        → w.lock r.user_id chat.session_id ≡ some r.token
        → (guarded raises artifacts r setup chat run sink pending cleanup_token w).1.lock r.user_id
            chat.session_id
          ≡ none
    unfolding guarded IsHeld IsFree
    guarded_frees sink w held =
        let body = caught-lock w.lock chat run _ (
          try_body-IsGood (λ _. Unit {0}) w.lock raises (λ _ _ _. tt) tt r chat run setup sink
            (started w) refl) in
        finalize-IsFree _ (ap (λ l. l r.user_id chat.session_id) body ∙ held)
