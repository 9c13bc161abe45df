-- ===== src/Run/Execute/Outcome/Settled.antt =====
-- The row of a run after it: completed or failed, not left running.
use root_agent.Common.{
  Bool-cases, Option-cases, any, ℕ, String, ◌≡◌, refl, ap, ◌∙◌, ◌≢◌, inl, inr, Bool, true, false,
  ◌&&◌, Option, none, some, List, str_eq, true≢false,
}
use root_agent.Common.Result.{Result, ok, err}
use root_agent.Run.Model.{
  Chat, ChatRun, Exn, failure, Call, World, M, ◌>>◌, Failure, call, catch_with,
}
use root_agent.Run.Model.{at_session}
use root_agent.Run.Session.{Request, acquire_lock, release_lock}
use root_agent.Run.Replay.{ChatResponse}
use root_agent.Run.Body.{Setup}
use root_agent.Run.Execute.{
  handle, mark_failed, failed_run, finalize, guarded, report, Report, delete_session,
  destroy_workspace, finish_deletion,
}
use root_agent.Run.Execute.{log_failure, started}
use root_agent.Run.Model.{is_exception, quietly, when, pure}
use root_agent.Run.Execute.Outcome.Frame.{IsGood, try_body-IsGood}
use root_agent.Run.Execute.Outcome.Steps.{
  Leaves, Reaches, call-Leaves, call-Reaches, reach_then, keep_then, quietly-Leaves, when-Leaves,
}
use root_agent.Run.Execute.Outcome.Completed.{
  runs_on, settle-set, settle-filter, Returns, try_body-settles,
}

is_other : Exn → Bool
is_other Exn.other = true
is_other _ = false

module _ (raises : Call → Option Exn) (artifacts : ℕ → List ℕ) (r : Request) (chat : Chat)
    (run : ChatRun) (setup : Setup) where
  -- No durable row of the run is running.
  abbrev pub IsSettled : World → Type 0
  IsSettled w = runs_on run.id w.durable.runs ≡ false

  -- An exception that is stored as a failure of the run: one that is no `ChatRunFailure`, and no
  -- cancellation.
  IsForeign : Exn → Type 0
  IsForeign e = ((f : Failure) → e ≢ failure f) × (e ≢ Exn.cancelled)

  reported :
      (e : Exn) → IsForeign e → ((rep : Report) × (report e ≡ some rep)) × (is_exception e ≡ true)
  unfolding report IsForeign
  reported (Exn.failure f) foreign = absurd (foreign.0 f refl)
  reported Exn.integrity_error foreign = ((_, refl), refl)
  reported Exn.sandbox_unavailable foreign = ((_, refl), refl)
  reported (Exn.generated_output_error c m n) foreign = ((_, refl), refl)
  reported Exn.other foreign = ((_, refl), refl)
  reported Exn.cancelled foreign = absurd (foreign.1 refl)

  abbrev Anything : World → Type 0
  Anything w = Unit

  mark-settles :
      (e : Report)
      → raises Call.mark_failed ≡ none
      → Reaches Anything IsSettled (mark_failed raises artifacts r setup run e)
  unfolding mark_failed
  mark-settles e up w held = (
    rw (up, mark_failed, call) refl,
    rw (up, mark_failed, call) (settle-set (failed_run setup run e) refl w.db.runs),
  )

  log-Reaches :
      raises Call.log_run ≡ none
      → (e : Exn) → Reaches Anything Anything (log_failure raises artifacts r setup e)
  log-Reaches up Exn.sandbox_unavailable w any = (refl, tt)
  log-Reaches up (Exn.generated_output_error c m n) w any = (refl, tt)
  log-Reaches up (Exn.failure f) w any = call-Reaches raises Anything Call.log_run up w any
  log-Reaches up Exn.integrity_error w any = call-Reaches raises Anything Call.log_run up w any
  log-Reaches up Exn.other w any = call-Reaches raises Anything Call.log_run up w any
  log-Reaches up Exn.cancelled w any = call-Reaches raises Anything Call.log_run up w any

  caught-settles :
      (x : Result Exn ChatResponse × World)
      → raises Call.mark_failed ≡ none
      → raises Call.log_run ≡ none
      → (l : ℕ → ℕ → Option String) → IsGood IsForeign l x
      → Returns IsSettled x
      → IsSettled (catch_with x (handle raises artifacts r setup chat run)).1
  unfolding IsGood Returns handle
  caught-settles (ok a, w) up logs l good off = off
  caught-settles (err e, w) up logs l good off =
      let ((rep, is), caught) = reported e good.1 in
      rw caught (
        rw (is, handle)
          (reach_then Anything Anything IsSettled (log_failure raises artifacts r setup e) _
            (log-Reaches logs e)
            (reach_then Anything IsSettled IsSettled (mark_failed raises artifacts r setup run rep)
              _ (mark-settles rep up)
              (keep_then IsSettled (call raises Call.read_run) _
                (call-Leaves raises IsSettled Call.read_run) (λ v q. q)))
            w tt))

  delete-settles :
      (w : World) → IsSettled w → IsSettled (delete_session raises artifacts r setup chat w).1
  delete-settles w off = elim (Option-cases (raises Call.delete_session)) [
    | inl up ↦ rw (up, call) (settle-filter run.id _ w.durable.runs off)
    | inr (e, at) ↦ rw (at, call) off
  ]

  acquire-durable :
      (site : Call) (user session : ℕ) (token : String) (w : World)
      → (acquire_lock raises artifacts site user session token w).1.durable ≡ w.durable
  unfolding acquire_lock
  acquire-durable site user session token w = elim (Option-cases (raises site)) [
    | inr (e, at) ↦ rw (at, call) refl
    | inl up ↦ elim (Option-cases (w.lock user session)) [
      | inl free ↦ rw (up, free, call) refl
      | inr (other, held) ↦ rw (up, held, call) refl
    ]
  ]

  release-durable :
      (site : Call) (user session : ℕ) (token : String) (w : World)
      → (release_lock raises artifacts site user session token w).1.durable ≡ w.durable
  unfolding release_lock
  release-durable site user session token w = elim (Option-cases (raises site)) [
    | inr (e, at) ↦ rw (at, call) refl
    | inl up ↦ elim (Option-cases (w.lock user session)) [
      | inl free ↦ rw (up, free, call) refl
      | inr (other, held) ↦ elim (Bool-cases (str_eq other token)) [
        | inl mine ↦ rw (up, held, mine, call) refl
        | inr theirs ↦ rw (up, held, theirs, call) refl
      ]
    ]
  ]

  destroy-durable :
      (w : World) → (destroy_workspace raises artifacts r setup run w).1.durable ≡ w.durable
  destroy-durable w = elim (Option-cases (raises Call.destroy_workspace)) [
    | inl up ↦ rw (up, call) refl
    | inr (e, at) ↦ rw (at, call) refl
  ]

  deletion-settles :
      (pending : Bool) (token : String) (w : World)
      → IsSettled w
      → IsSettled (finish_deletion raises artifacts r setup chat pending token w).1
  unfolding acquire_lock
  deletion-settles pending token w off = elim (Option-cases (raises Call.pending_session)) [
    | inr (e, at) ↦ rw (at, call) off
    | inl asked ↦ elim (Bool-cases pending) [
      | inr none_due ↦ rw (asked, none_due, call) off
      | inl due ↦ elim (Option-cases (raises Call.acquire_cleanup)) [
        | inr (e, at) ↦ rw (asked, due, at, call) off
        | inl got ↦ elim (Option-cases (w.lock r.user_id chat.session_id)) [
          | inr (other, held) ↦ rw (asked, due, got, held, call) off
          | inl free ↦
              rw (asked, due, got, free, call)
                (ap (λ t. runs_on run.id t.runs)
                    (release-durable Call.release_cleanup r.user_id chat.session_id token _)
                  ∙ delete-settles
                      (record w { lock = at_session w.lock r.user_id chat.session_id (some token) })
                      off)
        ]
      ]
    ]
  ]

  release-settles :
      (site : Call) (user session : ℕ) (token : String)
      → Leaves IsSettled IsSettled (release_lock raises artifacts site user session token)
  release-settles site user session token w off =
      ap (λ t. runs_on run.id t.runs) (release-durable site user session token w) ∙ off

  module _ (pending : Bool) (token : String) where
    -- The last steps of `finally`, from the closing of the gateway on.
    abbrev release : M (Unit {0})
    release = release_lock raises artifacts Call.release_lock r.user_id chat.session_id r.token

    abbrev delete_pending : M (Unit {0})
    delete_pending =
        quietly (finish_deletion raises artifacts r setup chat pending token)
          (call raises Call.log_deletion)

    abbrev from_release : M (Unit {0})
    from_release = quietly release (call raises Call.log_release) >> delete_pending

    abbrev close : Bool → M (Unit {0})
    close due = quietly (when due (call raises Call.close_executor)) (call raises Call.log_close)

    abbrev close_all : Bool → Bool → M (Unit {0})
    close_all gateway executor =
        when gateway (call raises Call.close_gateway) >> (close executor >> from_release)

    abbrev destroy : Bool → M (Unit {0})
    destroy due = quietly (when due (destroy_workspace raises artifacts r setup run)) (pure tt)

    from_release-settles : Leaves IsSettled IsSettled from_release
    from_release-settles =
        keep_then IsSettled (quietly release (call raises Call.log_release)) delete_pending
          (quietly-Leaves IsSettled release (call raises Call.log_release)
            (release-settles Call.release_lock r.user_id chat.session_id r.token)
            (call-Leaves raises IsSettled Call.log_release))
          (quietly-Leaves IsSettled (finish_deletion raises artifacts r setup chat pending token)
            (call raises Call.log_deletion) (deletion-settles pending token)
            (call-Leaves raises IsSettled Call.log_deletion))

    close_all-settles :
        (gateway executor : Bool) → Leaves IsSettled IsSettled (close_all gateway executor)
    close_all-settles gateway executor =
        keep_then IsSettled (when gateway (call raises Call.close_gateway))
          (close executor >> from_release)
          (when-Leaves IsSettled gateway (call raises Call.close_gateway)
            (call-Leaves raises IsSettled Call.close_gateway))
          (keep_then IsSettled (close executor) from_release
            (quietly-Leaves IsSettled (when executor (call raises Call.close_executor))
              (call raises Call.log_close)
              (when-Leaves IsSettled executor (call raises Call.close_executor)
                (call-Leaves raises IsSettled Call.close_executor))
              (call-Leaves raises IsSettled Call.log_close))
            from_release-settles)

    destroy-settles : (due : Bool) → Leaves IsSettled IsSettled (destroy due)
    destroy-settles due =
        quietly-Leaves IsSettled (when due (destroy_workspace raises artifacts r setup run))
          (pure tt)
          (when-Leaves IsSettled due (destroy_workspace raises artifacts r setup run)
            (λ w off. ap (λ t. runs_on run.id t.runs) (destroy-durable w) ∙ off))
          (λ w off. off)

    finalize-settles :
        Leaves IsSettled IsSettled (finalize raises artifacts r setup chat run pending token)
    unfolding finalize
    finalize-settles w off =
        let due = w.executor && w.workspace in
        keep_then IsSettled (call raises Call.await_heartbeat)
          (destroy due >> close_all w.gateway w.executor)
          (call-Leaves raises IsSettled Call.await_heartbeat)
          (keep_then IsSettled (destroy due) (close_all w.gateway w.executor) (destroy-settles due)
            (close_all-settles w.gateway w.executor))
          w off

  -- Once `finally` has run, no durable row of the run is running, whatever the agent, the handlers
  -- and the steps of `finally` raised, as long as nothing that the run calls raises a cancellation
  -- or a `ChatRunFailure` of its own, the handler can name the run in its log, and the failure can
  -- be stored, which a session refuses whose last commit failed and that was not rolled back.
  pub guarded_settles :
      (sink pending : Bool) (cleanup_token : String) (w : World)
      → raises Call.log_run ≡ none
      → raises Call.mark_failed ≡ none
      → ((c : Call) (f : Failure) → raises c ≢ some (failure f))
      → ((c : Call) → raises c ≢ some Exn.cancelled)
      → runs_on run.id
          (guarded raises artifacts r setup chat run sink pending cleanup_token w).1.durable.runs
        ≡ false
  unfolding guarded IsForeign is_other
  guarded_settles sink pending cleanup_token w logs up foreign awake =
      let good =
        try_body-IsGood IsForeign w.lock raises
          (λ c e at. ((λ f is. foreign c f (at ∙ ap some is)), (λ is. awake c (at ∙ ap some is))))
          ((λ f is. true≢false (ap is_other is)), (λ is. true≢false (ap is_other is))) r chat run
          setup sink (started w) refl in
      finalize-settles pending cleanup_token _ (
        caught-settles _ up logs w.lock good
          (try_body-settles raises artifacts r chat run setup sink (started w)))
