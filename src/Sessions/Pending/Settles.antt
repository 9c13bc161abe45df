-- ===== src/Sessions/Pending/Settles.antt =====
-- How a request to delete a session ends.
use root_agent.Common.{
  ◌==◌, Bool-cases, any, find?, ℕ, ◌+◌, ◌≤◌, String, ◌≡◌, refl, sym, ap, ◌∙◌, subst, ◌⊎◌, inl, inr,
  true, false, ◌&&◌, Option, none, some,
}
use root_agent.Common.Result.{Result, ok, err, ◌>>◌}
use root_agent.Redis.Server.{Server, IsRedis, until}
use root_agent.Redis.Lock.{acquire_run_lock}
use root_agent.Redis.Lock.Laws.{holder, acquire_free, acquire_busy}
use root_agent.Run.Model.{Chat}
use root_agent.Sessions.{World, Setting, Step, SessionError, redis_failed}
use root_agent.Sessions.Service.{
  is_session, delete_session, wipe_session, request_session_deletion, cascade_chat,
}
use root_agent.Sessions.Deletion.{SameRows, Ends, wipe_session-Ends}
use root_agent.Sessions.Pending.{
  SessionDeleteResponse, deleted, pending, Locking, is_marked, try_lock, unlocked, delete_locked,
  marked, delete_session_route,
}
use root_agent.Sessions.Pending.Steps.{
  taken_shows, free_again, Requested, request_session_deletion-Requested,
}

module _ (R : Server) (L : IsRedis R) (K : Locking) (S : Setting) (ordered : K.now ≤ K.later)
    (user_id session_id : ℕ) (s : R.State) (chat : Chat) (w : World) where
  abbrev lock_shown : R.State → Option String
  lock_shown x = holder R (K.name user_id) (K.name session_id) x K.later

  -- How the request ends.
  unfoldable pub Settled : Result SessionError SessionDeleteResponse × (R.State × World) → Type 0
  Settled (err e, (s', w')) =
      (SameRows w w' × (lock_shown s' ≡ lock_shown s))
      ⊎ ((K.release_fails ≡ true)
          × (lock_shown s' ≡ until (K.now + K.ttl) K.later K.token)
          × (SameRows w w' ⊎ SameRows (cascade_chat chat.id w) w'))
  Settled (ok deleted, (s', w')) =
      SameRows (cascade_chat chat.id w) w' × (lock_shown s' ≡ lock_shown s)
  Settled (ok pending, (s', w')) =
      (any (λ c. c.id == chat.id && is_marked c) w'.chats ≡ true) × (lock_shown s' ≡ lock_shown s)

  same_rows : SameRows w w
  same_rows = record { users = refl; chats = refl; runs = refl; artifacts = refl }

  deletion-Settled :
      (s' : R.State) (r : Step (Unit {0}))
      → lock_shown s' ≡ lock_shown s
      → Ends S chat w r
      → Settled (r.0 >> ok deleted, (s', r.1))
  unfolding Settled Ends
  deletion-Settled s' (err e, w') same (rows, outside) = inl (rows, same)
  deletion-Settled s' (ok done, w') same (rows, outside, gone) = (rows, same)

  -- The deletion's rows, when its lock cannot be given back.
  unreleased-Settled :
      (s' : R.State) (r : Step (Unit {0}))
      → K.release_fails ≡ true
      → lock_shown s' ≡ until (K.now + K.ttl) K.later K.token
      → Ends S chat w r
      → Settled (err redis_failed, (s', r.1))
  unfolding Settled Ends
  unreleased-Settled s' (err e, w') stuck shown (rows, outside) = inr (stuck, shown, inl rows)
  unreleased-Settled s' (ok done, w') stuck shown (rows, outside, gone) =
      inr (stuck, shown, inr rows)

  marking-Settled :
      (r : Result SessionError (Unit {0}) × World)
      → Requested S chat w r
      → Settled (r.0 >> ok pending, (s, r.1))
  unfolding Settled Requested
  marking-Settled (err e, w') same = inl (
    record {
      users = ap World.users same;
      chats = ap World.chats same;
      runs = ap World.runs same;
      artifacts = ap World.artifacts same;
    },
    refl,
  )
  marking-Settled (ok done, w') asked = (asked, refl)

  -- A request to delete a session that is there, if its task is not cancelled and a call on the
  -- lock that raises changed nothing in Redis, ends in one of four ways. It is answered as deleted,
  -- and the rows are those that the deletion of the chat leaves. It is answered as pending, and the
  -- chat is marked, so that a later round deletes it. Or it fails, and no row has changed. In these
  -- three the session's lock shows what it would have shown without the request: a run's lock is
  -- not touched, and the request's own is given back, also after an error and also when it ran out
  -- before. The fourth needs that the call which gives the lock back raises: then the request
  -- fails, its lock stays until it runs out, and the rows are the old ones or those that the
  -- deletion leaves.
  pub delete_session_route_settles :
      find? (is_session user_id session_id) w.chats ≡ some chat
      → Settled (delete_session_route R K S user_id session_id s w)
  unfolding delete_session_route delete_session acquire_run_lock Settled
  delete_session_route_settles found = elim (Bool-cases K.acquire_fails) [
    | inl down ↦
        let whole : delete_session_route R K S user_id session_id s w ≡ (err redis_failed, (s, w)) =
          rw (delete_session_route, found, down) refl in
        subst Settled (sym whole) (inl (same_rows, refl))
    | inr up ↦
        subst Settled (sym (route up))
          (by_lock (holder R (K.name user_id) (K.name session_id) s K.now) refl)
  ]
    where
      by_token :
          R.State × Option String → Result SessionError SessionDeleteResponse × (R.State × World)
      by_token (s', token) = elim token [
        | none ↦ marked R K S chat s' w
        | some t ↦ delete_locked R K S deleted user_id session_id t s' w
      ]

      route :
          K.acquire_fails ≡ false
          → delete_session_route R K S user_id session_id s w
            ≡ by_token (try_lock R K user_id session_id s)
      route up = rw (delete_session_route, found, up) refl

      by_release :
          holder R (K.name user_id) (K.name session_id) s K.now ≡ none
          → Settled (
              delete_locked R K S deleted user_id session_id K.token
                (try_lock R K user_id session_id s).0
                w)
      by_release is =
          let taken = (try_lock R K user_id session_id s).0 in
          let given = unlocked R K user_id session_id K.token taken in
          let r = delete_session S user_id session_id w in
          let wipes : delete_session S user_id session_id w ≡ wipe_session S chat w =
            rw (delete_session, found) refl in
          let ends : Ends S chat w r =
            subst (λ r. Ends S chat w r) (sym wipes) (wipe_session-Ends S chat w) in
          elim (Bool-cases K.release_fails) [
            | inl stuck ↦
                let whole : delete_locked R K S deleted user_id session_id K.token taken w
                    ≡ (err redis_failed, (taken, r.1)) =
                  rw stuck refl in
                subst Settled (sym whole) (
                  unreleased-Settled taken r stuck
                    (taken_shows R L K ordered user_id session_id s is) ends)
            | inr back ↦
                let free : lock_shown given ≡ none =
                  free_again R L K ordered user_id session_id s is in
                let before : lock_shown s ≡ none = L.get_gone s K.now K.later _ ordered is in
                let whole : delete_locked R K S deleted user_id session_id K.token taken w
                    ≡ (r.0 >> ok deleted, (given, r.1)) =
                  rw back refl in
                subst Settled (sym whole) (deletion-Settled given r (free ∙ sym before) ends)
          ]

      by_lock :
          (x : Option String)
          → holder R (K.name user_id) (K.name session_id) s K.now ≡ x
          → Settled (by_token (try_lock R K user_id session_id s))
      by_lock (some held) is =
          let busy : try_lock R K user_id session_id s ≡ (s, none) =
            acquire_busy R L s K.now (K.name user_id) (K.name session_id) K.token K.ttl held is in
          subst Settled (sym (ap by_token busy)) (
            marking-Settled (request_session_deletion S chat w)
              (request_session_deletion-Requested S chat (is_session user_id session_id) w found))
      by_lock none is =
          let got : (try_lock R K user_id session_id s).1 ≡ some K.token =
            acquire_free R L s K.now (K.name user_id) (K.name session_id) K.token K.ttl is in
          let taken = (try_lock R K user_id session_id s).0 in
          let step : by_token (try_lock R K user_id session_id s)
              ≡ delete_locked R K S deleted user_id session_id K.token taken w =
            ap (λ t. by_token (taken, t)) got in
          subst Settled (sym step) (by_release is)
