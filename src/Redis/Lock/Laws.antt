-- ===== src/Redis/Lock/Laws.antt =====
-- What one call does to the lock of a session, on every branch.
use root_agent.Common.{
  false, if◌then◌else◌, ℕ, ◌+◌, ◌≤◌, String, ◌≡◌, Option, none, some, arith, eq_iff,
}
use root_agent.Redis.Server.{Server, IsRedis, until}
use root_agent.Redis.Lock.{lock_key, owns, acquire_run_lock, release_run_lock, renew_run_lock}

-- The token that the lock of a session shows at a time, if it is held.
abbrev pub holder : (R : Server) → String → String → R.State → ℕ → Option String
holder R user session s t = R.get s t (lock_key user session)

module _ (R : Server) (L : IsRedis R) (s : R.State) (now : ℕ) (user session token : String) where
  pub acquire_free :
      (ttl : ℕ)
      → holder R user session s now ≡ none
      → (acquire_run_lock R s now user session token ttl).1 ≡ some token
  unfolding acquire_run_lock
  acquire_free ttl free = rw (L.set-done s now _ token ttl free)

  pub acquire_busy :
      (ttl : ℕ) (held : String)
      → holder R user session s now ≡ some held
      → acquire_run_lock R s now user session token ttl ≡ (s, none)
  unfolding acquire_run_lock
  acquire_busy ttl held h = rw (L.set-taken s now _ token held ttl h)

  pub holder-acquire :
      (ttl t : ℕ)
      → now ≤ t
      → holder R user session s now ≡ none
      → holder R user session (acquire_run_lock R s now user session token ttl).0 t
        ≡ until (now + ttl) t token
  unfolding acquire_run_lock
  holder-acquire ttl t le free = ground (
    arith,
    L.get-set s now t (lock_key user session) (lock_key user session) token ttl le free,
    eq_iff (lock_key user session) (lock_key user session),
  )

  pub holder-release :
      (t : ℕ)
      → now ≤ t
      → holder R user session (release_run_lock R s now user session token) t
        ≡ (if owns R s now (lock_key user session) token then none else holder R user session s t)
  unfolding release_run_lock
  holder-release t le = ground (
    arith,
    L.get-del s now t (lock_key user session) (lock_key user session) le,
    eq_iff (lock_key user session) (lock_key user session),
  )

  pub renew_result :
      (ttl : ℕ)
      → (renew_run_lock R s now user session token ttl).1
        ≡ owns R s now (lock_key user session) token
  unfolding renew_run_lock
  renew_result ttl =
      grind (arith, λ (w : String). L.expire-done s now (lock_key user session) w ttl)

  pub holder-renew :
      (ttl t : ℕ)
      → now ≤ t
      → holder R user session (renew_run_lock R s now user session token ttl).0 t ≡ (
          if owns R s now (lock_key user session) token
          then until (now + ttl) t token
          else holder R user session s t)
  unfolding renew_run_lock
  holder-renew ttl t le = grind (
    arith,
    λ (w : String). L.get-expire s now t (lock_key user session) (lock_key user session) w ttl le,
    eq_iff,
  )

  pub renew_lost :
      (ttl : ℕ)
      → owns R s now (lock_key user session) token ≡ false
      → renew_run_lock R s now user session token ttl ≡ (s, false)
  unfolding renew_run_lock
  renew_lost ttl lost = rw lost
