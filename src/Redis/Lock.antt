-- ===== src/Redis/Lock.antt =====
-- The run lock: `acquire_run_lock`, `release_run_lock` and `renew_run_lock`. The two scripts run
-- in the server as one command each. `token` is what `secrets.token_urlsafe` drew, and `ttl` is
-- `settings.run_lock_ttl_seconds`.
pub mod Laws
pub mod Exclusion
use root_agent.Common.{
  ◌==◌, if◌then◌else◌, ℕ, ◌-◌, ◌<◌, String, ◌<>◌, Bool, false, Option, none, some, str_eq,
}
use root_agent.Redis.Server.{Server}

unfoldable pub lock_key : String → String → String
lock_key user_id session_id = "run-lock:" <> (user_id <> (":" <> session_id))

module _ (R : Server) where
  -- `redis.call('GET', KEYS[1]) == ARGV[1]`
  unfoldable pub owns : R.State → ℕ → String → String → Bool
  owns s now key token = elim (R.get s now key) [ none ↦ false | some held ↦ str_eq held token ]

  -- `_RELEASE_LOCK_SCRIPT`
  unfoldable pub release_lock_script : R.State → ℕ → String → String → R.State
  unfolding owns
  release_lock_script s now key token = if owns s now key token then R.del s now key else s

  -- `_RENEW_LOCK_SCRIPT`
  unfoldable pub renew_lock_script : R.State → ℕ → String → String → ℕ → R.State × Bool
  unfolding owns
  renew_lock_script s now key token ttl =
      if owns s now key token then R.expire s now key ttl else (s, false)

  unfoldable pub acquire_run_lock :
      R.State → ℕ → String → String → String → ℕ → R.State × Option String
  acquire_run_lock s now user_id session_id token ttl =
      let (s', acquired) = R.set_nx_ex s now (lock_key user_id session_id) token ttl in
      (s', if acquired then some token else none)

  unfoldable pub release_run_lock : R.State → ℕ → String → String → String → R.State
  unfolding release_lock_script
  release_run_lock s now user_id session_id token =
      release_lock_script s now (lock_key user_id session_id) token

  unfoldable pub renew_run_lock : R.State → ℕ → String → String → String → ℕ → R.State × Bool
  unfolding renew_lock_script
  renew_run_lock s now user_id session_id token ttl =
      renew_lock_script s now (lock_key user_id session_id) token ttl
