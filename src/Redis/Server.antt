-- ===== src/Redis/Server.antt =====
-- The string commands of the Redis server that redis_store.py calls. The server is not part of the
-- program: its commands are the fields of `Server`, and what Redis documents of them is `IsRedis`.
pub mod Memory
use root_agent.Common.{
  ltb, if◌then◌else◌, ℕ, ◌+◌, ◌-◌, ◌≤◌, String, ◌≡◌, Bool, true, false, not, Option, none, some,
  str_eq,
}

-- A call is made at a time, in seconds, which the server's clock gives.
pub record Server : Type 1 where
  pub State : Type 0
  -- `GET key`: an expired key has no value.
  pub get : State → ℕ → String → Option String
  -- `SET key value EX ttl NX`, and whether the key was set
  pub set_nx_ex : State → ℕ → String → String → ℕ → State × Bool
  -- `DEL key`
  pub del : State → ℕ → String → State
  -- `EXPIRE key ttl`, and whether the key was there
  pub expire : State → ℕ → String → ℕ → State × Bool
  -- `GETDEL key`
  pub getdel : State → ℕ → String → State × Option String

-- The value that a key with an expiry time shows at a time.
abbrev pub until : ℕ → ℕ → String → Option String
until deadline t v = if ltb t deadline then some v else none

pub record IsRedis (R : Server) : Type 0 where
  -- A key that shows no value shows none later, unless it is written.
  pub get_gone :
      (s : R.State) (now t : ℕ) (k : String) → now ≤ t → R.get s now k ≡ none → R.get s t k ≡ none
  pub set-taken :
      (s : R.State) (now : ℕ) (k v w : String) (ttl : ℕ)
      → R.get s now k ≡ some w
      → R.set_nx_ex s now k v ttl ≡ (s, false)
  pub set-done :
      (s : R.State) (now : ℕ) (k v : String) (ttl : ℕ)
      → R.get s now k ≡ none
      → (R.set_nx_ex s now k v ttl).1 ≡ true
  pub get-set :
      (s : R.State) (now t : ℕ) (k j v : String) (ttl : ℕ)
      → now ≤ t
      → R.get s now k ≡ none
      → R.get (R.set_nx_ex s now k v ttl).0 t j
        ≡ (if str_eq k j then until (now + ttl) t v else R.get s t j)
  pub get-del :
      (s : R.State) (now t : ℕ) (k j : String)
      → now ≤ t
      → R.get (R.del s now k) t j ≡ (if str_eq k j then none else R.get s t j)
  pub expire-missing :
      (s : R.State) (now : ℕ) (k : String) (ttl : ℕ)
      → R.get s now k ≡ none
      → R.expire s now k ttl ≡ (s, false)
  pub expire-done :
      (s : R.State) (now : ℕ) (k w : String) (ttl : ℕ)
      → R.get s now k ≡ some w
      → (R.expire s now k ttl).1 ≡ true
  pub get-expire :
      (s : R.State) (now t : ℕ) (k j w : String) (ttl : ℕ)
      → now ≤ t
      → R.get s now k ≡ some w
      → R.get (R.expire s now k ttl).0 t j
        ≡ (if str_eq k j then until (now + ttl) t w else R.get s t j)
  pub getdel-value : (s : R.State) (now : ℕ) (k : String) → (R.getdel s now k).1 ≡ R.get s now k
  pub get-getdel :
      (s : R.State) (now t : ℕ) (k j : String)
      → now ≤ t
      → R.get (R.getdel s now k).0 t j ≡ (if str_eq k j then none else R.get s t j)
