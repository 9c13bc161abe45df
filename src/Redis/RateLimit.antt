-- ===== src/Redis/RateLimit.antt =====
-- The sliding-window rate limit: `_RATE_LIMIT_SCRIPT` and `check_rate_limit`. Times are in
-- milliseconds. The sorted sets are the server's: `SortedSet` has the commands that the script
-- calls on one key, and `IsSortedSet` what Redis documents of them.
pub mod Window
pub mod Retry
pub mod Memory
use root_agent.Common.{
  ltb, leb, if◌then◌else◌, length, drop, filter, ℕ, ◌+◌, ◌-◌, ◌*◌, ◌/◌, max, String, ◌≡◌, Bool,
  false, not, Option, none, some, List, [], ◌∷◌, Memᴰ,
}

pub record SortedSet : Type 1 where
  pub Z : Type 0
  -- what a key that does not exist, or that expired, holds
  pub empty : Z
  pub zremrangebyscore : Z → ℕ → ℕ → Z
  pub zcard : Z → ℕ
  pub zadd : Z → ℕ → String → Z
  -- `ZRANGE key 0 0 WITHSCORES`
  pub lowest : Z → Option (String × ℕ)
  -- the members' scores, from the lowest up, and whether a text is a member
  pub scores : Z → List ℕ
  pub has : Z → String → Bool

pub record IsSortedSet (S : SortedSet) : Type 0 where
  pub scores-empty : S.scores S.empty ≡ []
  pub zcard_lem : (z : S.Z) → S.zcard z ≡ length (S.scores z)
  pub scores-zremrangebyscore :
      (z : S.Z) (hi : ℕ)
      → S.scores (S.zremrangebyscore z 0 hi) ≡ filter (λ s. ltb hi s) (S.scores z)
  pub has-zremrangebyscore :
      (z : S.Z) (hi : ℕ) (m : String)
      → S.has z m ≡ false
      → S.has (S.zremrangebyscore z 0 hi) m ≡ false
  pub count-zadd :
      (z : S.Z) (score : ℕ) (m : String) (p : ℕ → Bool)
      → S.has z m ≡ false
      → length (filter p (S.scores (S.zadd z score m))) ≡ length (filter p (score ∷ S.scores z))
  pub lowest-none : (z : S.Z) → S.lowest z ≡ none → S.scores z ≡ []
  pub lowest-mem : (z : S.Z) (m : String) (s : ℕ) → S.lowest z ≡ some (m, s) → Memᴰ s (S.scores z)

-- The key of one identity: its sorted set, and when `PEXPIRE` will drop it.
pub record Bucket (S : SortedSet) : Type 0 where
  pub set : S.Z
  pub deadline : ℕ

pub record Reply : Type 0 where
  pub allowed : Bool
  pub count : ℕ
  pub retry_ms : ℕ

pub record RateLimitResult : Type 0 where
  pub allowed : Bool
  pub remaining : ℕ
  pub retry_after_seconds : ℕ

module _ (S : SortedSet) where
  -- What the key shows at a time.
  unfoldable pub visible : Bucket S → ℕ → S.Z
  visible b now = if leb b.deadline now then S.empty else b.set

  -- `ZREMRANGEBYSCORE key 0 (now_ms - window_ms)`; a negative bound removes nothing.
  unfoldable pub pruned : S.Z → ℕ → ℕ → S.Z
  pruned z now window = if leb window now then S.zremrangebyscore z 0 (now - window) else z

  unfoldable pub retry_time : Option (String × ℕ) → ℕ → ℕ → ℕ
  retry_time none now window = window
  retry_time (some (m, oldest)) now window = max 1 (window + oldest - now)

  unfoldable pub rate_limit_script : Bucket S → ℕ → ℕ → ℕ → String → Bucket S × Reply
  unfolding visible pruned retry_time
  rate_limit_script b now window limit member =
      let z = pruned (visible b now) now window in
      let allowed = ltb (S.zcard z) limit in
      let z' = if allowed then S.zadd z now member else z in
      let count = if allowed then S.zcard z + 1 else S.zcard z in
      (
        record { set = z'; deadline = now + window },
        record { allowed = allowed; count = count; retry_ms = retry_time (S.lowest z') now window },
      )

  unfoldable pub check_rate_limit : Bucket S → ℕ → ℕ → ℕ → String → Bucket S × RateLimitResult
  unfolding rate_limit_script
  check_rate_limit b now limit window_seconds member =
      let (b', reply) = rate_limit_script b now (window_seconds * 1000) limit member in
      (
        b',
        record {
          allowed = reply.allowed;
          remaining = limit - reply.count;
          retry_after_seconds = max 1 ((reply.retry_ms + 999) / 1000);
        },
      )
