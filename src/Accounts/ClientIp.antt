-- ===== src/Accounts/ClientIp.antt =====
-- `_client_ip` and `_enforce_rate_limit` of backend/app/routers/auth.py: whose calls are counted.
use root_agent.Common.{
  ◌==◌, if◌then◌else◌, Option-cases, ℕ, String, ◌≡◌, refl, ap, inl, inr, Bool, false, not, Option,
  none, some, [], ◌∷◌, Text, strip,
}
use root_agent.Redis.RateLimit.{SortedSet, Bucket, check_rate_limit}

-- Python's `ipaddress`: reading and printing an address; and whether one of the trusted proxies'
-- networks has it.
pub record Addresses : Type 1 where
  pub Address : Type 0
  pub ip_address : Text → Option Address
  pub str : Address → Text
  pub is_trusted_proxy : Address → Bool

-- `header.split(",", 1)[0]`
abbrev pub before_comma : Text → Text
before_comma [] = []
before_comma (c ∷ cs) = if c == 44 then [] else c ∷ before_comma cs

module _ (I : Addresses) where
  -- `peer` is the connection's address, or "unknown"; `header` is X-Forwarded-For, or empty.
  unfoldable pub client_ip : Text → Text → Text
  client_ip peer header = elim (I.ip_address peer) [
    | none ↦ peer
    | some peer_address ↦
        if not (I.is_trusted_proxy peer_address)
        then I.str peer_address
        else elim (I.ip_address (strip (before_comma header))) [
          | none ↦ I.str peer_address
          | some forwarded ↦ I.str forwarded
        ]
  ]

  -- The limit at the caller's key. The second component is the `Retry-After` of a refusal.
  unfoldable pub enforce_rate_limit :
      (S : SortedSet) → (Text → Bucket S) → Text → Text → ℕ → ℕ → ℕ → String → Bucket S × Option ℕ
  unfolding client_ip check_rate_limit
  enforce_rate_limit S buckets peer header now limit window_seconds member =
      let (b, result) =
        check_rate_limit S (buckets (client_ip peer header)) now limit window_seconds member in
      (b, if result.allowed then none else some result.retry_after_seconds)

  -- Unless the connection comes from a trusted proxy, what the caller writes into X-Forwarded-For
  -- makes no difference: neither whose bucket is used nor whether the call is refused.
  pub enforce_rate_limit_unforged :
      (S : SortedSet) (buckets : Text → Bucket S) (peer header header' : Text)
      (now limit window_seconds : ℕ) (member : String)
      → ((a : I.Address) → I.ip_address peer ≡ some a → I.is_trusted_proxy a ≡ false)
      → enforce_rate_limit S buckets peer header now limit window_seconds member
        ≡ enforce_rate_limit S buckets peer header' now limit window_seconds member
  unfolding enforce_rate_limit client_ip
  enforce_rate_limit_unforged S buckets peer header header' now limit window_seconds member direct =
      let same : client_ip peer header ≡ client_ip peer header' =
        elim (Option-cases (I.ip_address peer)) [
          | inl unknown ↦ rw (client_ip, unknown) refl
          | inr (a, at) ↦ rw (client_ip, at, direct a at) refl
        ] in
      ap
        (λ ip.
          let (b, result) = check_rate_limit S (buckets ip) now limit window_seconds member in
          (b, if result.allowed then none else some result.retry_after_seconds))
        same
