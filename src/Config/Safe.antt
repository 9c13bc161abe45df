-- ===== src/Config/Safe.antt =====
-- What settings are that pass the checks in production.
use root_agent.Common.{
  Bool-cases, length, any, All, ◌≤◌, ◌≡◌, refl, sym, ap, ◌∙◌, ◌≢◌, ◌⊎◌, inl, inr, Bool, true, false,
  not, ◌||◌, Option, none, some, List, [], ◌∷◌, ◌++◌, arith, or_left, or_right, true≢false,
  false≢true, Text, codes, text_eq, text_eq_refl, text_eq_sound,
}
use mathlib.Core.Option.{some-injective}
use root_agent.Config.{
  Backend, local, grpc, Settings, Platform, Problem, placeholder_secret, no_explicit_origins,
  local_origin, insecure_origin, one_of, or_blank, local_hosts, tls_modes, host_in, is_diverse,
  jwt_minimum, problem_if, is_no_origin, is_placeholder, cors_origins_list, trusted_proxies,
  has_tls, required_secrets, secret_problems, is_local_origin, origin_problems, minio_host,
  is_unsafe_executor, is_plain_executor,
}

-- A host that is not one of the names of this machine.
abbrev pub IsRemote : Option Text → Type 0
IsRemote host = All (λ h. host ≢ some h) local_hosts

abbrev pub IsPublicOrigin : Platform → Text → Type 0
IsPublicOrigin P o =
    (o ≢ codes "*")
    × (P.scheme o ≡ codes "https")
    × (P.hostname o ≢ some (codes "localhost"))
    × (P.hostname o ≢ some (codes "127.0.0.1"))

abbrev pub Encrypts : List Text → Type 0
Encrypts values = (mode : Text) × ((one_of mode values ≡ true) × (one_of mode tls_modes ≡ true))

pub record IsSafe (P : Platform) (s : Settings) : Type 0 where
  pub quiet : s.debug ≡ false
  pub jwt_algorithm :
      one_of s.jwt_algorithm (codes "HS256" ∷ codes "HS384" ∷ codes "HS512" ∷ []) ≡ true
  pub jwt_length : 32 ≤ length (P.encode s.jwt_secret)
  pub jwt_entropy : is_diverse (P.encode s.jwt_secret) ≡ true
  pub jwt_chosen : is_placeholder P s.jwt_secret ≡ false
  pub secrets : All (λ secret. is_placeholder P secret.1 ≡ false) (required_secrets P s)
  pub origins :
      (os : List Text) × ((cors_origins_list P s ≡ some os)
        × ((os ≢ []) × All (IsPublicOrigin P) os))
  pub proxied : trusted_proxies P s ≢ []
  pub public_url : P.scheme (or_blank s.app_public_url) ≡ codes "https"
  pub postgres_scheme : P.scheme (or_blank s.postgres_url) ≡ codes "postgresql+asyncpg"
  pub postgres_remote : IsRemote (P.hostname (or_blank s.postgres_url))
  pub postgres_encrypted : Encrypts (
      P.query (or_blank s.postgres_url) (codes "ssl")
      ++ P.query (or_blank s.postgres_url) (codes "sslmode"))
  pub infra_scheme : P.scheme (or_blank s.infra_hub_postgres_url) ≡ codes "postgresql"
  pub infra_remote : IsRemote (P.hostname (or_blank s.infra_hub_postgres_url))
  pub infra_encrypted : Encrypts (P.query (or_blank s.infra_hub_postgres_url) (codes "sslmode"))
  pub redis_remote : IsRemote (some s.redis_host)
  pub redis_encrypted : s.redis_ssl ≡ true
  pub minio_remote : IsRemote (minio_host P s)
  pub minio_encrypted : s.minio_secure ≡ true
  pub executor :
      ((s.executor_backend ≡ local) × (s.allow_unsafe_local_executor ≡ true))
      ⊎ ((s.executor_backend ≡ grpc) × (s.grpc_executor_tls ≡ true))

pub both_empty : (xs ys : List Problem) → xs ++ ys ≡ [] → (xs ≡ []) × (ys ≡ [])
both_empty [] ys h = (refl, h)
both_empty (x ∷ xs) ys h = absurd (cc)

pub no_problem : (b : Bool) (p : Problem) → problem_if b p ≡ [] → b ≡ false
no_problem true p h = absurd (cc)
no_problem false p h = refl

none_pass : {A : Type 0} (p : A → Bool) (xs : List A) → any p xs ≡ false → All (λ x. p x ≡ false) xs
none_pass p [] h = tt
none_pass p (x ∷ xs) h = (or_left (p x) (any p xs) h, none_pass p xs (or_right (p x) (any p xs) h))

one_passes :
    (q : Text → Bool) (xs : List Text)
    → any q xs ≡ true
    → (x : Text) × ((one_of x xs ≡ true) × (q x ≡ true))
one_passes q [] h = absurd (false≢true h)
one_passes q (x ∷ xs) h = elim (Bool-cases (q x)) [
  | inl on ↦ let here = text_eq_refl x in (x, (rw here refl, on))
  | inr off ↦
      let (y, (there, passes)) = one_passes q xs (rw off at h) in
      (y, (ground (arith, there), passes))
]

pub holds : (b : Bool) → not b ≡ false → b ≡ true
holds true h = refl
holds false h = sym h

different : (x : Text) (y : Text) → text_eq x y ≡ false → x ≢ y
different x y h same = true≢false (sym (ap (λ z. text_eq z y) same ∙ text_eq_refl y) ∙ h)

not_host :
    (host : Option Text) (h : Text) (hs : List Text) → host_in host (h ∷ hs) ≡ false → host ≢ some h
not_host none h hs out is = absurd (cc)
not_host (some x) h hs out is =
    different x h (or_left (text_eq x h) (one_of x hs) out) (some-injective x h is)

fewer_hosts :
    (host : Option Text) (h : Text) (hs : List Text)
    → host_in host (h ∷ hs) ≡ false
    → host_in host hs ≡ false
fewer_hosts none h hs out = refl
fewer_hosts (some x) h hs out = or_right (text_eq x h) (one_of x hs) out

pub remote : (host : Option Text) → host_in host local_hosts ≡ false → IsRemote host
remote host out =
    let out₁ = fewer_hosts host _ _ out in
    let out₂ = fewer_hosts host _ _ out₁ in
    (not_host host _ _ out, (not_host host _ _ out₁, (not_host host _ _ out₂, tt)))

module _ (P : Platform) where
  -- Each problem is absent where the list of problems is empty.
  pub public_origins :
      (os : List Text) → origin_problems P os ≡ [] → (os ≢ []) × All (IsPublicOrigin P) os
  public_origins os none_found =
      let (explicit, later) = both_empty _ _ none_found in
      let (remote_ones, secure) = both_empty _ _ later in
      let no_star =
        no_problem (is_no_origin os || one_of (codes "*") os) no_explicit_origins explicit in
      let not_local =
        none_pass (is_local_origin P) os
          (no_problem (any (is_local_origin P) os) local_origin remote_ones) in
      let https =
        none_pass (λ o. not (text_eq (P.scheme o) (codes "https"))) os
          (no_problem _ insecure_origin secure) in
      (
        (λ empty. some_origin os empty (or_left (is_no_origin os) (one_of (codes "*") os) no_star)),
        each os
            (none_pass (text_eq (codes "*")) os
              (or_right (is_no_origin os) (one_of (codes "*") os) no_star))
            not_local https,
      )
    where
      some_origin : (os : List Text) → os ≡ [] → is_no_origin os ≡ false → ⊥
      some_origin [] empty h = true≢false h
      some_origin (o ∷ os) empty h = absurd (cc)

      each :
          (os : List Text)
          → All (λ o. text_eq (codes "*") o ≡ false) os
          → All (λ o. is_local_origin P o ≡ false) os
          → All (λ o. not (text_eq (P.scheme o) (codes "https")) ≡ false) os
          → All (IsPublicOrigin P) os
      each [] stars near https = tt
      each (o ∷ os) (star, stars) (near, nears) (tls, https) = (
        (
          (λ same. different (codes "*") o star (sym same)),
          text_eq_sound (P.scheme o) (codes "https")
              (holds (text_eq (P.scheme o) (codes "https")) tls),
          not_host (P.hostname o) _ _ near,
          not_host (P.hostname o) _ _ (fewer_hosts (P.hostname o) _ _ near),
        ),
        each os stars nears https,
      )

  pub chosen_secrets :
      (secrets : List (Text × Text))
      → secret_problems P secrets ≡ []
      → All (λ secret. is_placeholder P secret.1 ≡ false) secrets
  chosen_secrets [] h = tt
  chosen_secrets ((name, value) ∷ secrets) h =
      let (this, others) =
        both_empty (problem_if (is_placeholder P value) (placeholder_secret name))
          (secret_problems P secrets) h in
      (
        no_problem (is_placeholder P value) (placeholder_secret name) this,
        chosen_secrets secrets others,
      )

  pub long_secret : (algorithm : Text) → 32 ≤ jwt_minimum algorithm
  unfolding jwt_minimum
  long_secret algorithm = ground arith

  pub encrypted : (values : List Text) → has_tls P values ≡ true → Encrypts values
  encrypted values h = one_passes (λ v. one_of v tls_modes) values h

  pub executor_chosen :
      (s : Settings) (b : Backend)
      → s.executor_backend ≡ b
      → is_unsafe_executor P s ≡ false
      → is_plain_executor P s ≡ false
      → ((s.executor_backend ≡ local) × (s.allow_unsafe_local_executor ≡ true))
        ⊎ ((s.executor_backend ≡ grpc) × (s.grpc_executor_tls ≡ true))
  executor_chosen s local is allowed plain =
      inl (is, holds s.allow_unsafe_local_executor (rw is at allowed))
  executor_chosen s grpc is allowed plain = inr (is, holds s.grpc_executor_tls (rw is at plain))
