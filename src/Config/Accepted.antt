-- ===== src/Config/Accepted.antt =====
-- The validators together: what a production configuration is that they accept.
use root_agent.Common.{
  ltb, length, ◌≡◌, refl, sym, ap, ◌∙◌, subst, ◌≢◌, Bool, true, false, not, ◌||◌, Option, none,
  some, List, [], ◌∷◌, ◌++◌, arith, and_right, true≢false, false≢true, Text, codes, text_eq,
  text_eq_sound,
}
use root_agent.Common.Result.{bind_ok, Result, ok, err, is_ok}
use root_agent.Config.{
  bad_jwt_algorithm, bad_origins, Environment, development, test, production, Settings, Platform,
  Problem, debug_on, weak_jwt_secret, no_proxy, no_public_url, bad_postgres_url, bad_infra_url,
  local_redis, plain_redis, local_minio, plain_minio, unsafe_executor, plain_executor, ConfigError,
  one_of, or_blank, is_some_text, local_hosts, host_in, is_diverse, jwt_minimum, is_no_origin,
  validate_trusted_proxy_ips, assemble_postgres_urls, apply_public_app_settings,
  validate_executor_settings, validate_production_settings, checked_settings, is_placeholder,
  cors_origins_list, trusted_proxies, has_tls, required_secrets, secret_problems, origin_problems,
  has_public_url, minio_host, is_unsafe_executor, is_plain_executor, jwt_problems, url_problems,
  service_problems, problems, unless_problems, is_weak_jwt_secret, is_bad_postgres_url,
  is_bad_infra_url,
}
use root_agent.Config.Safe.{
  IsSafe, both_empty, no_problem, holds, remote, public_origins, chosen_secrets, long_secret,
  encrypted, executor_chosen,
}

all_fine : (a b c : Bool) → a || b || not c ≡ false → (a ≡ false) × (b ≡ false) × (c ≡ true)
all_fine true b c h = absurd (true≢false h)
all_fine false true c h = absurd (true≢false h)
all_fine false false true h = (refl, refl, refl)
all_fine false false false h = absurd (true≢false h)

no_problems : (ps : List Problem) → unless_problems ps ≡ ok tt → ps ≡ []
no_problems [] h = refl
no_problems (p ∷ ps) h = absurd (cc)

some_proxy : (os : List Text) → is_no_origin os ≡ false → os ≢ []
some_proxy [] h empty = true≢false h
some_proxy (o ∷ os) h empty = absurd (cc)

module _ (P : Platform) where
  without_problems :
      (s : Settings) (os : List Text)
      → cors_origins_list P s ≡ some os
      → problems P s os ≡ []
      → IsSafe P s
  without_problems s os listed none_found =
      let (jwt, rest₁) = both_empty (jwt_problems P s) _ none_found in
      let (secrets, rest₂) = both_empty (secret_problems P (required_secrets P s)) _ rest₁ in
      let (origins, rest₃) = both_empty (origin_problems P os) _ rest₂ in
      let (urls, services) = both_empty (url_problems P s) (service_problems P s) rest₃ in
      let (debug, jwt₁) = both_empty _ _ jwt in
      let (algorithm, secret) = both_empty _ _ jwt₁ in
      let raw = P.encode s.jwt_secret in
      let (chosen, long, diverse) =
        all_fine (is_placeholder P s.jwt_secret) (ltb (length raw) (jwt_minimum s.jwt_algorithm))
          (is_diverse raw) (no_problem (is_weak_jwt_secret P s) weak_jwt_secret secret) in
      let minimum = long_secret P s.jwt_algorithm in
      let (proxy, urls₁) = both_empty _ _ urls in
      let (public, urls₂) = both_empty _ _ urls₁ in
      let (postgres, infra) = both_empty _ _ urls₂ in
      let shown =
        holds (has_public_url P s) (no_problem (not (has_public_url P s)) no_public_url public) in
      let pg = or_blank s.postgres_url in
      let hub = or_blank s.infra_hub_postgres_url in
      let pg_tls = P.query pg (codes "ssl") ++ P.query pg (codes "sslmode") in
      let hub_tls = P.query hub (codes "sslmode") in
      let (pg_scheme, pg_away, pg_safe) =
        all_fine (not (text_eq (P.scheme pg) (codes "postgresql+asyncpg")))
          (host_in (P.hostname pg) local_hosts) (has_tls P pg_tls)
          (no_problem (is_bad_postgres_url P pg) bad_postgres_url postgres) in
      let (hub_scheme, hub_away, hub_safe) =
        all_fine (not (text_eq (P.scheme hub) (codes "postgresql")))
          (host_in (P.hostname hub) local_hosts) (has_tls P hub_tls)
          (no_problem (is_bad_infra_url P hub) bad_infra_url infra) in
      let (redis, services₁) = both_empty _ _ services in
      let (redis_tls, services₂) = both_empty _ _ services₁ in
      let (minio, services₃) = both_empty _ _ services₂ in
      let (minio_tls, services₄) = both_empty _ _ services₃ in
      let (unsafe, plain) = both_empty _ _ services₄ in
      record {
        quiet = no_problem s.debug debug_on debug;
        jwt_algorithm =
            holds (one_of s.jwt_algorithm (codes "HS256" ∷ codes "HS384" ∷ codes "HS512" ∷ []))
              (no_problem _ bad_jwt_algorithm algorithm);
        jwt_length = ground (arith, long, minimum);
        jwt_entropy = diverse;
        jwt_chosen = chosen;
        secrets = chosen_secrets P (required_secrets P s) secrets;
        origins = (os, (listed, public_origins P os origins));
        proxied =
            some_proxy (trusted_proxies P s)
              (no_problem (is_no_origin (trusted_proxies P s)) no_proxy proxy);
        public_url =
            text_eq_sound (P.scheme (or_blank s.app_public_url)) (codes "https")
              (and_right (is_some_text s.app_public_url) _ shown);
        postgres_scheme =
            text_eq_sound (P.scheme pg) (codes "postgresql+asyncpg")
              (holds (text_eq (P.scheme pg) (codes "postgresql+asyncpg")) pg_scheme);
        postgres_remote = remote (P.hostname pg) pg_away;
        postgres_encrypted = encrypted P pg_tls pg_safe;
        infra_scheme =
            text_eq_sound (P.scheme hub) (codes "postgresql")
              (holds (text_eq (P.scheme hub) (codes "postgresql")) hub_scheme);
        infra_remote = remote (P.hostname hub) hub_away;
        infra_encrypted = encrypted P hub_tls hub_safe;
        redis_remote =
            remote (some s.redis_host)
              (no_problem (one_of s.redis_host local_hosts) local_redis redis);
        redis_encrypted = holds s.redis_ssl (no_problem (not s.redis_ssl) plain_redis redis_tls);
        minio_remote =
            remote (minio_host P s)
              (no_problem (host_in (minio_host P s) local_hosts) local_minio minio);
        minio_encrypted =
            holds s.minio_secure (no_problem (not s.minio_secure) plain_minio minio_tls);
        executor =
            executor_chosen P s s.executor_backend refl
              (no_problem (is_unsafe_executor P s) unsafe_executor unsafe)
              (no_problem (is_plain_executor P s) plain_executor plain);
      }

  production-IsSafe :
      (s : Settings)
      → s.environment ≡ production
      → validate_production_settings P s ≡ ok tt
      → IsSafe P s
  unfolding validate_production_settings
  production-IsSafe s is accepted =
      listed (cors_origins_list P s) refl (subst (λ e. checked e ≡ ok tt) is accepted)
    where
      origins_checked : Option (List Text) → Result ConfigError (Unit {0})
      origins_checked os = elim os [
        | none ↦ err bad_origins
        | some os ↦ unless_problems (problems P s os)
      ]

      checked : Environment → Result ConfigError (Unit {0})
      checked e = elim e [
        | development ↦ ok tt
        | test ↦ ok tt
        | production ↦ origins_checked (cors_origins_list P s)
      ]

      listed :
          (x : Option (List Text))
          → cors_origins_list P s ≡ x
          → origins_checked (cors_origins_list P s) ≡ ok tt
          → IsSafe P s
      listed none is done = absurd (false≢true (ap is_ok (ap origins_checked (sym is) ∙ done)))
      listed (some os) is done =
          without_problems s os is
            (no_problems (problems P s os) (ap origins_checked (sym is) ∙ done))

  -- Settings that pass all validators for production are safe, after the URLs that were not given
  -- have been put together: debugging is off; the secret of tokens is for an algorithm that is
  -- allowed, has 32 bytes at least and 128 bits of entropy, and neither it nor another secret is a
  -- placeholder; there are origins, each with https, none a wildcard, localhost or 127.0.0.1; there
  -- is a proxy and a public https URL; the URLs of both databases have their schemes and a mode that
  -- requires TLS; the hosts that they, Redis and the object storage name, where they name one, are
  -- not localhost, 127.0.0.1 or ::1; Redis and the object storage are used with TLS; and a local
  -- executor was allowed, or one behind gRPC has TLS.
  pub checked_settings-IsSafe :
      (s s' : Settings) → s.environment ≡ production → checked_settings P s ≡ ok s' → IsSafe P s'
  unfolding checked_settings assemble_postgres_urls apply_public_app_settings
  checked_settings-IsSafe s s' is accepted =
      let ready = apply_public_app_settings P (assemble_postgres_urls P s) in
      let (a, (first, rest)) = bind_ok (validate_trusted_proxy_ips P s) _ s' accepted in
      let (b, (second, rest₂)) = bind_ok (validate_executor_settings P ready) _ s' rest in
      let (c, (third, last)) = bind_ok (validate_production_settings P ready) _ s' rest₂ in
      let same : ready ≡ s' = ap or_old last in
      subst (IsSafe P) same (production-IsSafe ready is third)
    where
      or_old : Result ConfigError Settings → Settings
      or_old (ok x) = x
      or_old (err e) = s
