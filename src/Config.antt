-- ===== src/Config.antt =====
-- backend/app/core/config.py: the checks that settings pass before the application starts. URLs,
-- addresses, JSON, lower case and UTF-8 are Python's, and parameters.
pub mod Safe
pub mod Accepted
use root_agent.Common.{
  ltb, leb, ◌==◌, if◌then◌else◌, length, filter, any, ℕ, ◌+◌, ◌-◌, ◌*◌, ◌/◌, ◌^◌, Bool, true, false,
  not, ◌&&◌, ◌||◌, Option, none, some, List, [], ◌∷◌, ◌++◌, map, Text, codes, rstrip_by, strip,
  text_eq, starts_with, is_empty,
}
use root_agent.Common.Result.{after, Result, ok, err, ◌>>=◌, ◌>>◌, refuse, is_ok}
use root_agent.Artifacts.Gateway.{Bytes}

pub data Environment : Type 0 where
  development test production : Environment

pub data Backend : Type 0 where
  local grpc : Backend

pub record Settings : Type 0 where
  pub environment : Environment
  pub debug : Bool
  pub postgres_user : Text
  pub postgres_password : Text
  pub postgres_host : Text
  pub postgres_port : ℕ
  pub postgres_db : Text
  pub postgres_url : Option Text
  pub infra_hub_postgres_db : Text
  pub infra_hub_postgres_url : Option Text
  pub redis_host : Text
  pub redis_password : Text
  pub redis_ssl : Bool
  pub minio_endpoint : Text
  pub minio_access_key : Text
  pub minio_secret_key : Text
  pub minio_secure : Bool
  pub jwt_secret : Text
  pub jwt_algorithm : Text
  pub llm_api_key : Text
  pub app_public_url : Option Text
  pub app_public_host : Option Text
  pub service_public_host : Text
  pub cors_origins : Text
  pub trusted_proxy_ips : Text
  pub executor_backend : Backend
  pub allow_unsafe_local_executor : Bool
  pub grpc_executor_target : Text
  pub grpc_executor_tls : Bool
  pub grpc_executor_client_cert : Option Text
  pub grpc_executor_client_key : Option Text

-- `scheme`, `hostname` and `query` are of `urlparse`, the last the values of a name in `parse_qs`.
-- `json_list` gives `str` of each item, and `none` where it raises or the value is no list.
pub record Platform : Type 0 where
  pub lower : Text → Text
  pub encode : Text → Bytes
  pub print : ℕ → Text
  pub scheme : Text → Text
  pub hostname : Text → Option Text
  pub query : Text → Text → List Text
  pub is_network : Text → Bool
  pub json_list : Text → Option (List Text)

-- What a production configuration is refused for, in the order of the checks.
pub data Problem : Type 0 where
  debug_on bad_jwt_algorithm weak_jwt_secret : Problem
  placeholder_secret : Text → Problem
  no_explicit_origins local_origin insecure_origin no_proxy no_public_url : Problem
  bad_postgres_url bad_infra_url local_redis plain_redis local_minio plain_minio : Problem
  unsafe_executor plain_executor : Problem

pub data ConfigError : Type 0 where
  bad_network no_grpc_target half_certificate bad_origins : ConfigError
  invalid_production : List Problem → ConfigError

abbrev pub one_of : Text → List Text → Bool
one_of x xs = any (text_eq x) xs

-- `text.split(",")`, with the current item so far.
abbrev pub split_commas : Text → Text → List Text
split_commas [] item = item ∷ []
split_commas (c ∷ cs) item =
    if c == 44 then item ∷ split_commas cs [] else split_commas cs (item ++ (c ∷ []))

abbrev pub is_some_text : Option Text → Bool
is_some_text none = false
is_some_text (some t) = not (is_empty t)

-- `x or ""`
abbrev pub or_blank : Option Text → Text
or_blank none = []
or_blank (some t) = t

abbrev pub stripped : List Text → List Text
stripped items = filter (λ t. not (is_empty t)) (map strip items)

abbrev pub placeholders : List Text
placeholders =
    []
    ∷ codes "change-me"
    ∷ codes "change-me-in-production"
    ∷ codes "password"
    ∷ codes "password123"
    ∷ codes "secret"
    ∷ codes "test"
    ∷ codes "test-secret-key"
    ∷ []

abbrev pub local_hosts : List Text
local_hosts = codes "localhost" ∷ codes "127.0.0.1" ∷ codes "::1" ∷ []

abbrev pub tls_modes : List Text
tls_modes = codes "require" ∷ codes "verify-ca" ∷ codes "verify-full" ∷ []

abbrev pub host_in : Option Text → List Text → Bool
host_in none hosts = false
host_in (some h) hosts = one_of h hosts

abbrev pub count : ℕ → Bytes → ℕ
count b raw = length (filter (λ c. c == b) raw)

abbrev pub product : List ℕ → ℕ
product [] = 1
product (n ∷ ns) = n * product ns

-- `entropy_bits(value) >= 128` without rounding: the sum over the distinct bytes of
-- `count * log2(length / count)` is the logarithm of a quotient, and each of the `count`
-- occurrences of a byte gives a factor `count` of its divisor.
unfoldable pub is_diverse : Bytes → Bool
is_diverse raw = leb (2 ^ 128 * product (map (λ b. count b raw) raw)) (length raw ^ length raw)

unfoldable pub jwt_minimum : Text → ℕ
jwt_minimum algorithm =
    if text_eq algorithm (codes "HS256")
    then 32
    else if text_eq algorithm (codes "HS384")
    then 48
    else 64

abbrev pub problem_if : Bool → Problem → List Problem
problem_if true p = p ∷ []
problem_if false p = []

abbrev pub is_no_origin : List Text → Bool
is_no_origin [] = true
is_no_origin (o ∷ os) = false

abbrev pub differ : Bool → Bool → Bool
differ true b = not b
differ false b = b

abbrev pub unless_problems : List Problem → Result ConfigError (Unit {0})
unless_problems [] = ok tt
unless_problems (p ∷ ps) = err (invalid_production (p ∷ ps))

module _ (P : Platform) where
  -- `validate_trusted_proxy_ips`
  unfoldable pub validate_trusted_proxy_ips : Settings → Result ConfigError (Unit {0})
  validate_trusted_proxy_ips s =
      refuse (any (λ t. not (P.is_network t)) (stripped (split_commas s.trusted_proxy_ips [])))
        bad_network

  abbrev pub postgres_address : Settings → Text → Text
  postgres_address s db =
      s.postgres_user
      ++ (codes ":"
          ++ (s.postgres_password
              ++ (codes "@"
                  ++ (s.postgres_host
                      ++ (codes ":" ++ (P.print s.postgres_port ++ (codes "/" ++ db)))))))

  abbrev pub or_default : Option Text → Text → Option Text
  or_default url default = if is_some_text url then url else some default

  unfoldable pub assemble_postgres_urls : Settings → Settings
  assemble_postgres_urls s = record s {
    postgres_url =
        or_default s.postgres_url
          (codes "postgresql+asyncpg://" ++ postgres_address s s.postgres_db);
    infra_hub_postgres_url =
        or_default s.infra_hub_postgres_url
          (codes "postgresql://" ++ postgres_address s s.infra_hub_postgres_db);
  }

  abbrev pub public_host : Settings → Text
  public_host s =
      if is_some_text s.app_public_host
      then or_blank s.app_public_host
      else if is_some_text s.app_public_url && is_some_text (P.hostname (or_blank s.app_public_url))
      then or_blank (P.hostname (or_blank s.app_public_url))
      else s.service_public_host

  unfoldable pub apply_public_app_settings : Settings → Settings
  apply_public_app_settings s = record s { service_public_host = public_host s }

  unfoldable pub validate_executor_settings : Settings → Result ConfigError (Unit {0})
  validate_executor_settings s = elim s.executor_backend [
    | local ↦ ok tt
    | grpc ↦
        refuse (is_empty (strip s.grpc_executor_target)) no_grpc_target
        >> refuse
            (differ (is_some_text s.grpc_executor_client_cert)
              (is_some_text s.grpc_executor_client_key))
            half_certificate
  ]

  abbrev pub is_placeholder : Text → Bool
  is_placeholder value = one_of (P.lower (strip value)) placeholders

  abbrev pub listed_origins : Text → Option (List Text)
  listed_origins raw =
      if is_empty raw
      then some []
      else if starts_with raw (codes "[")
      then elim (P.json_list raw) [ none ↦ none | some items ↦ some (stripped items) ]
      else some (stripped (split_commas raw []))

  abbrev pub with_public_origin : Option Text → List Text → List Text
  with_public_origin url origins =
      let origin = rstrip_by (λ c. c == 47) (or_blank url) in
      if not (is_some_text url) || one_of origin origins then origins else origins ++ (origin ∷ [])

  -- `none` is a ValueError.
  unfoldable pub cors_origins_list : Settings → Option (List Text)
  cors_origins_list s = elim (listed_origins (strip s.cors_origins)) [
    | none ↦ none
    | some origins ↦ some (with_public_origin s.app_public_url origins)
  ]

  abbrev pub trusted_proxies : Settings → List Text
  trusted_proxies s = stripped (split_commas s.trusted_proxy_ips [])

  abbrev pub is_weak_jwt_secret : Settings → Bool
  is_weak_jwt_secret s =
      is_placeholder s.jwt_secret
      || ltb (length (P.encode s.jwt_secret)) (jwt_minimum s.jwt_algorithm)
      || not (is_diverse (P.encode s.jwt_secret))

  abbrev pub has_tls : List Text → Bool
  has_tls values = any (λ v. one_of v tls_modes) values

  abbrev pub is_bad_postgres_url : Text → Bool
  is_bad_postgres_url url =
      not (text_eq (P.scheme url) (codes "postgresql+asyncpg"))
      || host_in (P.hostname url) local_hosts
      || not (has_tls (P.query url (codes "ssl") ++ P.query url (codes "sslmode")))

  abbrev pub is_bad_infra_url : Text → Bool
  is_bad_infra_url url =
      not (text_eq (P.scheme url) (codes "postgresql"))
      || host_in (P.hostname url) local_hosts
      || not (has_tls (P.query url (codes "sslmode")))

  abbrev pub required_secrets : Settings → List (Text × Text)
  required_secrets s =
      (codes "POSTGRES_PASSWORD", s.postgres_password)
      ∷ (codes "REDIS_PASSWORD", s.redis_password)
      ∷ (codes "MINIO_ACCESS_KEY", s.minio_access_key)
      ∷ (codes "MINIO_SECRET_KEY", s.minio_secret_key)
      ∷ (codes "LLM_API_KEY", s.llm_api_key)
      ∷ []

  abbrev pub secret_problems : List (Text × Text) → List Problem
  secret_problems [] = []
  secret_problems ((name, value) ∷ secrets) =
      problem_if (is_placeholder value) (placeholder_secret name) ++ secret_problems secrets

  abbrev pub is_local_origin : Text → Bool
  is_local_origin o = host_in (P.hostname o) (codes "localhost" ∷ codes "127.0.0.1" ∷ [])

  abbrev pub origin_problems : List Text → List Problem
  origin_problems origins =
      problem_if (is_no_origin origins || one_of (codes "*") origins) no_explicit_origins
      ++ (problem_if (any is_local_origin origins) local_origin
          ++ problem_if (any (λ o. not (text_eq (P.scheme o) (codes "https"))) origins)
              insecure_origin)

  abbrev pub has_public_url : Settings → Bool
  has_public_url s =
      is_some_text s.app_public_url
      && text_eq (P.scheme (or_blank s.app_public_url)) (codes "https")

  abbrev pub minio_host : Settings → Option Text
  minio_host s = P.hostname (codes "//" ++ s.minio_endpoint)

  abbrev pub is_unsafe_executor : Settings → Bool
  is_unsafe_executor s = elim s.executor_backend [
    | local ↦ not s.allow_unsafe_local_executor
    | grpc ↦ false
  ]

  abbrev pub is_plain_executor : Settings → Bool
  is_plain_executor s = elim s.executor_backend [ local ↦ false | grpc ↦ not s.grpc_executor_tls ]

  abbrev pub jwt_problems : Settings → List Problem
  jwt_problems s =
      problem_if s.debug debug_on
      ++ (problem_if
            (not (one_of s.jwt_algorithm (codes "HS256" ∷ codes "HS384" ∷ codes "HS512" ∷ [])))
            bad_jwt_algorithm
          ++ problem_if (is_weak_jwt_secret s) weak_jwt_secret)

  abbrev pub url_problems : Settings → List Problem
  url_problems s =
      problem_if (is_no_origin (trusted_proxies s)) no_proxy
      ++ (problem_if (not (has_public_url s)) no_public_url
          ++ (problem_if (is_bad_postgres_url (or_blank s.postgres_url)) bad_postgres_url
              ++ problem_if (is_bad_infra_url (or_blank s.infra_hub_postgres_url)) bad_infra_url))

  abbrev pub service_problems : Settings → List Problem
  service_problems s =
      problem_if (one_of s.redis_host local_hosts) local_redis
      ++ (problem_if (not s.redis_ssl) plain_redis
          ++ (problem_if (host_in (minio_host s) local_hosts) local_minio
              ++ (problem_if (not s.minio_secure) plain_minio
                  ++ (problem_if (is_unsafe_executor s) unsafe_executor
                      ++ problem_if (is_plain_executor s) plain_executor))))

  abbrev pub problems : Settings → List Text → List Problem
  problems s origins =
      jwt_problems s
      ++ (secret_problems (required_secrets s)
          ++ (origin_problems origins ++ (url_problems s ++ service_problems s)))

  unfoldable pub validate_production_settings : Settings → Result ConfigError (Unit {0})
  unfolding cors_origins_list is_diverse jwt_minimum
  validate_production_settings s = elim s.environment [
    | development ↦ ok tt
    | test ↦ ok tt
    | production ↦ elim (cors_origins_list s) [
      | none ↦ err bad_origins
      | some origins ↦ unless_problems (problems s origins)
    ]
  ]

  -- The validators in their order; the last three run on settings with their URLs.
  unfoldable pub checked_settings : Settings → Result ConfigError Settings
  unfolding validate_trusted_proxy_ips assemble_postgres_urls apply_public_app_settings
      validate_executor_settings validate_production_settings
  checked_settings s = do
    validate_trusted_proxy_ips s
    let s' = apply_public_app_settings (assemble_postgres_urls s)
    validate_executor_settings s'
    validate_production_settings s'
    ok s'
