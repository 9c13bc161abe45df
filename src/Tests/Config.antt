-- ===== src/Tests/Config.antt =====
-- The theorem on backend/app/core/config.py at concrete inputs.
use root_agent.Common.{
  ◌==◌, if◌then◌else◌, ◌+◌, ◌≡◌, refl, true, false, none, some, [], ◌∷◌, ◌++◌, Text, codes,
  contains,
}
use root_agent.Common.Result.{ok}
use root_agent.Config.{
  production, local, Settings, Platform, is_diverse, jwt_minimum, validate_trusted_proxy_ips,
  assemble_postgres_urls, apply_public_app_settings, validate_executor_settings,
  validate_production_settings, checked_settings, cors_origins_list,
}
use root_agent.Config.Safe.{IsSafe}
use root_agent.Config.Accepted.{checked_settings-IsSafe}

abbrev before_colon : Text → Text
before_colon [] = []
before_colon (c ∷ cs) = if c == 58 then [] else c ∷ before_colon cs

-- URLs of this form only: a name, two slashes, and what may be a host.
abbrev platform : Platform
platform = record {
  lower = λ t. t;
  encode = λ t. t;
  print = λ n. (n + 48) ∷ [];
  scheme = before_colon;
  hostname = λ url. if contains (codes "///") url then none else some (codes "far");
  query = λ url name. if contains (name ++ codes "=require") url then codes "require" ∷ [] else [];
  is_network = λ t. true;
  json_list = λ t. none;
}

abbrev settings : Settings
settings = record {
  environment = production;
  debug = false;
  postgres_user = codes "u";
  postgres_password = codes "pw";
  postgres_host = codes "far";
  postgres_port = 5;
  postgres_db = codes "db?ssl=require";
  postgres_url = none;
  infra_hub_postgres_db = codes "hub";
  infra_hub_postgres_url = some (codes "postgresql://far/hub?sslmode=require");
  redis_host = codes "far";
  redis_password = codes "pw";
  redis_ssl = true;
  minio_endpoint = codes "far:9000";
  minio_access_key = codes "key";
  minio_secret_key = codes "pw";
  minio_secure = true;
  jwt_secret = codes "abcdefghijklmnopqrstuvwxyz012345";
  jwt_algorithm = codes "HS256";
  llm_api_key = codes "key";
  app_public_url = some (codes "https://far/");
  app_public_host = none;
  service_public_host = codes "h";
  cors_origins = codes " https://a , https://b,";
  trusted_proxy_ips = codes "10.0.0.1";
  executor_backend = local;
  allow_unsafe_local_executor = true;
  grpc_executor_target = [];
  grpc_executor_tls = true;
  grpc_executor_client_cert = none;
  grpc_executor_client_key = none;
}

abbrev ready : Settings
ready = apply_public_app_settings platform (assemble_postgres_urls platform settings)

checked_settings-IsSafe_example : IsSafe platform ready
unfolding checked_settings validate_trusted_proxy_ips assemble_postgres_urls
    apply_public_app_settings validate_executor_settings validate_production_settings
    cors_origins_list is_diverse jwt_minimum
checked_settings-IsSafe_example = checked_settings-IsSafe platform settings ready refl refl

listed :
    cors_origins_list platform settings
    ≡ some (codes "https://a" ∷ codes "https://b" ∷ codes "https://far" ∷ [])
unfolding cors_origins_list
listed = refl

-- A URL with no host is accepted where one that is not local is asked for.
without_host :
    validate_production_settings platform
      (record ready { postgres_url = some (codes "postgresql+asyncpg:///db?ssl=require") })
    ≡ ok tt
unfolding validate_production_settings assemble_postgres_urls apply_public_app_settings
    cors_origins_list is_diverse jwt_minimum
without_host = refl
