-- ===== src/Tests/Accounts.antt =====
-- The theorems on the accounts at concrete inputs.
use root_agent.Common.{
  if◌then◌else◌, filter, ℕ, String, ◌≡◌, refl, true, false, none, some, List, [], ◌∷◌, str_eq, Text,
  codes,
}
use root_agent.Accounts.{
  UserRole, infra_admin, admin, user, User, InfraHubUser, Platform, by_email, is_linked,
  has_admin_access, is_infra_admin, authenticate_user, set_user_role, delete_user, require_admin,
  require_infra_admin, verify_infra_hub_credentials,
}
use root_agent.Accounts.Policy.{Action, perform_keeps_admins, perform_keeps_infra}
use root_agent.Accounts.{NewUser, new_account, register}
use root_agent.Accounts.ClientIp.{Addresses, enforce_rate_limit, enforce_rate_limit_unforged}
use root_agent.Redis.RateLimit.{Bucket}
use root_agent.Redis.RateLimit.Memory.{sorted_lists}
use root_agent.Accounts.Login.{LogsIn, authenticate-register, authenticate_local}

abbrev account : ℕ → String → UserRole → User
account id email role = record {
  id = id;
  email = email;
  name = codes "A";
  hashed_password = "pw";
  role = role;
  infra_hub_user_id = none;
  updated_at = none;
}

abbrev hub_row : InfraHubUser
hub_row = record {
  id = 40;
  email = "hub";
  name = codes "H";
  hashed_password = "pw";
  is_active = true;
}

-- Passwords are their own hashes, one email has a domain in capitals, and the hub knows one account.
abbrev platform : Platform
platform = record {
  normalized_email = λ e. if str_eq e "bob@EXAMPLE.com" then "bob@example.com" else e;
  get_password_hash = λ s. s;
  verify_password = str_eq;
  decode_access_token = λ t. some (some t);
  parse_uuid = λ t. some 1;
  get_infra_hub_user_by_email = λ e. if str_eq e "hub" then some hub_row else none;
  unusable_password_hash = "unusable";
  wipe = λ u. none;
}

abbrev everyone : List User
everyone = account 1 "root" infra_admin ∷ account 2 "boss" admin ∷ account 3 "ann" user ∷ []

abbrev without_ann : List User
without_ann = account 1 "root" infra_admin ∷ account 2 "boss" admin ∷ []

perform_keeps_admins_example :
    filter has_admin_access without_ann ≡ filter has_admin_access everyone
unfolding delete_user require_admin
perform_keeps_admins_example =
    perform_keeps_admins platform (account 2 "boss" admin) (Action.remove 3) everyone without_ann
      refl refl

abbrev promoted : List User
promoted = account 1 "root" infra_admin ∷ account 2 "boss" admin ∷ account 3 "ann" admin ∷ []

perform_keeps_infra_example : filter is_infra_admin promoted ≡ filter is_infra_admin everyone
unfolding set_user_role require_infra_admin
perform_keeps_infra_example =
    perform_keeps_infra platform (account 1 "root" infra_admin) (Action.assign 3 admin) everyone
      promoted refl

authenticate_local_example :
    (by_email "ann" everyone ≡ some (account 3 "ann" user))
    × (is_linked platform (account 3 "ann" user) ≡ false)
    × (platform.verify_password "pw" (account 3 "ann" user).hashed_password ≡ true)
    × ((authenticate_user platform 9 "ann" "pw" everyone).1 ≡ everyone)
unfolding authenticate_user verify_infra_hub_credentials
authenticate_local_example =
    authenticate_local platform 9 "ann" "pw" everyone (account 3 "ann" user) refl refl

abbrev bob : NewUser
bob = record {
  email = "bob@EXAMPLE.com";
  name = codes " Bob ";
  password = "pw4";
  wants_admin = false;
}

authenticate-register_example :
    LogsIn platform true 4 9 bob everyone (new_account platform 4 bob user ∷ everyone)
unfolding register verify_infra_hub_credentials
authenticate-register_example =
    authenticate-register platform true 4 9 bob everyone
      (new_account platform 4 bob user ∷ everyone) refl refl refl

-- Who registered with capitals in the domain cannot log in with the email as typed.
typed_email_refused :
    (authenticate_user platform 9 "bob@EXAMPLE.com" "pw4"
      (new_account platform 4 bob user ∷ everyone)).0
    ≡ none
unfolding authenticate_user verify_infra_hub_credentials
typed_email_refused = refl

-- Every text is an address, and no address is a proxy's.
abbrev addresses : Addresses
addresses = record {
  Address = Text;
  ip_address = λ t. some t;
  str = λ t. t;
  is_trusted_proxy = λ a. false;
}

abbrev no_calls : Text → Bucket sorted_lists
no_calls ip = record { set = []; deadline = 0 }

enforce_rate_limit_unforged_example :
    enforce_rate_limit addresses sorted_lists no_calls
      (codes "10.0.0.1")
      (codes "1.1.1.1")
      5
      3
      60
      "m"
    ≡ enforce_rate_limit addresses sorted_lists no_calls (codes "10.0.0.1") [] 5 3 60 "m"
enforce_rate_limit_unforged_example =
    enforce_rate_limit_unforged addresses sorted_lists no_calls (codes "10.0.0.1") (codes "1.1.1.1")
      [] 5 3 60 "m" (λ a at. refl)
