-- ===== src/Accounts.antt =====
-- The accounts: `User` (backend/app/db/models.py), the guards of backend/app/core/dependencies.py,
-- the handlers of backend/app/routers/admin.py and backend/app/routers/auth.py, and the login of
-- backend/app/services/auth_login.py and backend/app/services/infra_hub_users.py.
pub mod ClientIp
pub mod Policy
pub mod Login
use root_agent.Common.{
  ◌==◌, if◌then◌else◌, find?, ℕ, ◌-◌, ◌/◌, String, Bool, true, false, not, ◌&&◌, Option, none, some,
  List, [], ◌∷◌, str_eq, Text, strip,
}
use root_agent.Common.Result.{Result, ok, err, ◌>>=◌, ◌>>◌, refuse, is_ok}

pub data UserRole : Type 0 where
  infra_admin admin user : UserRole

pub record User : Type 0 where
  pub id : ℕ
  pub email : String
  pub name : Text
  pub hashed_password : String
  pub role : UserRole
  pub infra_hub_user_id : Option ℕ
  pub updated_at : Option ℕ

-- A row of `main_db.users`.
pub record InfraHubUser : Type 0 where
  pub id : ℕ
  pub email : String
  pub name : Text
  pub hashed_password : String
  pub is_active : Bool

pub record HttpException : Type 0 where
  pub status_code : ℕ
  pub detail : String

-- What a request carries: the data of a new account, an administrator's with its role, which the
-- schema limits to ADMIN and USER. The email is as typed: the schemas convert it (`EmailStr`).
pub record NewUser : Type 0 where
  pub email : String
  pub name : Text
  pub password : String
  pub wants_admin : Bool

-- The conversion of emails in the schemas of requests (`EmailStr`, which lower-cases the domain),
-- the password hashing, the token decoding and the parsing of identifiers; the hub's row of an email, if the hub answers and has one; and what wiping an account's files raises.
pub record Platform : Type 0 where
  pub normalized_email : String → String
  pub get_password_hash : String → String
  pub verify_password : String → String → Bool
  pub decode_access_token : String → Option (Option String)
  pub parse_uuid : String → Option ℕ
  pub get_infra_hub_user_by_email : String → Option InfraHubUser
  pub unusable_password_hash : String
  pub wipe : User → Option HttpException

abbrev pub is_infra_admin : User → Bool
is_infra_admin u = elim u.role [ infra_admin ↦ true | admin ↦ false | user ↦ false ]

abbrev pub is_rootagent_admin : User → Bool
is_rootagent_admin u = elim u.role [ infra_admin ↦ false | admin ↦ true | user ↦ false ]

abbrev pub has_admin_access : User → Bool
has_admin_access u = elim u.role [ infra_admin ↦ true | admin ↦ true | user ↦ false ]

abbrev pub http : ℕ → String → HttpException
http status_code detail = record { status_code = status_code; detail = detail }

abbrev pub Answer : Type 0 → Type 0
Answer A = Result HttpException A

abbrev pub by_id : ℕ → List User → Option User
by_id id users = find? (λ u. u.id == id) users

abbrev pub by_email : String → List User → Option User
by_email email users = find? (λ u. str_eq u.email email) users

-- `required`: a row, or the exception.
abbrev pub or_raise {ℓ} : {A : Type ℓ} → Option A → HttpException → Result HttpException A
or_raise none e = err e
or_raise (some a) e = ok a

-- The row of a key is written, or deleted.
abbrev pub write_row : (User → Bool) → (User → User) → List User → List User
write_row key f [] = []
write_row key f (u ∷ us) = if key u then f u ∷ us else u ∷ write_row key f us

abbrev pub delete_row : ℕ → List User → List User
delete_row id [] = []
delete_row id (u ∷ us) = if u.id == id then us else u ∷ delete_row id us

module _ (P : Platform) where
  abbrev credentials_exception : HttpException
  credentials_exception = http 401 "Could not validate credentials"

  unfoldable pub get_current_user : String → List User → Answer User
  get_current_user token users = do
    payload ← or_raise (P.decode_access_token token) credentials_exception
    user_id_str ← or_raise payload credentials_exception
    user_uuid ← or_raise (P.parse_uuid user_id_str) credentials_exception
    or_raise (by_id user_uuid users) credentials_exception

  unfoldable pub require_admin : User → Answer User
  require_admin u = if has_admin_access u then ok u else err (http 403 "Admin privileges required")

  unfoldable pub require_infra_admin : User → Answer User
  require_infra_admin u =
      if is_infra_admin u then ok u else err (http 403 "Infra-hub admin privileges required")

  -- The row of a new local account.
  abbrev pub new_account : ℕ → NewUser → UserRole → User
  new_account new_id data' role = record {
    id = new_id;
    email = P.normalized_email data'.email;
    name = strip data'.name;
    hashed_password = P.get_password_hash data'.password;
    role = role;
    infra_hub_user_id = none;
    updated_at = none;
  }

  -- `POST /admin/users`, by an account that passed `require_admin`. `new_id` is the new row's.
  unfoldable pub create_user : User → ℕ → NewUser → List User → Answer (List User)
  unfolding require_admin
  create_user actor new_id data' users = do
    current_user ← require_admin actor
    refuse (data'.wants_admin && not (is_infra_admin current_user))
        (http 403 "Only infra-hub admins can create administrator accounts")
    elim (by_email (P.normalized_email data'.email) users) [
      | some u ↦ err (http 400 "Email already registered")
      | none ↦ ok (new_account new_id data' (if data'.wants_admin then admin else user) ∷ users)
    ]

  abbrev assignable : UserRole → Bool
  assignable infra_admin = false
  assignable _ = true

  -- `PATCH /admin/users/{user_id}/role`
  unfoldable pub set_user_role : User → ℕ → UserRole → List User → Answer (List User)
  unfolding require_infra_admin
  set_user_role actor user_id role users = do
    current_user ← require_infra_admin actor
    refuse (not (assignable role)) (http 403 "Can only assign USER or ADMIN roles")
    target ← or_raise (by_id user_id users) (http 404 "User not found")
    refuse (is_infra_admin target) (http 403 "Cannot modify infra-hub admin accounts")
    ok (write_row (λ u. u.id == user_id) (λ u. record u { role = role }) users)

  -- `DELETE /admin/users/{user_id}`; an unknown identifier is no error.
  unfoldable pub delete_user : User → ℕ → List User → Answer (List User)
  unfolding require_admin
  delete_user actor user_id users = do
    current_user ← require_admin actor
    elim (by_id user_id users) [
      | none ↦ ok users
      | some target ↦ do
        refuse (is_infra_admin target)
            (http 403 "Cannot delete infra-hub admin accounts from RootAgent")
        refuse (is_rootagent_admin target && not (is_infra_admin current_user))
            (http 403 "Only infra-hub admins can delete administrator accounts")
        refuse (target.id == current_user.id) (http 400 "Cannot delete yourself")
        elim (P.wipe target) [ some e ↦ err e | none ↦ ok (delete_row user_id users) ]
    ]

  -- `POST /auth/register`, with the verdict of the rate limit.
  unfoldable pub register : Bool → ℕ → NewUser → List User → Answer (List User)
  register allowed new_id data' users = do
    refuse (not allowed) (http 429 "Too many requests")
    elim (by_email (P.normalized_email data'.email) users) [
      | some u ↦ err (http 400 "Email already registered")
      | none ↦ ok (new_account new_id data' (user) ∷ users)
    ]

  abbrev pub is_linked : User → Bool
  is_linked u = elim u.infra_hub_user_id [ none ↦ false | some id ↦ true ]

  -- `PATCH /auth/me/profile`
  unfoldable pub update_profile : User → Text → ℕ → List User → Answer (List User)
  update_profile current_user name now users = do
    refuse (is_linked current_user)
        (http 403 "Infra-hub linked accounts must update name in Infra Hub")
    ok (
        write_row (λ u. u.id == current_user.id)
          (λ u. record u { name = strip name; updated_at = some now }) users)

  -- `POST /auth/me/password`
  unfoldable pub change_password : User → String → String → ℕ → List User → Answer (List User)
  change_password current_user current_password new_password now users = do
    refuse (is_linked current_user)
        (http 403 "Infra-hub linked accounts must change password in Infra Hub")
    refuse (not (P.verify_password current_password current_user.hashed_password))
        (http 400 "Current password is incorrect")
    ok (
        write_row (λ u. u.id == current_user.id)
          (λ u. record u {
            hashed_password = P.get_password_hash new_password;
            updated_at = some now;
          })
          users)

  unfoldable pub verify_infra_hub_credentials : String → String → Option InfraHubUser
  verify_infra_hub_credentials email password = elim (P.get_infra_hub_user_by_email email) [
    | none ↦ none
    | some u ↦
        if not u.is_active
        then none
        else if P.verify_password password u.hashed_password
        then some u
        else none
  ]

  -- The local row of a hub account: made, or linked anew. The account, then the table.
  unfoldable pub get_or_create_infra_linked_user : ℕ → InfraHubUser → List User → User × List User
  get_or_create_infra_linked_user new_id h users = elim (by_email h.email users) [
    | none ↦
        let u : User = record {
          id = new_id;
          email = h.email;
          name = h.name;
          hashed_password = P.unusable_password_hash;
          role = infra_admin;
          infra_hub_user_id = some h.id;
          updated_at = none;
        } in
        (u, u ∷ users)
    | some u ↦
        let link : User → User =
          λ x. record x { role = infra_admin; infra_hub_user_id = some h.id; name = h.name } in
        (link u, write_row (λ x. str_eq x.email h.email) link users)
  ]

  unfoldable pub authenticate_user : ℕ → String → String → List User → Option User × List User
  unfolding verify_infra_hub_credentials get_or_create_infra_linked_user
  authenticate_user new_id email password users =
      elim (verify_infra_hub_credentials email password) [
        | some h ↦
            let (u, users') = get_or_create_infra_linked_user new_id h users in (some u, users')
        | none ↦ elim (by_email email users) [
          | none ↦ (none, users)
          | some local ↦
              if is_linked local
              then (none, users)
              else if not (P.verify_password password local.hashed_password)
              then (none, users)
              else (some local, users)
        ]
      ]

  -- `POST /auth/login`, whose form has the email as typed: the account whose token is given out, and the table.
  unfoldable pub login : Bool → ℕ → String → String → List User → Answer (User × List User)
  unfolding authenticate_user
  login allowed new_id email password users = do
    refuse (not allowed) (http 429 "Too many requests")
    let (found, users') = authenticate_user new_id email password users
    elim found [ none ↦ err (http 401 "Incorrect email or password") | some u ↦ ok (u, users') ]
