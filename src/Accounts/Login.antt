-- ===== src/Accounts/Login.antt =====
-- Who may log in: backend/app/services/auth_login.py, and the registration before it.
use root_agent.Common.{
  ℕ, Bool, true, Option-cases, Bool-cases, str_eq_refl, String, ◌≡◌, refl, sym, ap, ◌∙◌, subst, inl,
  inr, false, Option, none, some, List, [], ◌∷◌, str_eq,
}
use mathlib.Core.Option
use mathlib.Core.Option.{none-ne-some, some-injective}
use root_agent.Common.Result.{ok, err}
use root_agent.Accounts.{
  NewUser, Answer, user, new_account, register, UserRole, infra_admin, User, InfraHubUser,
  write_row, Platform, by_email, is_linked, authenticate_user, verify_infra_hub_credentials,
  get_or_create_infra_linked_user,
}

module _ (P : Platform) (new_id : ℕ) (email password : String) (users : List User) where
  -- When the hub does not vouch for the credentials, who logs in is the account of that email, it
  -- is not linked to the hub, its password is the one given, and no account changes.
  pub authenticate_local :
      (u : User)
      → verify_infra_hub_credentials P email password ≡ none
      → (authenticate_user P new_id email password users).0 ≡ some u
      → (by_email email users ≡ some u)
        × (is_linked P u ≡ false)
        × (P.verify_password password u.hashed_password ≡ true)
        × ((authenticate_user P new_id email password users).1 ≡ users)
  unfolding authenticate_user
  authenticate_local u outside logged = elim (Option-cases (by_email email users)) [
    | inl missing ↦ absurd (none-ne-some u (rw (authenticate_user, outside, missing) at logged))
    | inr (local, found) ↦ elim (Bool-cases (is_linked P local)) [
      | inl linked ↦
          absurd (none-ne-some u (rw (authenticate_user, outside, found, linked) at logged))
      | inr free ↦ elim (Bool-cases (P.verify_password password local.hashed_password)) [
        | inr wrong ↦
            absurd (none-ne-some u (rw (authenticate_user, outside, found, free, wrong) at logged))
        | inl right ↦
            let same : local ≡ u =
              some-injective local u
                (rw (authenticate_user, outside, found, free, right) at logged) in
            (
              found ∙ ap some same,
              ap (is_linked P) (sym same) ∙ free,
              ap (λ x. P.verify_password password x.hashed_password) (sym same) ∙ right,
              rw (authenticate_user, outside, found, free, right) refl,
            )
      ]
    ]
  ]

-- A row that is written keeps being the one of its email.
by_email-write_row :
    (email : String) (f : User → User) (users : List User) (u : User)
    → ((x : User) → (f x).email ≡ x.email)
    → by_email email users ≡ some u
    → by_email email (write_row (λ x. str_eq x.email email) f users) ≡ some (f u)
by_email-write_row email f [] u keeps found = absurd (none-ne-some u found)
by_email-write_row email f (x ∷ users) u keeps found = elim (Bool-cases (str_eq x.email email)) [
  | inl here ↦
      let same : x ≡ u = some-injective x u (rw here at found) in
      rw (here, ap (λ e. str_eq e email) (keeps x) ∙ here) (ap (λ y. some (f y)) same)
  | inr there ↦ rw (there, there) (by_email-write_row email f users u keeps (rw there at found))
]

-- Whether an answer is an administrator linked to the hub's account, and the table's own row.
abbrev pub IsHubRow : InfraHubUser → Option User × List User → Type 0
IsHubRow h (found, users) =
    (found ≡ by_email h.email users)
    × (Option.map {B = UserRole × Option ℕ} (λ u. (u.role, u.infra_hub_user_id)) found
        ≡ some (infra_admin, some h.id))

module _ (P : Platform) (new_id : ℕ) (h : InfraHubUser) (users : List User) where
  abbrev linked : Option User × List User
  linked = let (u, users') = get_or_create_infra_linked_user P new_id h users in (some u, users')

  linked-IsHubRow : IsHubRow h linked
  unfolding get_or_create_infra_linked_user
  linked-IsHubRow = elim (Option-cases (by_email h.email users)) [
    | inl missing ↦ (
      rw (get_or_create_infra_linked_user, missing, str_eq_refl h.email) refl,
      rw (get_or_create_infra_linked_user, missing) refl,
    )
    | inr (u, found) ↦ (
      rw (get_or_create_infra_linked_user, found)
          (sym (by_email-write_row h.email _ users u (λ x. refl) found)),
      rw (get_or_create_infra_linked_user, found) refl,
    )
  ]

-- When the hub vouches for the credentials, the account that logs in is the one that the table
-- then has for the hub's email, and it is an administrator linked to the hub's account.
pub authenticate_hub :
    (P : Platform) (new_id : ℕ) (email password : String) (users : List User) (h : InfraHubUser)
    → verify_infra_hub_credentials P email password ≡ some h
    → IsHubRow h (authenticate_user P new_id email password users)
unfolding authenticate_user
authenticate_hub P new_id email password users h vouched =
    subst (IsHubRow h) (sym (rw (authenticate_user, vouched) refl))
      (linked-IsHubRow P new_id h users)

-- What holds of the table after a request that was not refused.
After : (List User → Type 0) → Answer (List User) → Type 0
After Q (ok users) = Q users
After Q (err e) = Unit {0}

module _ (P : Platform) (allowed : Bool) (new_id other_id : ℕ) (d : NewUser)
    (users : List User) where
  abbrev pub LogsIn : List User → Type 0
  LogsIn users' =
      authenticate_user P other_id (P.normalized_email d.email) d.password users'
      ≡ (some (new_account P new_id d user), users')

  register-After :
      verify_infra_hub_credentials P (P.normalized_email d.email) d.password ≡ none
      → P.verify_password d.password (P.get_password_hash d.password) ≡ true
      → After LogsIn (register P allowed new_id d users)
  unfolding After register authenticate_user
  register-After outside checks = elim (Bool-cases allowed) [
    | inr limited ↦ rw (limited, register) tt
    | inl let_in ↦ elim (Option-cases (by_email (P.normalized_email d.email) users)) [
      | inr (u, taken) ↦ rw (let_in, taken, register) tt
      | inl free ↦
          rw (let_in, free, register)
            (rw (authenticate_user, outside, str_eq_refl (P.normalized_email d.email), checks) refl)
    ]
  ]

  -- After a registration that was not refused, the new account logs in with its password, as a
  -- plain user, under the email that the registration stored, which is the typed one converted by
  -- `EmailStr`, if the hub does not know these credentials and the hashing accepts what it hashed.
  pub authenticate-register :
      (users' : List User)
      → register P allowed new_id d users ≡ ok users'
      → verify_infra_hub_credentials P (P.normalized_email d.email) d.password ≡ none
      → P.verify_password d.password (P.get_password_hash d.password) ≡ true
      → LogsIn users'
  unfolding After
  authenticate-register users' registered outside checks =
      subst (After LogsIn) registered (register-After outside checks)
