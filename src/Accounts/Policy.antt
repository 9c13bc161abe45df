-- ===== src/Accounts/Policy.antt =====
-- Who may change which accounts: backend/app/routers/admin.py.
use root_agent.Common.{
  ◌==◌, if◌then◌else◌, Bool-cases, Option-cases, filter, ℕ, ◌≡◌, refl, sym, ap, ◌∙◌, subst, inl,
  inr, Bool, true, false, not, ◌&&◌, Option, none, some, List, [], ◌∷◌, true≢false,
}
use root_agent.Common.Result.{ok, err, ◌>>=◌, ◌>>◌, refuse}
use mathlib.Core.Option.{some-injective}
use root_agent.Accounts.{
  http, HttpException, or_raise, UserRole, infra_admin, admin, user, User, NewUser, Platform,
  Answer, is_infra_admin, is_rootagent_admin, has_admin_access, by_id, write_row, delete_row,
  by_email, create_user, new_account, set_user_role, delete_user, require_admin,
  require_infra_admin, assignable,
}

-- What an administrator may ask for.
pub data Action : Type 0 where
  create : ℕ → NewUser → Action
  assign : ℕ → UserRole → Action
  remove : ℕ → Action

abbrev pub perform : Platform → User → Action → List User → Answer (List User)
perform P actor (create id data') users = create_user P actor id data' users
perform P actor (assign id role) users = set_user_role P actor id role users
perform P actor (remove id) users = delete_user P actor id users

-- The accounts of a kind are what they were, unless the request was refused.
Keeps : (User → Bool) → List User → Answer (List User) → Type 0
Keeps kind users (ok users') = filter kind users' ≡ filter kind users
Keeps kind users (err e) = Unit {0}

Keeps-ok :
    (kind : User → Bool) (users users' : List User) (x : Answer (List User))
    → Keeps kind users x
    → x ≡ ok users'
    → filter kind users' ≡ filter kind users
unfolding Keeps
Keeps-ok kind users users' x keeps is = subst (λ a. Keeps kind users a) is keeps

err-Keeps : (kind : User → Bool) (users : List User) (e : HttpException) → Keeps kind users (err e)
unfolding Keeps
err-Keeps kind users e = tt

ok-Keeps :
    (kind : User → Bool) (users users' : List User)
    → filter kind users' ≡ filter kind users
    → Keeps kind users (ok users')
unfolding Keeps
ok-Keeps kind users users' same = same

-- The first row with the identifier is found, or the row is among the others.
found_here :
    (id : ℕ) (x u : User) (users : List User)
    → (x.id == id) ≡ true
    → by_id id (x ∷ users) ≡ some u
    → x ≡ u
found_here id x u users here found =
    some-injective x u (ap (λ b. if b then some x else by_id id users) (sym here) ∙ found)

found_there :
    (id : ℕ) (x u : User) (users : List User)
    → (x.id == id) ≡ false
    → by_id id (x ∷ users) ≡ some u
    → by_id id users ≡ some u
found_there id x u users there found =
    ap (λ b. if b then some x else by_id id users) (sym there) ∙ found

filter-cons :
    (kind : User → Bool) (x : User) (us vs : List User)
    → filter kind us ≡ filter kind vs
    → filter kind (x ∷ us) ≡ filter kind (x ∷ vs)
filter-cons kind x us vs same = ap (λ l. if kind x then x ∷ l else l) same

-- A row that is not of the kind may go, or change into another one that is not.
delete-kept :
    (kind : User → Bool) (id : ℕ) (users : List User) (u : User)
    → by_id id users ≡ some u
    → kind u ≡ false
    → filter kind (delete_row id users) ≡ filter kind users
delete-kept kind id [] u found off = refl
delete-kept kind id (x ∷ users) u found off = elim (Bool-cases (x.id == id)) [
  | inl here ↦ rw (here, ap kind (found_here id x u users here found) ∙ off) refl
  | inr there ↦ rw there (
      filter-cons kind x _ _
        (delete-kept kind id users u (found_there id x u users there found) off))
]

write-kept :
    (kind : User → Bool) (id : ℕ) (f : User → User) (users : List User) (u : User)
    → by_id id users ≡ some u
    → kind u ≡ false
    → ((x : User) → kind (f x) ≡ false)
    → filter kind (write_row (λ x. x.id == id) f users) ≡ filter kind users
write-kept kind id f [] u found off off' = refl
write-kept kind id f (x ∷ users) u found off off' = elim (Bool-cases (x.id == id)) [
  | inl here ↦ rw (here, ap kind (found_here id x u users here found) ∙ off, off' x) refl
  | inr there ↦ rw there (
      filter-cons kind x _ _
        (write-kept kind id f users u (found_there id x u users there found) off off'))
]

refuse-Keeps :
    (kind : User → Bool) (users : List User) (b : Bool) (e : HttpException)
    (next : Answer (List User))
    → (b ≡ false → Keeps kind users next)
    → Keeps kind users (refuse b e >> next)
unfolding Keeps
refuse-Keeps kind users true e next keeps = tt
refuse-Keeps kind users false e next keeps = keeps refl

found-Keeps :
    (kind : User → Bool) (users : List User) (x : Option User) (e : HttpException)
    (next : User → Answer (List User))
    → ((u : User) → x ≡ some u → Keeps kind users (next u))
    → Keeps kind users (or_raise x e >>= next)
unfolding Keeps
found-Keeps kind users none e next keeps = tt
found-Keeps kind users (some u) e next keeps = keeps u refl

filter-skip :
    (kind : User → Bool) (u : User) (users : List User)
    → kind u ≡ false
    → filter kind (u ∷ users) ≡ filter kind users
filter-skip kind u users off = rw off refl

-- A new account is a user or an administrator.
module _ (P : Platform) (id : ℕ) (d : NewUser) where
  new_plain : (b : Bool) → is_infra_admin (new_account P id d (if b then admin else user)) ≡ false
  new_plain true = refl
  new_plain false = refl

  new_right :
      (b c : Bool)
      → (b && c) ≡ false
      → (is_rootagent_admin (new_account P id d (if b then admin else user)) && c) ≡ false
  new_right true c right = right
  new_right false c right = refl

assigned_plain :
    (P : Platform) (x : User) (role : UserRole)
    → not (assignable P role) ≡ false
    → is_infra_admin (record x { role = role }) ≡ false
assigned_plain P x infra_admin right = absurd (true≢false right)
assigned_plain P x admin right = refl
assigned_plain P x user right = refl

wiped-Keeps :
    (kind : User → Bool) (users : List User) (x : Option HttpException) (next : List User)
    → filter kind next ≡ filter kind users
    → Keeps kind users (elim x [ some e ↦ err e | none ↦ ok next ])
unfolding Keeps
wiped-Keeps kind users none next same = same
wiped-Keeps kind users (some e) next same = tt

module _ (P : Platform) (actor : User) (users : List User) (kind : User → Bool) where
  create-Keeps :
      (id : ℕ) (d : NewUser)
      → ((u : User)
          → is_infra_admin u ≡ false
          → (is_rootagent_admin u && not (is_infra_admin actor)) ≡ false
          → kind u ≡ false)
      → Keeps kind users (create_user P actor id d users)
  unfolding create_user require_admin
  create-Keeps id d low = elim (Bool-cases (has_admin_access actor)) [
    | inr denied ↦ rw (denied, create_user, require_admin) (err-Keeps kind users _)
    | inl allowed ↦ elim (Option-cases (by_email (P.normalized_email d.email) users)) [
      | inr (u, taken) ↦
          rw (allowed, taken, create_user, require_admin)
            (refuse-Keeps kind users (d.wants_admin && not (is_infra_admin actor)) _ _
              (λ right. err-Keeps kind users (http 400 "Email already registered")))
      | inl free ↦
          rw (allowed, free, create_user, require_admin)
            (refuse-Keeps kind users (d.wants_admin && not (is_infra_admin actor)) _ _ (λ right.
              ok-Keeps kind users _ (
                filter-skip kind _ users (
                  low (new_account P id d (if d.wants_admin then admin else user))
                    (new_plain P id d d.wants_admin) (new_right P id d d.wants_admin _ right)))))
    ]
  ]

  assign-Keeps :
      (id : ℕ) (role : UserRole)
      → ((u : User) → is_infra_admin actor ≡ true → is_infra_admin u ≡ false → kind u ≡ false)
      → Keeps kind users (set_user_role P actor id role users)
  unfolding set_user_role require_infra_admin
  assign-Keeps id role low = elim (Bool-cases (is_infra_admin actor)) [
    | inr denied ↦ rw (denied, set_user_role, require_infra_admin) (err-Keeps kind users _)
    | inl allowed ↦
        rw (allowed, set_user_role, require_infra_admin)
          (refuse-Keeps kind users _ _ _ (λ right. found-Keeps kind users _ _ _ (λ u found.
            refuse-Keeps kind users _ _ _ (λ plain. ok-Keeps kind users _ (
              write-kept kind id _ users u found (low u allowed plain)
                (λ x. low (record x { role = role }) allowed (assigned_plain P x role right)))))))
  ]

  remove-Keeps :
      (id : ℕ)
      → ((u : User)
          → is_infra_admin u ≡ false
          → (is_rootagent_admin u && not (is_infra_admin actor)) ≡ false
          → kind u ≡ false)
      → Keeps kind users (delete_user P actor id users)
  unfolding delete_user require_admin
  remove-Keeps id low = elim (Bool-cases (has_admin_access actor)) [
    | inr denied ↦ rw (denied, delete_user, require_admin) (err-Keeps kind users _)
    | inl allowed ↦ elim (Option-cases (by_id id users)) [
      | inl missing ↦
          rw (allowed, missing, delete_user, require_admin) (ok-Keeps kind users users refl)
      | inr (u, found) ↦
          rw (allowed, found, delete_user, require_admin)
            (refuse-Keeps kind users _ _ _ (λ plain. refuse-Keeps kind users _ _ _ (λ right.
              refuse-Keeps kind users _ _ _ (λ other.
                wiped-Keeps kind users (P.wipe u) _
                  (delete-kept kind id users u found (low u plain right))))))
    ]
  ]

-- Whatever an administrator asks for, the accounts of the infra hub's administrators stay what
-- they are: no request makes, changes or deletes one.
pub perform_keeps_infra :
    (P : Platform) (actor : User) (action : Action) (users users' : List User)
    → perform P actor action users ≡ ok users'
    → filter is_infra_admin users' ≡ filter is_infra_admin users
perform_keeps_infra P actor (create id d) users users' =
    Keeps-ok _ _ _ _ (create-Keeps P actor users is_infra_admin id d (λ u plain _. plain))
perform_keeps_infra P actor (assign id role) users users' =
    Keeps-ok _ _ _ _ (assign-Keeps P actor users is_infra_admin id role (λ u _ plain. plain))
perform_keeps_infra P actor (remove id) users users' =
    Keeps-ok _ _ _ _ (remove-Keeps P actor users is_infra_admin id (λ u plain _. plain))

is_lesser :
    (u : User) (role : UserRole)
    → is_infra_admin (record u { role = role }) ≡ false
    → (is_rootagent_admin (record u { role = role }) && true) ≡ false
    → has_admin_access (record u { role = role }) ≡ false
is_lesser u infra_admin plain right = plain
is_lesser u admin plain right = right
is_lesser u user plain right = refl

lesser :
    (actor u : User)
    → is_infra_admin actor ≡ false
    → is_infra_admin u ≡ false
    → (is_rootagent_admin u && not (is_infra_admin actor)) ≡ false
    → has_admin_access u ≡ false
lesser actor u low plain right =
    is_lesser u u.role plain (ap (λ b. is_rootagent_admin u && not b) (sym low) ∙ right)

-- An account that is no administrator of the infra hub cannot change who has administrator
-- access: what it creates and deletes are plain users, and it assigns no role.
pub perform_keeps_admins :
    (P : Platform) (actor : User) (action : Action) (users users' : List User)
    → is_infra_admin actor ≡ false
    → perform P actor action users ≡ ok users'
    → filter has_admin_access users' ≡ filter has_admin_access users
perform_keeps_admins P actor (create id d) users users' low =
    Keeps-ok _ _ _ _ (create-Keeps P actor users has_admin_access id d (λ u. lesser actor u low))
perform_keeps_admins P actor (assign id role) users users' low = Keeps-ok _ _ _ _ (
    assign-Keeps P actor users has_admin_access id role
      (λ u high _. absurd (true≢false (sym high ∙ low))))
perform_keeps_admins P actor (remove id) users users' low =
    Keeps-ok _ _ _ _ (remove-Keeps P actor users has_admin_access id (λ u. lesser actor u low))
