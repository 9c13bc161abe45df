-- ===== src/Sessions/Sound.antt =====
-- Worlds in which every object has its row, and what keeps them so.
use root_agent.Common.{
  ◌==◌, Bool-cases, filter, any, find?, All, All-filter, ℕ, ◌≡◌, refl, sym, subst, ◌≢◌, inl, inr,
  Bool, true, false, some, List, [], ◌∷◌, arith, All_mono, or_left, or_right, Text, text_eq,
}
use mathlib.Core.Option.{some-injective}
use root_agent.Run.Model.{Chat}
use root_agent.Artifacts.Gateway.Reading.{Artifact}
use root_agent.Artifacts.Outputs.{storage_path}
use root_agent.Sessions.{World, Object, Setting}
use root_agent.Sessions.Deletion.{SameRows}

-- A row says where the object is.
abbrev pub HasRow : List Artifact → Object → Type 0
HasRow artifacts o = any (λ a. text_eq a.storage_path o.name) artifacts ≡ true

pub record IsSound (uuid : ℕ → Text) (w : World) : Type 0 where
  pub placed :
      All (λ a. a.storage_path ≡ storage_path uuid a.user_id a.chat_id a.id a.source) w.artifacts
  pub keyed :
      All (λ a. All (λ b. b.id ≡ a.id → b.storage_path ≡ a.storage_path) w.artifacts) w.artifacts
  pub agree : All (λ a. All (λ c. c.id ≡ a.chat_id → c.user_id ≡ a.user_id) w.chats) w.artifacts
  pub alike : All (λ c. All (λ d. d.id ≡ c.id → d.user_id ≡ c.user_id) w.chats) w.chats
  pub stored : All (λ o. HasRow w.artifacts o) w.objects

pub find-All :
    {A : Type 0} (P : A → Type 0) (p : A → Bool) (xs : List A) (x : A)
    → find? p xs ≡ some x
    → All P xs
    → P x × (p x ≡ true)
find-All P p [] x h all = absurd (cc)
find-All P p (y ∷ xs) x h (py, all) = elim (Bool-cases (p y)) [
  | inl on ↦
      let same : y ≡ x = some-injective y x (rw on at h) in
      (subst P same py, subst (λ z. p z ≡ true) same on)
  | inr off ↦ find-All P p xs x (rw off at h) all
]

-- What holds of all pairs holds of the pairs that filters keep.
pub pairs_kept :
    {A B : Type 0} (P : A → B → Type 0) (q : A → Bool) (r : B → Bool) (xs : List A) (ys : List B)
    → All (λ x. All (P x) ys) xs
    → All (λ x. All (P x) (filter r ys)) (filter q xs)
pairs_kept P q r xs ys all =
    All-filter (λ x. All (P x) (filter r ys)) q xs
      (All_mono xs (λ x each. All-filter (P x) r ys each) all)

-- What passes the test survives a filter.
pub any-filter_kept :
    {A : Type 0} (f q : A → Bool) (xs : List A)
    → any f xs ≡ true
    → All (λ x. f x ≡ true → q x ≡ true) xs
    → any f (filter q xs) ≡ true
any-filter_kept f q [] h all = h
any-filter_kept f q (x ∷ xs) h (keep, all) = elim (Bool-cases (f x)) [
  | inl on ↦ rw (keep on, on) refl
  | inr off ↦
      let rest : any f xs ≡ true = rw off at h in
      elim (Bool-cases (q x)) [
        | inl kept ↦ rw (kept, off) (any-filter_kept f q xs rest all)
        | inr out ↦ rw out (any-filter_kept f q xs rest all)
      ]
]

-- The same rows with fewer objects.
pub shrunk :
    (uuid : ℕ → Text) (w w' : World)
    → SameRows w w'
    → All (λ o. HasRow w.artifacts o) w'.objects
    → IsSound uuid w
    → IsSound uuid w'
shrunk uuid w w' same objects v = record {
  placed =
      subst (λ l. All (λ a. a.storage_path ≡ storage_path uuid a.user_id a.chat_id a.id a.source) l)
        (sym same.artifacts) v.placed;
  keyed =
      subst (λ l. All (λ a. All (λ b. b.id ≡ a.id → b.storage_path ≡ a.storage_path) l) l)
        (sym same.artifacts) v.keyed;
  agree =
      subst (λ l. All (λ a. All (λ c. c.id ≡ a.chat_id → c.user_id ≡ a.user_id) w'.chats) l)
        (sym same.artifacts)
        (subst (λ l. All (λ a. All (λ c. c.id ≡ a.chat_id → c.user_id ≡ a.user_id) l) w.artifacts)
          (sym same.chats) v.agree);
  alike =
      subst (λ l. All (λ c. All (λ d. d.id ≡ c.id → d.user_id ≡ c.user_id) l) l) (sym same.chats)
        v.alike;
  stored = subst (λ l. All (λ o. HasRow l o) w'.objects) (sym same.artifacts) objects;
}

pub unheld :
    (id : ℕ) (artifacts : List Artifact)
    → any (λ a. a.id == id) artifacts ≡ false
    → All (λ a. a.id ≢ id) artifacts
unheld id [] h = tt
unheld id (a ∷ artifacts) h = (
  (λ same. absurd (ground (arith, same, or_left (a.id == id) (any (λ b. b.id == id) artifacts) h))),
  unheld id artifacts (or_right (a.id == id) (any (λ b. b.id == id) artifacts) h),
)

module _ (S : Setting) where
  -- A new row on top of the others.
  pub added :
      (a : Artifact) (w : World) (objects : List Object)
      → IsSound S.uuid w
      → a.storage_path ≡ storage_path S.uuid a.user_id a.chat_id a.id a.source
      → All (λ c. Chat.id c ≡ a.chat_id → Chat.user_id c ≡ a.user_id) w.chats
      → any (λ b. b.id == a.id) w.artifacts ≡ false
      → All (λ o. HasRow (a ∷ w.artifacts) o) objects
      → IsSound S.uuid (record w { artifacts = a ∷ w.artifacts; objects = objects })
  added a w objects v at owner fresh stored =
      let others = unheld a.id w.artifacts fresh in
      record {
        placed = (at, v.placed);
        keyed = (
          ((λ same. refl), All_mono w.artifacts (λ b other same. absurd (other same)) others),
          both w.artifacts others v.keyed,
        );
        agree = (owner, v.agree);
        alike = v.alike;
        stored = stored;
      }
    where
      both :
          (bs : List Artifact)
          → All (λ b. b.id ≢ a.id) bs
          → All (λ b. All (λ c. c.id ≡ b.id → c.storage_path ≡ b.storage_path) w.artifacts) bs
          → All (λ b. All (λ c. c.id ≡ b.id → c.storage_path ≡ b.storage_path) (a ∷ w.artifacts)) bs
      both [] away held = tt
      both (b ∷ bs) (other, away) (h, held) =
          (((λ same. absurd (other (sym same))), h), both bs away held)
