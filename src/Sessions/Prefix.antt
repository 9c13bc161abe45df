-- ===== src/Sessions/Prefix.antt =====
-- Deleting the objects under a prefix, and which keys are under the prefix of a chat or a user.
use root_agent.Common.{
  filter-filter, Bool-cases, filter, All, All-filter, ◌≡◌, refl, sym, ap, ◌∙◌, subst, inl, inr,
  Bool, true, false, not, List, [], ◌∷◌, map, arith, All_mono, Text, text_eq, starts_with,
  text_eq_refl, text_eq_sound,
}
use root_agent.Common.Result.{Result, ok}
use root_agent.Sessions.{
  normalized, delete_prefix, under, World, Setting, Object, storage_failed, is_named, delete_names,
  without_object,
}
use root_agent.Sessions.Service.{is_in}

pub All-kept : {A : Type 0} (p : A → Bool) (xs : List A) → All (λ x. p x ≡ true) (filter p xs)
All-kept p [] = tt
All-kept p (x ∷ xs) = elim (Bool-cases (p x)) [
  | inl on ↦ rw on (on, All-kept p xs)
  | inr off ↦ rw off (All-kept p xs)
]

pub All_both :
    {A : Type 0} {P Q R : A → Type 0} (xs : List A)
    → ((x : A) → P x → Q x → R x)
    → All P xs
    → All Q xs
    → All R xs
All_both [] f p q = tt
All_both (x ∷ xs) f p q = (f x p.0 q.0, All_both xs f p.1 q.1)

module _ (S : Setting) where
  pub delete_names_frame :
      (names : List Text) (w : World)
      → (delete_names S names w).1 ≡ record w { objects = (delete_names S names w).1.objects }
  delete_names_frame [] w = refl
  delete_names_frame (name ∷ names) w = elim (Bool-cases (S.remove_fails name)) [
    | inl fails ↦ rw (delete_names, fails) refl
    | inr fine ↦
        rw (delete_names, fine)
          (delete_names_frame names (record w { objects = without_object name w.objects }))
  ]

  All-delete_names :
      (P : Object → Type 0) (names : List Text) (w : World)
      → All P w.objects
      → All P (delete_names S names w).1.objects
  All-delete_names P [] w h = h
  All-delete_names P (name ∷ names) w h = elim (Bool-cases (S.remove_fails name)) [
    | inl fails ↦ rw (delete_names, fails) h
    | inr fine ↦
        rw (delete_names, fine)
          (All-delete_names P names (record w { objects = without_object name w.objects })
            (All-filter P (λ o. not (is_named name o)) w.objects h))
  ]

  -- Objects that none of the names is of stay.
  filter-delete_names :
      (p : Object → Bool) (names : List Text) (w : World)
      → All (λ n. (o : Object) → p o ≡ true → not (is_named n o) ≡ true) names
      → filter p (delete_names S names w).1.objects ≡ filter p w.objects
  filter-delete_names p [] w h = refl
  filter-delete_names p (name ∷ names) w (h, hs) = elim (Bool-cases (S.remove_fails name)) [
    | inl fails ↦ rw (delete_names, fails) refl
    | inr fine ↦
        rw (delete_names, fine)
          (filter-delete_names p names (record w { objects = without_object name w.objects }) hs
            ∙ filter-filter p (λ o. not (is_named name o)) w.objects h)
  ]

  delete_names_gone :
      (names : List Text) (w : World)
      → (delete_names S names w).0 ≡ ok tt
      → All (λ o. is_in (Object.name o) names ≡ false) (delete_names S names w).1.objects
  delete_names_gone [] w h = nothing w.objects
    where
      nothing : (os : List Object) → All (λ o. is_in (Object.name o) [] ≡ false) os
      nothing [] = tt
      nothing (o ∷ os) = (refl, nothing os)
  delete_names_gone (name ∷ names) w h = elim (Bool-cases (S.remove_fails name)) [
    | inl fails ↦
        let raised : Result.err storage_failed ≡ ok tt = rw (delete_names, fails) at h in
        absurd (cc)
    | inr fine ↦
        let w₁ : World = record w { objects = without_object name w.objects } in
        let step : delete_names S (name ∷ names) w ≡ delete_names S names w₁ =
          rw (delete_names, fine) refl in
        let done : (delete_names S names w₁).0 ≡ ok tt = ap (λ r. r.0) (sym step) ∙ h in
        let here =
          All-delete_names (λ o. not (is_named name o) ≡ true) names w₁
            (All-kept (λ o. not (is_named name o)) w.objects) in
        subst (λ r. All (λ o. is_in (Object.name o) (name ∷ names) ≡ false) r.1.objects) (sym step)
          (All_both (delete_names S names w₁).1.objects (λ o away out. ground (arith, away, out))
            here (delete_names_gone names w₁ done))
  ]

  listed :
      (path : Text) (os : List Object)
      → All
          (λ o.
            under S path o ≡ true
            → is_in (Object.name o) (map Object.name (filter (under S path) os)) ≡ true)
          os
  listed path [] = tt
  listed path (o ∷ os) = elim (Bool-cases (under S path o)) [
    | inr off ↦
        let step : filter (under S path) (o ∷ os) ≡ filter (under S path) os = rw off refl in
        subst (λ l. Listed l (o ∷ os)) (sym step) ((λ on. absurd (cc)), listed path os)
    | inl on ↦
        let step : filter (under S path) (o ∷ os) ≡ o ∷ filter (under S path) os = rw on refl in
        subst (λ l. Listed l (o ∷ os)) (sym step)
          (
            (λ again. rw (text_eq_refl o.name) refl),
            All_mono os (λ x seen into. ground (arith, seen into)) (listed path os),
          )
  ]
    where
      Listed : List Object → List Object → Type 0
      Listed l xs =
          All (λ x. under S path x ≡ true → is_in (Object.name x) (map Object.name l) ≡ true) xs

  outside_named :
      (path : Text) (os : List Object)
      → All
          (λ n. (o : Object) → not (under S path o) ≡ true → not (is_named n o) ≡ true)
          (map Object.name (filter (under S path) os))
  outside_named path [] = tt
  outside_named path (x ∷ os) = elim (Bool-cases (under S path x)) [
    | inr off ↦ rw off (outside_named path os)
    | inl on ↦ rw on ((λ o out. apart on o out (text_eq o.name x.name) refl), outside_named path os)
  ]
    where
      apart :
          under S path x ≡ true
          → (o : Object) → not (under S path o) ≡ true
          → (same : Bool) → text_eq o.name x.name ≡ same
          → not same ≡ true
      apart on o out false is = refl
      apart on o out true is =
          let same : o.name ≡ x.name = text_eq_sound o.name x.name is in
          let into : under S path o ≡ true = ap (λ n. starts_with n path) same ∙ on in
          ground (arith, into, out)

  pub delete_prefix_frame :
      (prefix : Text) (w : World)
      → (delete_prefix S prefix w).1 ≡ record w { objects = (delete_prefix S prefix w).1.objects }
  unfolding delete_prefix
  delete_prefix_frame prefix w = elim (Bool-cases (S.list_fails (normalized S prefix))) [
    | inl fails ↦ rw fails refl
    | inr fine ↦
        rw fine (
          delete_names_frame (map Object.name (filter (under S (normalized S prefix)) w.objects)) w)
  ]

  -- Deleting a prefix leaves what is outside it, whether it fails or not,
  pub delete_prefix_outside :
      (prefix : Text) (w : World)
      → filter (λ o. not (under S (normalized S prefix) o)) (delete_prefix S prefix w).1.objects
        ≡ filter (λ o. not (under S (normalized S prefix) o)) w.objects
  unfolding delete_prefix
  delete_prefix_outside prefix w = elim (Bool-cases (S.list_fails (normalized S prefix))) [
    | inl fails ↦ rw fails refl
    | inr fine ↦ rw fine (
        filter-delete_names (λ o. not (under S (normalized S prefix) o))
          (map Object.name (filter (under S (normalized S prefix)) w.objects)) w
          (outside_named (normalized S prefix) w.objects))
  ]

  -- adds nothing,
  pub All-delete_prefix :
      (P : Object → Type 0) (prefix : Text) (w : World)
      → All P w.objects
      → All P (delete_prefix S prefix w).1.objects
  unfolding delete_prefix
  All-delete_prefix P prefix w h = elim (Bool-cases (S.list_fails (normalized S prefix))) [
    | inl fails ↦ rw fails h
    | inr fine ↦ rw fine (
        All-delete_names P (map Object.name (filter (under S (normalized S prefix)) w.objects)) w h)
  ]

  -- and leaves nothing inside if it does not fail.
  pub delete_prefix_gone :
      (prefix : Text) (w : World)
      → (delete_prefix S prefix w).0 ≡ ok tt
      → All (λ o. under S (normalized S prefix) o ≡ false) (delete_prefix S prefix w).1.objects
  unfolding delete_prefix
  delete_prefix_gone prefix w h = elim (Bool-cases (S.list_fails (normalized S prefix))) [
    | inl fails ↦
        let raised : Result.err storage_failed ≡ ok tt = rw (delete_prefix, fails) at h in
        absurd (cc)
    | inr fine ↦
        let path = normalized S prefix in
        let names = map Object.name (filter (under S path) w.objects) in
        let done : (delete_names S names w).0 ≡ ok tt = rw (delete_prefix, fine) at h in
        rw fine (
          All_both (delete_names S names w).1.objects (λ o into out. ground (arith, into, out))
            (All-delete_names (λ o. under S path o ≡ true → is_in (Object.name o) names ≡ true)
              names w (listed path w.objects))
            (delete_names_gone names w done))
  ]
