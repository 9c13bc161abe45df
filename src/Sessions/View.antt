-- ===== src/Sessions/View.antt =====
-- The files of chats as a map from names to contents, and what rows and objects show of it.
use root_agent.Common.{
  ◌==◌, if◌then◌else◌, Bool-cases, find?, All, ℕ, ◌≡◌, refl, sym, ap, ◌∙◌, ◌≢◌, inl, inr, Bool,
  true, false, not, ◌&&◌, Option, none, some, List, [], ◌∷◌, Text, text_eq, text_eq_sound,
}
use root_agent.Artifacts.Gateway.{Bytes, ArtifactSource}
use root_agent.Artifacts.Gateway.Reading.{Artifact}
use root_agent.Artifacts.Outputs.{storage_path}
use root_agent.Sessions.{World, Object, Setting, is_named, without_object}
use root_agent.Sessions.Artifacts.{is_taken}
use root_agent.Sessions.Keys.{AreUuids, key_of_artifact}
use root_agent.Sessions.Isolation.{find-filter}

-- The abstract state: what is stored in a chat under a name.
abbrev pub Files : Type 0
Files = ℕ → Text → Option Bytes

abbrev pub is_at : ℕ → Text → ℕ → Text → Bool
is_at chat_id name c f = chat_id == c && text_eq name f

abbrev pub put : ℕ → Text → Bytes → Files → Files
put chat_id name content m = λ c f. if is_at chat_id name c f then some content else m c f

abbrev pub drop : ℕ → Text → Files → Files
drop chat_id name m = λ c f. if is_at chat_id name c f then none else m c f

-- How rows and objects stand for it.
abbrev pub content_of : List Object → Text → Option Bytes
content_of objects key = elim (find? (is_named key) objects) [
  | none ↦ none
  | some o ↦ some o.content
]

abbrev pub file_in : List Artifact → List Object → Files
file_in artifacts objects c f = elim (find? (is_taken c f) artifacts) [
  | none ↦ none
  | some a ↦ content_of objects a.storage_path
]

unfoldable pub files : World → Files
files w = file_in w.artifacts w.objects

pub content_hit :
    (o : Object) (p : Text) (os : List Object)
    → is_named p o ≡ true
    → content_of (o ∷ os) p ≡ some o.content
content_hit o p os on = rw (content_of, on) refl

content_missed :
    (o : Object) (p : Text) (os : List Object)
    → is_named p o ≡ false
    → content_of (o ∷ os) p ≡ content_of os p
content_missed o p os off = rw (content_of, off) refl

pub file_hit :
    (a : Artifact) (artifacts : List Artifact) (os : List Object) (c : ℕ) (f : Text)
    → is_taken c f a ≡ true
    → file_in (a ∷ artifacts) os c f ≡ content_of os a.storage_path
file_hit a artifacts os c f on = rw (file_in, on) refl

pub file_missed :
    (a : Artifact) (artifacts : List Artifact) (os : List Object) (c : ℕ) (f : Text)
    → is_taken c f a ≡ false
    → file_in (a ∷ artifacts) os c f ≡ file_in artifacts os c f
file_missed a artifacts os c f off = rw (file_in, off) refl

pub content_gone : (key : Text) (os : List Object) → content_of (without_object key os) key ≡ none
content_gone key [] = refl
content_gone key (o ∷ os) = elim (Bool-cases (is_named key o)) [
  | inl on ↦
      let step : without_object key (o ∷ os) ≡ without_object key os = rw on refl in
      ap (λ l. content_of l key) step ∙ content_gone key os
  | inr off ↦
      let step : without_object key (o ∷ os) ≡ o ∷ without_object key os = rw off refl in
      ap (λ l. content_of l key) step
      ∙ (content_missed o key (without_object key os) off ∙ content_gone key os)
]

pub content_kept :
    (key p : Text) (os : List Object)
    → p ≢ key
    → content_of (without_object key os) p ≡ content_of os p
content_kept key p os away =
    ap (λ x. elim x as (λ y. Option Bytes) [ none ↦ none | some o ↦ some o.content ])
      (find-filter (is_named p) (λ o. not (is_named key o)) os (λ o is. other o is))
  where
    other : (o : Object) → is_named p o ≡ true → not (is_named key o) ≡ true
    other o is = elim (Bool-cases (is_named key o)) [
      | inr off ↦ ap not off
      | inl on ↦ absurd (away (sym (text_eq_sound o.name p is) ∙ text_eq_sound o.name key on))
    ]

pub content_added :
    (o : Object) (p : Text) (os : List Object)
    → p ≢ o.name
    → content_of (o ∷ os) p ≡ content_of os p
content_added o p os away = elim (Bool-cases (is_named p o)) [
  | inr off ↦ content_missed o p os off
  | inl on ↦ absurd (away (sym (text_eq_sound o.name p on)))
]

-- Objects that differ under no row's path show the same files.
pub same_files :
    (artifacts : List Artifact) (os os' : List Object) (c : ℕ) (f : Text)
    → All
        (λ a. content_of os' (Artifact.storage_path a) ≡ content_of os (Artifact.storage_path a))
        artifacts
    → file_in artifacts os' c f ≡ file_in artifacts os c f
same_files [] os os' c f all = refl
same_files (a ∷ artifacts) os os' c f (h, all) = elim (Bool-cases (is_taken c f a)) [
  | inl on ↦ file_hit a artifacts os' c f on ∙ (h ∙ sym (file_hit a artifacts os c f on))
  | inr off ↦
      file_missed a artifacts os' c f off
      ∙ (same_files artifacts os os' c f all ∙ sym (file_missed a artifacts os c f off))
]

module _ (S : Setting) (uuids : AreUuids S) where
  -- A new identifier's key is no row's path.
  pub paths_apart :
      (id u c : ℕ) (source : ArtifactSource) (artifacts : List Artifact)
      → All
          (λ a.
            Artifact.storage_path a
            ≡ storage_path S.uuid
                (Artifact.user_id a)
                (Artifact.chat_id a)
                (Artifact.id a)
                (Artifact.source a))
          artifacts
      → All (λ a. Artifact.id a ≢ id) artifacts
      → All (λ a. Artifact.storage_path a ≢ storage_path S.uuid u c id source) artifacts
  paths_apart id u c source [] placed away = tt
  paths_apart id u c source (a ∷ artifacts) (at, placed) (other, away) = (
    (λ same.
        other (
          key_of_artifact S a.user_id a.chat_id a.id u c id a.source source uuids (sym at ∙ same))),
    paths_apart id u c source artifacts placed away,
  )
