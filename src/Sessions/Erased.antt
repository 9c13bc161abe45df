-- ===== src/Sessions/Erased.antt =====
-- Rows and objects when one artifact is deleted.
use root_agent.Common.{
  ◌==◌, if◌then◌else◌, ==_iff, Bool-cases, filter, find?, All, All-filter, ℕ, ◌≡◌, refl, sym, ap,
  ◌∙◌, subst, inl, inr, Bool, true, false, not, Option, none, some, arith, All_mono, text_eq,
  text_eq_refl, text_eq_sound,
}
use root_agent.Common.Result.{after, ok}
use root_agent.Artifacts.Gateway.Reading.{Artifact}
use root_agent.Sessions.{delete_file, World, Object, Setting, Step, is_named, without_object}
use root_agent.Sessions.Service.{commit}
use root_agent.Sessions.Artifacts.{
  user_can_access_artifact, is_reached, get_artifact_for_user, delete_artifact,
}
use root_agent.Sessions.Prefix.{All-kept, All_both}
use root_agent.Sessions.Sound.{any-filter_kept, pairs_kept, IsSound, HasRow, find-All, shrunk}

module _ (S : Setting) where
  -- Rows without one identifier, objects without its key.
  dropped :
      (a : Artifact) (w : World)
      → IsSound S.uuid w
      → All (λ b. Artifact.id b ≡ a.id → Artifact.storage_path b ≡ a.storage_path) w.artifacts
      → IsSound S.uuid (record w {
        artifacts = filter (λ b. not (b.id == a.id)) w.artifacts;
        objects = without_object a.storage_path w.objects;
      })
  dropped a w v named =
      let q = λ (b : Artifact). not (b.id == a.id) in
      record {
        placed = All-filter _ q w.artifacts v.placed;
        keyed =
            pairs_kept
              (λ b c.
                Artifact.id c ≡ Artifact.id b → Artifact.storage_path c ≡ Artifact.storage_path b)
              q q w.artifacts w.artifacts v.keyed;
        agree = All-filter _ q w.artifacts v.agree;
        alike = v.alike;
        stored =
            All_both (without_object a.storage_path w.objects) (λ o has away. kept o has away)
              (All-filter (λ o. HasRow w.artifacts o) (λ o. not (is_named a.storage_path o))
                w.objects v.stored)
              (All-kept (λ o. not (is_named a.storage_path o)) w.objects);
      }
    where
      other :
          (o : Object) (b : Artifact)
          → not (is_named a.storage_path o) ≡ true
          → (b.id ≡ a.id → b.storage_path ≡ a.storage_path)
          → text_eq b.storage_path o.name ≡ true
          → not (b.id == a.id) ≡ true
      other o b away same here = elim (Bool-cases (b.id == a.id)) [
        | inr no_match ↦ ap not no_match
        | inl match ↦
            let path = same ((==_iff b.id a.id).0 match) in
            let name = text_eq_sound b.storage_path o.name here in
            let is : is_named a.storage_path o ≡ true =
              ap (λ n. text_eq n a.storage_path) (sym name ∙ path) ∙ text_eq_refl a.storage_path in
            absurd (ground (arith, is, away))
      ]

      kept :
          (o : Object)
          → HasRow w.artifacts o
          → not (is_named a.storage_path o) ≡ true
          → HasRow (filter (λ b. not (b.id == a.id)) w.artifacts) o
      kept o has away =
          any-filter_kept (λ b. text_eq b.storage_path o.name) (λ b. not (b.id == a.id)) w.artifacts
            has (All_mono w.artifacts (λ b same here. other o b away same here) named)

  erase : Artifact → World → Step (Unit {0})
  erase a w = after (delete_file S a.storage_path w) (λ _ w₁.
      commit S (record w₁ { artifacts = filter (λ b. not (b.id == a.id)) w₁.artifacts }) w₁)

  erase-IsSound :
      (a : Artifact) (w : World)
      → IsSound S.uuid w
      → All (λ b. Artifact.id b ≡ a.id → Artifact.storage_path b ≡ a.storage_path) w.artifacts
      → IsSound S.uuid (erase a w).1
  unfolding erase
  erase-IsSound a w v named =
      let rows = filter (λ (b : Artifact). not (b.id == a.id)) w.artifacts in
      let objects = without_object a.storage_path w.objects in
      elim (Bool-cases (S.remove_fails a.storage_path)) [
        | inl fails ↦
            let step : (erase a w).1 ≡ w = rw (erase, fails) refl in
            subst (λ x. IsSound S.uuid x) (sym step) v
        | inr removed ↦ elim (Bool-cases S.commit_fails) [
          | inl lost ↦
              let step : (erase a w).1 ≡ record w { objects = objects } =
                rw (erase, removed, lost) refl in
              subst (λ x. IsSound S.uuid x) (sym step)
                (shrunk S.uuid w (record w { objects = objects })
                  (record { users = refl; chats = refl; runs = refl; artifacts = refl })
                  (All-filter (λ o. HasRow w.artifacts o) (λ o. not (is_named a.storage_path o))
                    w.objects v.stored)
                  v)
          | inr done ↦
              let step : (erase a w).1 ≡ record w { artifacts = rows; objects = objects } =
                rw (erase, removed, done) refl in
              subst (λ x. IsSound S.uuid x) (sym step) (dropped a w v named)
        ]
      ]

  pub delete-IsSound :
      (user_id session_id artifact_id : ℕ) (w : World)
      → IsSound S.uuid w
      → IsSound S.uuid (delete_artifact S user_id session_id artifact_id w).1
  unfolding delete_artifact get_artifact_for_user erase
  delete-IsSound user_id session_id artifact_id w v =
      reached (find? (is_reached user_id session_id artifact_id w.chats) w.artifacts) refl
    where
      allowed :
          (a : Artifact) (b : Bool)
          → IsSound S.uuid (erase a w).1
          → IsSound S.uuid
              (elim (if b then some a else none) as (λ y. Step (Unit {0})) [
                | none ↦ (ok tt, w)
                | some c ↦ erase c w
              ]).1
      allowed a true h = h
      allowed a false h = v

      reached :
          (x : Option Artifact)
          → find? (is_reached user_id session_id artifact_id w.chats) w.artifacts ≡ x
          → IsSound S.uuid
              (elim (elim x as (λ y. Option Artifact) [
                | none ↦ none
                | some a ↦ if user_can_access_artifact user_id a then some a else none
              ])
                as (λ y. Step (Unit {0})) [ none ↦ (ok tt, w) | some a ↦ erase a w ]).1
      reached none is = v
      reached (some a) is = allowed a (user_can_access_artifact user_id a) (
          erase-IsSound a w v
            (find-All
              (λ b.
                All
                  (λ c.
                    Artifact.id c ≡ Artifact.id b
                    → Artifact.storage_path c ≡ Artifact.storage_path b)
                  w.artifacts)
              (is_reached user_id session_id artifact_id w.chats) w.artifacts a is v.keyed).0)
