-- ===== src/Sessions/Single.antt =====
-- Rows and objects when one artifact is created.
use root_agent.Common.{
  ◌==◌, if◌then◌else◌, ==_iff, Bool-cases, any, find?, All, All-filter, ℕ, ◌≡◌, refl, sym, ap, ◌∙◌,
  subst, inl, inr, true, false, not, Option, none, some, List, ◌∷◌, arith, All_mono, and_left, Text,
  text_eq, text_eq_refl,
}
use root_agent.Common.Result.{Result, ok, err}
use root_agent.Run.Model.{Chat}
use root_agent.Artifacts.Gateway.Reading.{Artifact}
use root_agent.Artifacts.Outputs.{storage_path}
use root_agent.Sessions.{
  World, Object, Setting, SessionError, Step, is_named, without_object, session_not_found,
  duplicate_filename,
}
use root_agent.Sessions.Service.{is_session}
use root_agent.Sessions.Artifacts.{
  Stream, get_owned_chat, add_artifact, new_artifact, store_artifact, is_taken,
  create_artifact_from_stream,
}
use root_agent.Sessions.Sound.{IsSound, HasRow, find-All, shrunk, added}

-- An object put and taken away again.
put_and_removed :
    (P : Object → Type 0) (name : Text) (o : Object) (os : List Object)
    → o.name ≡ name
    → All P os
    → All P (without_object name (o ∷ without_object name os))
put_and_removed P name o os is all =
    let same : is_named name o ≡ true = ap (λ n. text_eq n name) is ∙ text_eq_refl name in
    rw same (
      All-filter P (λ x. not (is_named name x)) (without_object name os)
        (All-filter P (λ x. not (is_named name x)) os all))

module _ (S : Setting) where
  more_rows :
      (a : Artifact) (artifacts : List Artifact) (os : List Object)
      → All (λ o. HasRow artifacts o) os
      → All (λ o. HasRow (a ∷ artifacts) o) os
  more_rows a artifacts os all = All_mono os (λ o has. ground (arith, has)) all

  add_artifact-IsSound :
      (a : Artifact) (o : Object) (w : World)
      → ((key : Text) → S.remove_fails key ≡ false)
      → IsSound S.uuid w
      → o.name ≡ a.storage_path
      → a.storage_path ≡ storage_path S.uuid a.user_id a.chat_id a.id a.source
      → All (λ c. Chat.id c ≡ a.chat_id → Chat.user_id c ≡ a.user_id) w.chats
      → any (λ b. b.id == a.id) w.artifacts ≡ false
      → IsSound S.uuid
          (add_artifact S a (record w { objects = o ∷ without_object a.storage_path w.objects })).1
  unfolding add_artifact
  add_artifact-IsSound a o w fine v name at owner fresh =
      let key = a.storage_path in
      let back = put_and_removed (λ x. HasRow w.artifacts x) key o w.objects name v.stored in
      let new : HasRow (a ∷ w.artifacts) o =
        rw (ap (λ n. text_eq key n) name ∙ text_eq_refl key) refl in
      let rest =
        more_rows a w.artifacts (without_object key w.objects)
          (All-filter (λ x. HasRow w.artifacts x) (λ x. not (is_named key x)) w.objects v.stored) in
      let removes = fine key in
      let w₁ : World = record w { objects = o ∷ without_object key w.objects } in
      let gone = without_object key w₁.objects in
      elim (Bool-cases S.commit_fails) [
        | inl lost ↦
            let step : (add_artifact S a w₁).1 ≡ record w { objects = gone } =
              rw (add_artifact, lost, removes) refl in
            subst (λ x. IsSound S.uuid x) (sym step)
              (shrunk S.uuid w (record w { objects = gone })
                (record { users = refl; chats = refl; runs = refl; artifacts = refl }) back v)
        | inr kept ↦ elim (Bool-cases S.refresh_fails) [
          | inl stale ↦
              let step : (add_artifact S a w₁).1
                  ≡ record w { artifacts = a ∷ w.artifacts; objects = gone } =
                rw (add_artifact, kept, stale, removes) refl in
              subst (λ x. IsSound S.uuid x) (sym step)
                (added S a w gone v at owner fresh (more_rows a w.artifacts gone back))
          | inr fresh_row ↦
              let step : (add_artifact S a w₁).1 ≡ record w₁ { artifacts = a ∷ w.artifacts } =
                rw (add_artifact, kept, fresh_row) refl in
              subst (λ x. IsSound S.uuid x) (sym step)
                (added S a w w₁.objects v at owner fresh (new, rest))
        ]
      ]

  store_artifact-IsSound :
      (user_id : ℕ) (chat : Chat) (name : Text) (s : Stream) (w : World)
      → ((key : Text) → S.remove_fails key ≡ false)
      → IsSound S.uuid w
      → All (λ c. Chat.id c ≡ chat.id → Chat.user_id c ≡ user_id) w.chats
      → any (λ b. b.id == S.new_id) w.artifacts ≡ false
      → IsSound S.uuid (store_artifact S user_id chat name s w).1
  store_artifact-IsSound user_id chat name s w fine v owner fresh =
      let key = storage_path S.uuid user_id chat.id S.new_id s.source in
      elim (Bool-cases (S.upload_fails key)) [
        | inl fails ↦
            let step : (store_artifact S user_id chat name s w).1 ≡ w =
              rw (store_artifact, fails) refl in
            subst (λ x. IsSound S.uuid x) (sym step) v
        | inr sent ↦
            let o : Object = record { name = key; content = s.content } in
            let a = new_artifact S user_id chat name key s in
            let step : (store_artifact S user_id chat name s w).1
                ≡ (add_artifact S a (record w { objects = o ∷ without_object key w.objects })).1 =
              rw (store_artifact, sent) refl in
            subst (λ x. IsSound S.uuid x) (sym step)
              (add_artifact-IsSound a o w fine v refl refl owner fresh)
      ]

  pub create-IsSound :
      (user_id session_id : ℕ) (s : Stream) (w : World)
      → ((key : Text) → S.remove_fails key ≡ false)
      → IsSound S.uuid w
      → any (λ b. b.id == S.new_id) w.artifacts ≡ false
      → IsSound S.uuid (create_artifact_from_stream S user_id session_id s w).1
  unfolding create_artifact_from_stream get_owned_chat
  create-IsSound user_id session_id s w fine v fresh =
      found (find? (is_session user_id session_id) w.chats) refl
    where
      found :
          (x : Option Chat)
          → find? (is_session user_id session_id) w.chats ≡ x
          → IsSound S.uuid
              (elim (elim x as (λ y. Result SessionError Chat) [
                | none ↦ err session_not_found
                | some chat ↦ ok chat
              ])
                as (λ y. Step Artifact) [
                  | err e ↦ (err e, w)
                  | ok chat ↦
                      if any (is_taken chat.id (S.clean s.filename S.fallback)) w.artifacts
                      then (err duplicate_filename, w)
                      else store_artifact S user_id chat (S.clean s.filename S.fallback) s w
                ]).1
      found none is = v
      found (some chat) is =
          let name = S.clean s.filename S.fallback in
          let held =
            find-All
              (λ c. All (λ d. Chat.id d ≡ Chat.id c → Chat.user_id d ≡ Chat.user_id c) w.chats)
              (is_session user_id session_id) w.chats chat is v.alike in
          let mine : chat.user_id ≡ user_id =
            (==_iff chat.user_id user_id).0
              (and_left (chat.user_id == user_id) (chat.session_id == session_id) held.1) in
          let owner = All_mono w.chats (λ c same alike. same alike ∙ mine) held.0 in
          elim (Bool-cases (any (is_taken chat.id name) w.artifacts)) [
            | inl taken ↦
                subst
                  (λ b.
                    IsSound S.uuid
                      (if b
                        then (err duplicate_filename, w)
                        else store_artifact S user_id chat name s w).1)
                  (sym taken) v
            | inr free ↦
                subst
                  (λ b.
                    IsSound S.uuid
                      (if b
                        then (err duplicate_filename, w)
                        else store_artifact S user_id chat name s w).1)
                  (sym free) (store_artifact-IsSound user_id chat name s w fine v owner fresh)
          ]
