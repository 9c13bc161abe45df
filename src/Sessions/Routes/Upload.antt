-- ===== src/Sessions/Routes/Upload.antt =====
-- What is stored of an upload.
use root_agent.Common.{
  ◌==◌, if◌then◌else◌, ==_refl, Bool-cases, any, find?, ℕ, ◌≡◌, refl, sym, ap, ◌∙◌, subst, inl, inr,
  Bool, true, ◌&&◌, Option, none, some, List, [], ◌∷◌, arith, and_left, and_right, true≢false, Text,
  text_eq_refl,
}
use root_agent.Common.Result.{Result, ok, err, is_ok}
use mathlib.Core.Option.{some-injective}
use root_agent.Run.Model.{Chat}
use root_agent.Artifacts.Gateway.Reading.{Artifact}
use root_agent.Artifacts.Outputs.{storage_path}
use root_agent.Sessions.{
  World, Object, Setting, SessionError, Step, session_not_found, duplicate_filename, storage_failed,
  commit_failed, refresh_failed, is_named, without_object,
}
use root_agent.Sessions.Service.{is_session}
use root_agent.Sessions.Artifacts.{
  Stream, create_artifact_from_stream, get_owned_chat, add_artifact, new_artifact, store_artifact,
  is_taken,
}

-- What a creation that succeeds has stored.
unfoldable pub Stored : ℕ → ℕ → Stream → World → Step Artifact → Type 0
Stored user_id session_id s w (err e, w') = Unit {0}
Stored user_id session_id s w (ok a, w') =
    (w'.artifacts ≡ a ∷ w.artifacts)
    × (w'.chats ≡ w.chats)
    × (a.user_id ≡ user_id)
    × (any (λ c. a.chat_id == c.id && c.session_id == session_id && c.user_id == user_id) w.chats
        ≡ true)
    × (find? (is_named a.storage_path) w'.objects
        ≡ some (record { name = a.storage_path; content = s.content }))
    × (a.file_size ≡ s.file_size)
    × (a.sha256 ≡ s.sha256)

reached_chat :
    (user_id session_id : ℕ) (chat : Chat) (cs : List Chat)
    → find? (is_session user_id session_id) cs ≡ some chat
    → any (λ c. chat.id == c.id && c.session_id == session_id && c.user_id == user_id) cs ≡ true
reached_chat user_id session_id chat [] is = absurd (cc)
reached_chat user_id session_id chat (c ∷ cs) is =
    elim (Bool-cases (is_session user_id session_id c)) [
      | inl on ↦
          let same : c ≡ chat = some-injective c chat (rw on at is) in
          let id : (chat.id == c.id) ≡ true =
            ap (λ d. chat.id == Chat.id d) same ∙ ==_refl chat.id in
          let mine = and_left (c.user_id == user_id) (c.session_id == session_id) on in
          let here = and_right (c.user_id == user_id) (c.session_id == session_id) on in
          rw (id, here, mine) refl
      | inr off ↦
          let rest = reached_chat user_id session_id chat cs (rw off at is) in ground (arith, rest)
    ]

module _ (S : Setting) (user_id session_id : ℕ) (s : Stream) (w : World) where
  store_artifact-Stored :
      (chat : Chat) (name : Text)
      → any (λ c. chat.id == c.id && c.session_id == session_id && c.user_id == user_id) w.chats
        ≡ true
      → Stored user_id session_id s w (store_artifact S user_id chat name s w)
  unfolding Stored add_artifact
  store_artifact-Stored chat name owned =
      let key = storage_path S.uuid user_id chat.id S.new_id s.source in
      let P = λ (r : Step Artifact). Stored user_id session_id s w r in
      elim (Bool-cases (S.upload_fails key)) [
        | inl fails ↦
            let step : store_artifact S user_id chat name s w ≡ (err storage_failed, w) =
              rw (store_artifact, fails) refl in
            subst P (sym step) tt
        | inr sent ↦
            let o : Object = record { name = key; content = s.content } in
            let a = new_artifact S user_id chat name key s in
            let w₁ : World = record w { objects = o ∷ without_object key w.objects } in
            elim (Bool-cases S.commit_fails) [
              | inl lost ↦
                  let failed : (store_artifact S user_id chat name s w).0 ≡ err commit_failed =
                    rw (store_artifact, add_artifact, sent, lost) refl in
                  failing (store_artifact S user_id chat name s w) commit_failed failed
              | inr kept ↦ elim (Bool-cases S.refresh_fails) [
                | inl stale ↦
                    let failed : (store_artifact S user_id chat name s w).0 ≡ err refresh_failed =
                      rw (store_artifact, add_artifact, sent, kept, stale) refl in
                    failing (store_artifact S user_id chat name s w) refresh_failed failed
                | inr fresh ↦
                    let step : store_artifact S user_id chat name s w
                        ≡ (ok a, record w₁ { artifacts = a ∷ w.artifacts }) =
                      rw (store_artifact, add_artifact, sent, kept, fresh) refl in
                    let here : is_named key o ≡ true = text_eq_refl key in
                    subst P (sym step) (refl, refl, refl, owned, rw here refl, refl, refl)
              ]
            ]
      ]
    where
      failing :
          (r : Step Artifact) (e : SessionError) → r.0 ≡ err e → Stored user_id session_id s w r
      failing (err d, w') e is = tt
      failing (ok a, w') e is = absurd (true≢false (ap is_ok is))

  pub create_artifact-Stored :
      Stored user_id session_id s w (create_artifact_from_stream S user_id session_id s w)
  unfolding create_artifact_from_stream get_owned_chat Stored
  create_artifact-Stored = found (find? (is_session user_id session_id) w.chats) refl
    where
      found :
          (x : Option Chat)
          → find? (is_session user_id session_id) w.chats ≡ x
          → Stored user_id session_id s w
              (elim (elim x as (λ y. Result SessionError Chat) [
                | none ↦ err session_not_found
                | some chat ↦ ok chat
              ])
                as (λ y. Step Artifact) [
                  | err e ↦ (err e, w)
                  | ok chat ↦
                      if any (is_taken chat.id (S.clean s.filename S.fallback)) w.artifacts
                      then (err duplicate_filename, w)
                      else store_artifact S user_id chat (S.clean s.filename S.fallback) s w
                ])
      found none is = tt
      found (some chat) is =
          let name = S.clean s.filename S.fallback in
          let choose = λ (b : Bool).
            if b then (err duplicate_filename, w) else store_artifact S user_id chat name s w in
          let owned = reached_chat user_id session_id chat w.chats is in
          elim (Bool-cases (any (is_taken chat.id name) w.artifacts)) [
            | inl taken ↦ subst (λ b. Stored user_id session_id s w (choose b)) (sym taken) tt
            | inr free ↦
                subst (λ b. Stored user_id session_id s w (choose b)) (sym free)
                  (store_artifact-Stored chat name owned)
          ]
