-- ===== src/Sessions/Refine.antt =====
-- Creating an artifact, against the abstract map of files.
use root_agent.Common.{
  ◌==◌, if◌then◌else◌, ==_refl, Bool-cases, any, find?, All, ℕ, ◌≡◌, refl, sym, ap, ◌∙◌, subst, ◌≢◌,
  inl, inr, Bool, true, false, ◌&&◌, Option, none, some, List, [], ◌∷◌, Text,
}
use root_agent.Common.Result.{Result, ok, err}
use mathlib.Core.Option.{some-injective}
use root_agent.Artifacts.Gateway.Reading.{Artifact}
use root_agent.Sessions.{
  World, Object, Setting, Step, SessionError, without_object, session_not_found, duplicate_filename,
  commit_failed, refresh_failed, storage_failed,
}
use root_agent.Sessions.Service.{is_session}
use root_agent.Sessions.Artifacts.{
  Stream, is_taken, get_owned_chat, add_artifact, new_artifact, store_artifact,
  create_artifact_from_stream,
}
use root_agent.Artifacts.Outputs.{storage_path}
use root_agent.Sessions.Keys.{AreUuids}
use root_agent.Sessions.Sound.{IsSound, unheld}
use root_agent.Run.Model.{Chat}
use root_agent.Sessions.View.{put, files, paths_apart}
use root_agent.Sessions.Created.{file_free, created_files, lost_files, stale_files}

-- What the abstract map allows: a file under a new name, or an error and no change.
unfoldable pub CreateSpec : Setting → ℕ → ℕ → Stream → World → Step Artifact → Type 0
CreateSpec S user_id session_id s w (err e, w') = files w' ≡ files w
CreateSpec S user_id session_id s w (ok a, w') =
    (any (λ c. is_session user_id session_id c && c.id == a.chat_id) w.chats ≡ true)
    × (a.filename ≡ S.clean s.filename S.fallback)
    × (files w a.chat_id a.filename ≡ none)
    × (files w' ≡ put a.chat_id a.filename s.content (files w))

module _ (S : Setting) (user_id session_id : ℕ) (s : Stream) (w : World)
    (fine : (key : Text) → S.remove_fails key ≡ false) where
  add_artifact-Creates :
      (a : Artifact)
      → All (λ b. Artifact.storage_path b ≢ a.storage_path) w.artifacts
      → any (is_taken a.chat_id a.filename) w.artifacts ≡ false
      → any (λ c. is_session user_id session_id c && c.id == a.chat_id) w.chats ≡ true
      → a.filename ≡ S.clean s.filename S.fallback
      → CreateSpec S user_id session_id s w (
          add_artifact S a (record w {
            objects =
                record { name = a.storage_path; content = s.content }
                ∷ without_object a.storage_path w.objects;
          }))
  unfolding add_artifact CreateSpec files
  add_artifact-Creates a apart free owned clean =
      let o : Object = record { name = a.storage_path; content = s.content } in
      let w₁ : World = record w { objects = o ∷ without_object a.storage_path w.objects } in
      let gone = without_object a.storage_path w₁.objects in
      let removes = fine a.storage_path in
      elim (Bool-cases S.commit_fails) [
        | inl lost ↦
            let step : add_artifact S a w₁ ≡ (err commit_failed, record w { objects = gone }) =
              rw (add_artifact, lost, removes) refl in
            subst (λ r. CreateSpec S user_id session_id s w r) (sym step)
              (lost_files a o w refl apart free)
        | inr kept ↦ elim (Bool-cases S.refresh_fails) [
          | inl stale ↦
              let step : add_artifact S a w₁
                  ≡ (err refresh_failed, record w { artifacts = a ∷ w.artifacts; objects = gone }) =
                rw (add_artifact, kept, stale, removes) refl in
              subst (λ r. CreateSpec S user_id session_id s w r) (sym step)
                (stale_files a o w refl apart free)
          | inr fresh ↦
              let step : add_artifact S a w₁ ≡ (ok a, record w₁ { artifacts = a ∷ w.artifacts }) =
                rw (add_artifact, kept, fresh) refl in
              subst (λ r. CreateSpec S user_id session_id s w r) (sym step)
                (
                  owned,
                  clean,
                  file_free w.artifacts w.objects a.chat_id a.filename free,
                  created_files a o w refl apart free,
                )
        ]
      ]

  store_artifact-Creates :
      (chat : Chat)
      → AreUuids S
      → IsSound S.uuid w
      → any (λ a. a.id == S.new_id) w.artifacts ≡ false
      → any (is_taken chat.id (S.clean s.filename S.fallback)) w.artifacts ≡ false
      → any (λ c. is_session user_id session_id c && c.id == chat.id) w.chats ≡ true
      → CreateSpec S user_id session_id s w
          (store_artifact S user_id chat (S.clean s.filename S.fallback) s w)
  unfolding CreateSpec
  store_artifact-Creates chat uuids v fresh free owned =
      let name = S.clean s.filename S.fallback in
      let key = storage_path S.uuid user_id chat.id S.new_id s.source in
      elim (Bool-cases (S.upload_fails key)) [
        | inl fails ↦
            let step : store_artifact S user_id chat name s w ≡ (err storage_failed, w) =
              rw (store_artifact, fails) refl in
            subst (λ r. CreateSpec S user_id session_id s w r) (sym step) refl
        | inr sent ↦
            let o : Object = record { name = key; content = s.content } in
            let a = new_artifact S user_id chat name key s in
            let step : store_artifact S user_id chat name s w
                ≡ add_artifact S a (record w { objects = o ∷ without_object key w.objects }) =
              rw (store_artifact, sent) refl in
            let apart =
              paths_apart S uuids S.new_id user_id chat.id s.source w.artifacts v.placed
                (unheld S.new_id w.artifacts fresh) in
            subst (λ r. CreateSpec S user_id session_id s w r) (sym step)
              (add_artifact-Creates a apart free owned refl)
      ]

  owned_chat :
      (chat : Chat)
      → find? (is_session user_id session_id) w.chats ≡ some chat
      → any (λ c. is_session user_id session_id c && c.id == chat.id) w.chats ≡ true
  owned_chat chat is = found_here w.chats is
    where
      found_here :
          (cs : List Chat)
          → find? (is_session user_id session_id) cs ≡ some chat
          → any (λ c. is_session user_id session_id c && c.id == chat.id) cs ≡ true
      found_here [] is = absurd (cc)
      found_here (c ∷ cs) is = elim (Bool-cases (is_session user_id session_id c)) [
        | inl on ↦
            let same : c ≡ chat = some-injective c chat (rw on at is) in
            let match : (c.id == chat.id) ≡ true =
              ap (λ d. Chat.id d == chat.id) same ∙ ==_refl chat.id in
            rw (on, match) refl
        | inr off ↦ let rest = found_here cs (rw off at is) in rw off rest
      ]

  -- Creating an artifact implements adding a file to a map from names to contents: the call either
  -- fails, and the map of what each name of each chat shows is what it was, although rows or
  -- objects may have changed; or it succeeds, the artifact is in the user's chat of the session,
  -- its cleaned name showed nothing before and shows the content now, and nothing else changed.
  -- Each of its calls may fail, but an object that was stored can be deleted. The world has to be
  -- one in which rows say where their objects are, the new identifier new, and the texts of
  -- identifiers different and without a slash.
  pub create_artifact_refines :
      AreUuids S
      → IsSound S.uuid w
      → any (λ a. a.id == S.new_id) w.artifacts ≡ false
      → CreateSpec S user_id session_id s w (create_artifact_from_stream S user_id session_id s w)
  unfolding create_artifact_from_stream get_owned_chat CreateSpec
  create_artifact_refines uuids v fresh = found (find? (is_session user_id session_id) w.chats) refl
    where
      found :
          (x : Option Chat)
          → find? (is_session user_id session_id) w.chats ≡ x
          → CreateSpec S user_id session_id s w
              (elim (elim x as (λ y. Result SessionError Chat) [
                | none ↦ err session_not_found
                | some chat ↦ ok chat
              ])
                as (λ y. Step Artifact) [
                  | err e ↦ (err e, w)
                  | ok chat ↦
                      if any (is_taken chat.id (S.clean s.filename S.fallback)) w.artifacts
                      then (err duplicate_filename, w)
                      else store_artifact S user_id chat (S.clean s.filename S.fallback) s w
                ])
      found none is = refl
      found (some chat) is =
          let name = S.clean s.filename S.fallback in
          let choose = λ (b : Bool).
            if b then (err duplicate_filename, w) else store_artifact S user_id chat name s w in
          elim (Bool-cases (any (is_taken chat.id name) w.artifacts)) [
            | inl taken ↦
                subst (λ b. CreateSpec S user_id session_id s w (choose b)) (sym taken) refl
            | inr free ↦
                subst (λ b. CreateSpec S user_id session_id s w (choose b)) (sym free)
                  (store_artifact-Creates chat uuids v fresh free (owned_chat chat is))
          ]
