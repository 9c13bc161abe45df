-- ===== src/Sessions/Orphans.antt =====
-- Rows and objects when sessions and users are deleted.
use root_agent.Common.{
  ◌==◌, ==_iff, Bool-cases, filter, find?, All, ℕ, ◌≡◌, refl, sym, ap, ◌∙◌, subst, inl, inr, true,
  false, not, ◌&&◌, ◌||◌, Option, none, some, List, [], ◌∷◌, map, and_left, and_right, starts_with,
}
use root_agent.Common.Result.{ok}
use root_agent.Run.Model.{Chat, ChatRun}
use root_agent.Artifacts.Gateway.Reading.{Artifact}
use root_agent.Artifacts.Outputs.{storage_path}
use root_agent.Sessions.{World, Setting, Step, under, chat_storage_prefix, user_storage_prefix}
use root_agent.Sessions.Service.{
  is_session, owns, cascade_chat, cascade_user, session_key, wipe_session, delete_session,
  delete_user,
}
use root_agent.Sessions.Prefix.{All_both}
use root_agent.Sessions.Keys.{
  normalized-chat_storage_prefix, normalized-user_storage_prefix, key_under_chat, key_under_user,
}
use root_agent.Sessions.Sound.{IsSound, find-All}
use root_agent.Sessions.Cascade.{cascaded, wiped-IsSound}

module _ (S : Setting) where
  under_chat :
      (chat : Chat) (a : Artifact)
      → a.storage_path ≡ storage_path S.uuid a.user_id a.chat_id a.id a.source
      → (chat.id ≡ a.chat_id → chat.user_id ≡ a.user_id)
      → (a.chat_id == chat.id) ≡ true
      → starts_with a.storage_path (chat_storage_prefix S chat.user_id chat.id) ≡ true
  under_chat chat a at owner is =
      let same : chat.id ≡ a.chat_id = sym ((==_iff a.chat_id chat.id).0 is) in
      let user = owner same in
      ap (λ p. starts_with p (chat_storage_prefix S chat.user_id chat.id)) at
      ∙ subst
          (λ c.
            starts_with (storage_path S.uuid a.user_id a.chat_id a.id a.source)
              (chat_storage_prefix S chat.user_id c)
            ≡ true)
          (sym same)
          (subst
            (λ u.
              starts_with (storage_path S.uuid a.user_id a.chat_id a.id a.source)
                (chat_storage_prefix S u a.chat_id)
              ≡ true)
            (sym user) (key_under_chat S a.user_id a.chat_id a.id a.source))

  pub delete_session-IsSound :
      (user_id session_id : ℕ) (w : World)
      → IsSound S.uuid w
      → IsSound S.uuid (delete_session S user_id session_id w).1
  unfolding delete_session wipe_session
  delete_session-IsSound user_id session_id w v =
      found (find? (is_session user_id session_id) w.chats) refl
    where
      found :
          (x : Option Chat)
          → find? (is_session user_id session_id) w.chats ≡ x
          → IsSound S.uuid
              (elim x as (λ y. Step (Unit {0})) [
                | none ↦ (ok tt, w)
                | some chat ↦ wipe_session S chat w
              ]).1
      found none is = v
      found (some chat) is =
          let path = chat_storage_prefix S chat.user_id chat.id in
          let inside =
            All_both w.artifacts
              (λ a at agree.
                under_chat chat a at
                  (find-All (λ c. Chat.id c ≡ a.chat_id → Chat.user_id c ≡ a.user_id)
                    (is_session user_id session_id) w.chats chat is agree).0)
              v.placed v.agree in
          wiped-IsSound S path (session_key S chat.user_id chat.session_id ∷ [])
            (map (λ r. S.uuid (ChatRun.id r)) (filter (λ r. r.chat_id == chat.id) w.runs))
            (cascade_chat chat.id) w v
            (λ w' same v' gone.
              cascaded S path w' (λ a. a.chat_id == chat.id) (λ c. c.id == chat.id) w'.users
                (filter (λ r. not (r.chat_id == chat.id)) w'.runs) v'
                (subst (λ p. All (λ o. under S p o ≡ false) w'.objects)
                  (normalized-chat_storage_prefix S chat.user_id chat.id) gone)
                (subst
                  (λ l.
                    All
                      (λ a.
                        (Artifact.chat_id a == chat.id) ≡ true
                        → starts_with (Artifact.storage_path a) path ≡ true)
                      l)
                  (sym same.artifacts) inside))

  owner_of :
      (user_id chat_id u : ℕ) (chats : List Chat)
      → owns user_id chats chat_id ≡ true
      → All (λ c. Chat.id c ≡ chat_id → Chat.user_id c ≡ u) chats
      → user_id ≡ u
  owner_of user_id chat_id u [] h agree = absurd (cc)
  owner_of user_id chat_id u (c ∷ chats) h (here, agree) =
      elim (Bool-cases (c.user_id == user_id && c.id == chat_id)) [
        | inl is ↦
            sym
              ((==_iff c.user_id user_id).0 (and_left (c.user_id == user_id) (c.id == chat_id) is))
            ∙ here ((==_iff c.id chat_id).0 (and_right (c.user_id == user_id) (c.id == chat_id) is))
        | inr other ↦ owner_of user_id chat_id u chats (rw other at h) agree
      ]

  under_user :
      (user_id : ℕ) (chats : List Chat) (a : Artifact)
      → a.storage_path ≡ storage_path S.uuid a.user_id a.chat_id a.id a.source
      → All (λ c. Chat.id c ≡ a.chat_id → Chat.user_id c ≡ a.user_id) chats
      → (a.user_id == user_id || owns user_id chats a.chat_id) ≡ true
      → starts_with a.storage_path (user_storage_prefix S user_id) ≡ true
  under_user user_id chats a at agree is =
      let same : user_id ≡ a.user_id = elim (Bool-cases (a.user_id == user_id)) [
        | inl mine ↦ sym ((==_iff a.user_id user_id).0 mine)
        | inr other ↦
            let has : owns user_id chats a.chat_id ≡ true = rw other at is in
            owner_of user_id a.chat_id a.user_id chats has agree
      ] in
      ap (λ p. starts_with p (user_storage_prefix S user_id)) at
      ∙ subst
          (λ u.
            starts_with (storage_path S.uuid a.user_id a.chat_id a.id a.source)
              (user_storage_prefix S u)
            ≡ true)
          (sym same) (key_under_user S a.user_id a.chat_id a.id a.source)

  pub delete_user-IsSound :
      (user_id : ℕ) (w : World) → IsSound S.uuid w → IsSound S.uuid (delete_user S user_id w).1
  unfolding delete_user
  delete_user-IsSound user_id w v =
      let path = user_storage_prefix S user_id in
      wiped-IsSound S path
        (map (session_key S user_id)
          (map Chat.session_id (filter (λ c. c.user_id == user_id) w.chats)))
        (map (λ r. S.uuid (ChatRun.id r)) (filter (λ r. r.user_id == user_id) w.runs))
        (cascade_user user_id) w v
        (λ w' same v' gone.
          cascaded S path w' (λ a. a.user_id == user_id || owns user_id w'.chats a.chat_id)
            (λ c. c.user_id == user_id) (filter (λ u. not (u == user_id)) w'.users)
            (filter (λ r. not (r.user_id == user_id || owns user_id w'.chats r.chat_id)) w'.runs) v'
            (subst (λ p. All (λ o. under S p o ≡ false) w'.objects)
              (normalized-user_storage_prefix S user_id) gone)
            (All_both w'.artifacts (λ a at agree. under_user user_id w'.chats a at agree) v'.placed
              v'.agree))
