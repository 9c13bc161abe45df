-- ===== src/Sessions/Isolation.antt =====
-- What `delete_session` does to its own session and to the others.
use root_agent.Common.{
  Bool-cases, filter, find?, ℕ, ◌≡◌, refl, sym, ap, ◌∙◌, subst, ◌≢◌, inl, inr, Bool, true, not,
  some, List, [], ◌∷◌, starts_with, text_eq_sound,
}
use root_agent.Common.Result.{ok, err}
use root_agent.Run.Model.{Chat}
use root_agent.Artifacts.Gateway.{ArtifactSource}
use root_agent.Artifacts.Outputs.{storage_path}
use root_agent.Sessions.{World, Object, Setting, Step, under, is_named, chat_storage_prefix}
use root_agent.Sessions.Service.{is_session, wipe_session, delete_session}
use root_agent.Sessions.Keys.{AreUuids, key_of_chat}
use root_agent.Sessions.Deletion.{Ends, wipe_session-Ends}

pub find-filter :
    (p q : Object → Bool) (xs : List Object)
    → ((x : Object) → p x ≡ true → q x ≡ true)
    → find? p (filter q xs) ≡ find? p xs
find-filter p q [] h = refl
find-filter p q (x ∷ xs) h = elim (Bool-cases (p x)) [
  | inl on ↦ rw (h x on, on) refl
  | inr off ↦ elim (Bool-cases (q x)) [
    | inl kept ↦ rw (kept, off) (find-filter p q xs h)
    | inr out ↦ rw (out, off) (find-filter p q xs h)
  ]
]

module _ (S : Setting) (uuids : AreUuids S) (chat : Chat) (w : World) where
  other_outside :
      (u c id : ℕ) (source : ArtifactSource) (o : Object)
      → c ≢ chat.id
      → is_named (storage_path S.uuid u c id source) o ≡ true
      → not (under S (chat_storage_prefix S chat.user_id chat.id) o) ≡ true
  other_outside u c id source o other is =
      let key = storage_path S.uuid u c id source in
      let path = chat_storage_prefix S chat.user_id chat.id in
      let same : o.name ≡ key = text_eq_sound o.name key is in
      elim (Bool-cases (starts_with key path)) [
        | inl into ↦ absurd (other (key_of_chat S u c id chat.user_id chat.id source uuids into).1)
        | inr out ↦ ap (λ n. not (starts_with n path)) same ∙ ap not out
      ]

  others_stay :
      (r : Step (Unit {0})) (p : Object → Bool)
      → ((o : Object)
          → p o ≡ true
          → not (under S (chat_storage_prefix S chat.user_id chat.id) o) ≡ true)
      → Ends S chat w r
      → find? p r.1.objects ≡ find? p w.objects
  unfolding Ends
  others_stay (err e, w') p out ends =
      sym (find-filter p _ w'.objects out)
      ∙ (ap (λ os. find? p os) ends.1 ∙ find-filter p _ w.objects out)
  others_stay (ok done, w') p out ends =
      sym (find-filter p _ w'.objects out)
      ∙ (ap (λ os. find? p os) ends.1 ∙ find-filter p _ w.objects out)

  -- Deleting a session that is there ends in one of two ways. It succeeds: the chat's row is gone
  -- with its runs and artifacts and no other, and no object is left under the chat's prefix. Or it
  -- fails, at any of its steps: all rows are there as before, so that it can be asked for again. In
  -- both cases every object outside the prefix stays, in its order, and an object whose key is that
  -- of an artifact of another chat is what it was; if identifiers have texts of their own without a
  -- slash.
  pub delete_session-Ends :
      (user_id session_id u c id : ℕ) (source : ArtifactSource)
      → find? (is_session user_id session_id) w.chats ≡ some chat
      → c ≢ chat.id
      → Ends S chat w (delete_session S user_id session_id w)
        × (find?
              (is_named (storage_path S.uuid u c id source))
              (delete_session S user_id session_id w).1.objects
            ≡ find? (is_named (storage_path S.uuid u c id source)) w.objects)
  unfolding delete_session
  delete_session-Ends user_id session_id u c id source found other =
      let ends = wipe_session-Ends S chat w in
      let step : delete_session S user_id session_id w ≡ wipe_session S chat w =
        rw (delete_session, found) refl in
      let p = is_named (storage_path S.uuid u c id source) in
      subst (λ r. Ends S chat w r × (find? p r.1.objects ≡ find? p w.objects)) (sym step)
        (
          ends,
          others_stay (wipe_session S chat w) p (λ o is. other_outside u c id source o other is)
              ends,
        )
