-- ===== src/Run/Body/Compensation.antt =====
-- The final message of a run whose commit fails is taken back.
use root_agent.Common.{
  Bool-cases, any, ℕ, String, ◌≡◌, refl, sym, ap, ◌∙◌, inl, inr, Bool, true, false, ◌||◌, Option,
  none, some, List, [], ◌∷◌, ◌++◌, str_eq, false≢true, Text, str_eq_refl,
}
use root_agent.Common.Result.{err}
use root_agent.Chat.Message.{Message}
use root_agent.Run.Model.{
  at_session, at_session-own, Chat, ChatRun, Exn, Call, World, call, is_exception,
}
use root_agent.Run.Session.{Request}
use root_agent.Run.Body.{Setup, publish, erase_message}

-- Whether a history has a message of an identifier.
abbrev pub has_message : String → List Message → Bool
has_message id ms = any (λ m. str_eq m.message_id id) ms

module _ (raises : Call → Option Exn) (r : Request) (chat : Chat) (run : ChatRun)
    (setup : Setup) where
  erase-last :
      (ms : List Message) (m : Message)
      → has_message m.message_id ms ≡ false
      → erase_message raises r chat run setup m.message_id (ms ++ m ∷ []) ≡ ms
  erase-last [] m fresh = rw (str_eq_refl m.message_id) refl
  erase-last (x ∷ ms) m fresh = elim (Bool-cases (str_eq x.message_id m.message_id)) [
    | inl same ↦ absurd (false≢true (sym fresh ∙ rw same refl))
    | inr other ↦ rw other (
        ap (λ l. x ∷ l)
          (erase-last ms m (ap (λ b. b || has_message m.message_id ms) (sym other) ∙ fresh)))
  ]

  -- If the final message was stored and the commit of the completed run then raises an `Exception`,
  -- and taking the message back does not raise, `publish` raises that exception, the session's
  -- history is what it was, if it had no message of the same identifier, and no row has changed.
  pub publish_takes_back :
      (answer : Text) (m : Message) (e : Exn) (w : World)
      → raises Call.save_final ≡ none
      → raises Call.commit_final ≡ some e
      → is_exception e ≡ true
      → raises Call.delete_final ≡ none
      → has_message m.message_id (w.history r.user_id chat.session_id) ≡ false
      → ((publish raises r chat run setup answer m w).0 ≡ err e)
        × ((publish raises r chat run setup answer m w).1.history r.user_id chat.session_id
            ≡ w.history r.user_id chat.session_id)
        × ((publish raises r chat run setup answer m w).1.durable ≡ w.durable)
  unfolding publish
  publish_takes_back answer m e w stored failed caught taken fresh =
      let before : List Message = w.history r.user_id chat.session_id in
      let last : Message = record m { artifact_ids = setup.generated } in
      let after : ℕ → ℕ → List Message =
        at_session w.history r.user_id chat.session_id (before ++ last ∷ []) in
      (
        rw (publish, stored, failed, caught, taken, call) refl,
        rw (publish, stored, failed, caught, taken, call)
            (at_session-own after r.user_id chat.session_id (
                erase_message raises r chat run setup m.message_id
                  (after r.user_id chat.session_id))
              ∙ ap (erase_message raises r chat run setup m.message_id)
                  (at_session-own w.history r.user_id chat.session_id (before ++ last ∷ []))
              ∙ erase-last before last fresh),
        rw (publish, stored, failed, caught, taken, call) refl,
      )
