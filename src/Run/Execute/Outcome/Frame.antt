-- ===== src/Run/Execute/Outcome/Frame.antt =====
-- What the `try` block of `execute` leaves alone: the locks, and the kind of what it raises.
use root_agent.Common.{
  Bool-cases, Option-cases, ℕ, ◌+◌, String, ◌≡◌, ◌∙◌, inl, inr, Bool, Option, none, some, List, [],
  ◌∷◌, arith, Text,
}
use root_agent.Common.Result.{Result, ok, err}
use root_agent.Agent.{AgentStep}
use root_agent.Agent
use root_agent.Chat.Message.{Message}
use root_agent.Chat.Projection.{message_for_assistant, message_for_tool}
use root_agent.Run.Model.{
  Chat, ChatRun, Event, run_started, Exn, Call, World, M, ◌>>◌, call, resume, deliver_event,
  catch_with, is_exception,
}
use root_agent.Run.Replay.Laws.{deliver-SameStore}
use root_agent.Run.Session.{Request}
use root_agent.Run.Body.{
  Setup, Progress, consume, consume_all, publish, announce, finish_run, try_body,
}

-- An outcome under which the locks are `l` and what is raised is of the kind `E`.
module _ (E : Exn → Type 0) (l : ℕ → ℕ → Option String) where
  unfoldable pub IsGood {ℓ} : {A : Type ℓ} → Result Exn A × World → Type 0
  IsGood (ok a, w) = w.lock ≡ l
  IsGood (err e, w) = (w.lock ≡ l) × E e

  resume-IsGood {ℓ κ} :
      {A : Type ℓ} {B : Type κ} (x : Result Exn A) (w : World) (f : A → M B)
      → IsGood (x, w)
      → ((a : A) (w' : World) → w'.lock ≡ l → IsGood (f a w'))
      → IsGood (resume x w f)
  unfolding IsGood
  resume-IsGood (ok a) w f good next = next a w good
  resume-IsGood (err e) w f good next = good

  catch-IsGood {ℓ} :
      {A : Type ℓ} (x : Result Exn A) (w : World) (handler : Exn → M A)
      → IsGood (x, w)
      → ((e : Exn) (w' : World) → w'.lock ≡ l → E e → IsGood (handler e w'))
      → IsGood (catch_with (x, w) handler)
  unfolding IsGood
  catch-IsGood (ok a) w handler good next = good
  catch-IsGood (err e) w handler good next = elim (Bool-cases (is_exception e)) [
    | inl caught ↦ rw caught (next e w good.0 good.1)
    | inr passes ↦ rw passes good
  ]

  module _ (raises : Call → Option Exn) (kind : (c : Call) (e : Exn) → raises c ≡ some e → E e)
      (otherwise : E Exn.other) where
    call-IsGood : (c : Call) (w : World) → w.lock ≡ l → IsGood (call raises c w)
    unfolding IsGood
    call-IsGood c w same = elim (Option-cases (raises c)) [
      | inl free ↦ rw (free, call, IsGood) same
      | inr (e, at) ↦ rw (at, call, IsGood) (same, kind c e at)
    ]

    then-IsGood {κ} :
        {B : Type κ} (c : Call) (f : M B) (w : World)
        → w.lock ≡ l
        → ((w' : World) → w'.lock ≡ l → IsGood (f w'))
        → IsGood ((call raises c >> f) w)
    then-IsGood c f w same next =
        resume-IsGood _ _ (λ _. f) (call-IsGood c w same) (λ _ w' s. next w' s)

    delivered :
        (sink : Bool) (n : ℕ) (e : Event) (w : World)
        → w.lock ≡ l
        → (deliver_event raises sink n e w).1.lock ≡ l
    delivered sink n e w same = (deliver-SameStore raises sink n e w).lock ∙ same

    module _ (r : Request) (chat : Chat) (run : ChatRun) (setup : Setup) where
      consume-IsGood :
          (n : ℕ) (e : Agent.Event) (p : Progress) (w : World)
          → w.lock ≡ l
          → IsGood (consume raises r chat run setup n e p w)
      unfolding consume IsGood message_for_assistant message_for_tool
      consume-IsGood n (Agent.step i s) p w same = elim (Bool-cases s.is_final_answer) [
        | inl final ↦ rw final (delivered _ _ _ _ same)
        | inr goes_on ↦ rw goes_on (then-IsGood _ _ w same (λ w' s. ground (arith, s)))
      ]
      consume-IsGood n (Agent.tool i content) p w same =
          then-IsGood _ _ w same (λ w' s. ground (arith, s))

      consume_all-IsGood :
          (n : ℕ) (es : List Agent.Event) (p : Progress) (w : World)
          → w.lock ≡ l
          → IsGood (consume_all raises r chat run setup n es p w)
      unfolding consume_all IsGood
      consume_all-IsGood n [] p w same = same
      consume_all-IsGood n (e ∷ es) p w same =
          resume-IsGood _ _ _ (consume-IsGood n e p w same)
            (λ p' w' s. consume_all-IsGood (n + 1) es p' w' s)

      announce-lock :
          (n : ℕ) (as' : List ℕ) (e : Event) (sink : Bool) (w : World)
          → w.lock ≡ l
          → (announce raises r chat run setup n as' e sink w).lock ≡ l
      unfolding announce
      announce-lock n [] e sink w same = delivered _ _ _ _ same
      announce-lock n (a ∷ as') e sink w same =
          announce-lock (n + 1) as' e _ _ (delivered _ _ _ _ same)

      publish-IsGood :
          (answer : Text) (m : Message) (w : World)
          → w.lock ≡ l
          → IsGood (publish raises r chat run setup answer m w)
      unfolding publish IsGood
      publish-IsGood answer m w same = then-IsGood Call.save_final _ _ same (λ w₁ s.
          catch-IsGood _ _ _ (then-IsGood Call.commit_final _ _ s (λ w₂ s₂. s₂)) (λ e w₂ s₂ of_kind.
            resume-IsGood _ _ _
              (catch-IsGood _ _ _ (then-IsGood Call.delete_final _ _ s₂ (λ w₃ s₃. s₃))
                (λ e' w₃ s₃ of_kind'. call-IsGood Call.log_final w₃ s₃))
              (λ _ w₄ s₄. (s₄, of_kind))))

      finish_run-IsGood :
          (final : Option (Text × Message)) (sink : Bool) (w : World)
          → w.lock ≡ l
          → IsGood (finish_run raises r chat run setup final sink w)
      unfolding IsGood
      finish_run-IsGood none sink w same = (same, otherwise)
      finish_run-IsGood (some (answer, m)) sink w same =
          then-IsGood Call.collect_outputs _ _ same (λ w₁ s₁.
            then-IsGood Call.persist_outputs _ _ s₁ (λ w₂ s₂.
              resume-IsGood _ _ _ (publish-IsGood answer m w₂ s₂)
                (λ _ w₃ s₃. announce-lock _ _ _ _ w₃ s₃)))

      pub try_body-IsGood :
          (sink : Bool) (w : World) → w.lock ≡ l → IsGood (try_body raises r chat run setup sink w)
      unfolding try_body
      try_body-IsGood sink w same =
          then-IsGood Call.create_executor _ _ (delivered sink 0 (run_started run.id) w same)
            (λ w₀ s₀. then-IsGood Call.prepare_workspace _ _ s₀ (λ w₁ s₁.
              then-IsGood Call.create_gateway _ _ s₁ (λ w₂ s₂.
                then-IsGood Call.save_question _ _ s₂ (λ w₃ s₃.
                  then-IsGood Call.load_history _ _ s₃ (λ w₄ s₄.
                    resume-IsGood _ _ _ (consume_all-IsGood 1 setup.stream _ w₄ s₄)
                      (λ p w₅ s₅. finish_run-IsGood p.final p.sink w₅ s₅))))))
