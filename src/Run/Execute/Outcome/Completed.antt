-- ===== src/Run/Execute/Outcome/Completed.antt =====
-- What the `try` block of `execute` has done when it returns: the row of the run is completed.
use root_agent.Common.{
  ◌==◌, if◌then◌else◌, Bool-cases, Option-cases, filter, any, ℕ, ◌+◌, ◌≡◌, refl, sym, ap, ◌∙◌, inl,
  inr, Bool, false, ◌&&◌, ◌||◌, Option, none, some, List, [], ◌∷◌, map, arith, false≢true, Text,
}
use root_agent.Common.Result.{Result, ok, err}
use root_agent.Chat.Message.{Message}
use root_agent.Run.Model.{
  Chat, ChatRun, Event, artifact_event, Exn, Call, World, M, ◌>>◌, call, resume,
}
use root_agent.Run.Session.{Request}
use root_agent.Run.Replay.{is_running}
use root_agent.Run.Replay.Laws.{deliver-SameStore}
use root_agent.Run.Body.{Setup, try_body, publish, announce, finish_run, completed_run, consume_all}
use root_agent.Run.Model.{is_exception, raise}

-- Whether a row of the run is marked as running.
abbrev pub runs_on : ℕ → List ChatRun → Bool
runs_on id rows = any (λ x. x.id == id && is_running x.status) rows

pub settle-set :
    (row : ChatRun)
    → is_running row.status ≡ false
    → (rows : List ChatRun)
    → runs_on row.id (map (λ x. if x.id == row.id then row else x) rows) ≡ false
settle-set row off [] = refl
settle-set row off (x ∷ rows) = elim (Bool-cases (x.id == row.id)) [
  | inl same ↦ ground (arith, same, off, settle-set row off rows)
  | inr differs ↦ ground (arith, differs, settle-set row off rows)
]

pub settle-filter :
    (id : ℕ) (keep : ChatRun → Bool) (rows : List ChatRun)
    → runs_on id rows ≡ false
    → runs_on id (filter keep rows) ≡ false
settle-filter id keep [] off = refl
settle-filter id keep (x ∷ rows) off = elim (Bool-cases (x.id == id && is_running x.status)) [
  | inl on ↦ absurd (false≢true (sym off ∙ rw on refl))
  | inr not_on ↦
      let rest = settle-filter id keep rows (ap (λ b. b || runs_on id rows) (sym not_on) ∙ off) in
      elim (Bool-cases (keep x)) [
        | inl kept ↦ rw (kept, not_on) rest
        | inr dropped ↦ rw dropped rest
      ]
]

-- What holds of the state whenever the code returns a value.
module _ (P : World → Type 0) where
  unfoldable pub Returns {ℓ} : {A : Type ℓ} → Result Exn A × World → Type 0
  Returns (ok a, w) = P w
  Returns (err e, w) = Unit

  resume-Returns {ℓ κ} :
      {A : Type ℓ} {B : Type κ} (x : Result Exn A) (w : World) (f : A → M B)
      → ((a : A) (w' : World) → Returns (f a w'))
      → Returns (resume x w f)
  unfolding Returns
  resume-Returns (ok a) w f next = next a w
  resume-Returns (err e) w f next = tt

  after-Returns {ℓ κ} :
      {A : Type ℓ} {B : Type κ} (x : Result Exn A) (w : World) (f : A → M B)
      → Returns (x, w)
      → ((a : A) (w' : World) → P w' → Returns (f a w'))
      → Returns (resume x w f)
  unfolding Returns
  after-Returns (ok a) w f holds next = next a w holds
  after-Returns (err e) w f holds next = tt

module _ (raises : Call → Option Exn) (artifacts : ℕ → List ℕ) (r : Request) (chat : Chat)
    (run : ChatRun) (setup : Setup) where
  -- No durable row of the run is running.
  abbrev IsSettled : World → Type 0
  IsSettled w = runs_on run.id w.durable.runs ≡ false

  publish-settles :
      (answer : Text) (m : Message) (w : World)
      → Returns IsSettled (publish raises r chat run setup answer m w)
  unfolding publish Returns
  publish-settles answer m w = elim (Option-cases (raises Call.save_final)) [
    | inr (e, at) ↦ rw (at, call, Returns) tt
    | inl saved ↦ elim (Option-cases (raises Call.commit_final)) [
      | inl free ↦
          rw (saved, free, call, Returns)
            (settle-set (completed_run raises r chat run setup answer m) refl w.db.runs)
      | inr (e, at) ↦ elim (Bool-cases (is_exception e)) [
        | inr passes ↦ rw (saved, at, passes, call, Returns) tt
        | inl caught ↦
            rw (saved, at, caught, call) (resume-Returns IsSettled _ _ (λ _. raise e) (λ _ w'. tt))
      ]
    ]
  ]

  announce-durable :
      (n : ℕ) (as' : List ℕ) (e : Event) (sink : Bool) (w : World)
      → (announce raises r chat run setup n as' e sink w).durable ≡ w.durable
  unfolding announce
  announce-durable n [] e sink w = (deliver-SameStore raises sink n e w).durable
  announce-durable n (a ∷ as') e sink w =
      announce-durable (n + 1) as' e _ _
      ∙ (deliver-SameStore raises sink n (artifact_event a) w).durable

  skip-settles {ℓ} :
      {B : Type ℓ} (c : Call) (f : M B) (w : World)
      → ((w' : World) → Returns IsSettled (f w'))
      → Returns IsSettled ((call raises c >> f) w)
  skip-settles c f w next = resume-Returns IsSettled _ _ (λ _. f) (λ _ w'. next w')

  finish_run-settles :
      (final : Option (Text × Message)) (sink : Bool) (w : World)
      → Returns IsSettled (finish_run raises r chat run setup final sink w)
  unfolding Returns
  finish_run-settles none sink w = tt
  finish_run-settles (some (answer, m)) sink w = skip-settles Call.collect_outputs _ _ (λ w₁.
      skip-settles Call.persist_outputs _ _ (λ w₂.
        after-Returns IsSettled _ _ _ (publish-settles answer m w₂)
          (λ _ w₃ off. ap (λ t. runs_on run.id t.runs) (announce-durable _ _ _ _ w₃) ∙ off)))

  pub try_body-settles :
      (sink : Bool) (w : World) → Returns IsSettled (try_body raises r chat run setup sink w)
  unfolding try_body
  try_body-settles sink w = skip-settles Call.create_executor _ _ (λ w₀.
      skip-settles Call.prepare_workspace _ _ (λ w₁. skip-settles Call.create_gateway _ _ (λ w₂.
        skip-settles Call.save_question _ _ (λ w₃. skip-settles Call.load_history _ _ (λ w₄.
          resume-Returns IsSettled (consume_all raises r chat run setup 1 setup.stream _ w₄).0 _ _
            (λ p w₅. finish_run-settles p.final p.sink w₅))))))
