-- ===== src/Agent/Answers.antt =====
-- `run` and `run_stream` are two loops over the same steps. Where the model and the executor do
-- not raise they come to the same answer.
use root_agent.Common.{
  if◌then◌else◌, Bool-cases, ℕ, zero, suc, ◌+◌, ◌≡◌, refl, ap, inl, inr, Option, none, some, List,
  [], ◌∷◌, ◌++◌, arith, Text, codes,
}
use root_agent.Common.Result.{ok}
use root_agent.Agent.{
  after_run, Role, AgentStep, Event, step, tool, Observation, observed, answered, Services, Next,
  Messages, has_text, or_text, answer_of, max_steps, say, no_code, stream_observation, stream_round,
  stream_loop, run_stream, run_round, run_loop, run, prefix, after_round, run_observation,
}

-- The collaborators never raise.
pub record IsQuiet (S : Services) : Type 0 where
  pub generates :
      (w : S.World) (m : Messages S)
      → (w' : S.World) × (s : AgentStep) × (S.generate w m ≡ (w', ok s))
  pub executes :
      (w : S.World) (code : Text)
      → (w' : S.World) × (o : Observation) × (S.execute w code ≡ (w', ok o))

-- The answer that the consumer of a stream takes: that of the last final step.
abbrev pub streamed : List Event → Option Text
streamed [] = none
streamed (tool i o ∷ es) = streamed es
streamed (step i s ∷ es) =
    let rest = streamed es in
    elim rest [ some a ↦ some a | none ↦ if s.is_final_answer then some (answer_of s) else none ]

or_text_nil : (a : Text) → or_text (some a) [] ≡ a
or_text_nil [] = refl
or_text_nil (c ∷ a) = refl

module _ (S : Services) where
  abbrev Agree : Next S → S.World × Messages S × Option Text → ℕ → ℕ → Type 0
  Agree next result rounds i =
      (streamed (after_round S next (stream_loop S rounds i)).0
        ≡ some (after_run S result (run_loop S rounds)).0)
      × ((after_round S next (stream_loop S rounds i)).1
          ≡ (after_run S result (run_loop S rounds)).2)

  abbrev LoopsAgree : ℕ → ℕ → Type 0
  LoopsAgree rounds i =
      (w : S.World) (m : Messages S)
      → (streamed (stream_loop S rounds i w m).0 ≡ some (run_loop S rounds w m).0)
        × ((stream_loop S rounds i w m).1 ≡ (run_loop S rounds w m).2)

  -- A step that was not final is passed over.
  streamed_later :
      (i : ℕ) (s : AgentStep) (o : Text) (es : List Event) (a : Text)
      → streamed es ≡ some a
      → streamed (step i s ∷ tool i o ∷ es) ≡ some a
  streamed_later i s o es a e = rw e

  observation_agrees :
      (rounds i : ℕ) (s : AgentStep) (w : S.World) (o : Observation) (m : Messages S)
      → LoopsAgree rounds (i + 1)
      → Agree
          (prefix S (step i s) (stream_observation S i (w, ok o) m))
          (run_observation S (w, ok o) m)
          rounds
          (i + 1)
  unfolding stream_observation run_observation
  observation_agrees rounds i s w (answered a) m ih = (ap some (or_text_nil a), refl)
  observation_agrees rounds i s w (observed o) m ih =
      let m' = say S Role.user (codes "Observation: " ++ o) m in
      let both = ih w m' in
      (
        streamed_later i s (codes "Observation: " ++ o) (stream_loop S rounds (i + 1) w m').0 _
            both.0,
        both.1,
      )

  round_agrees :
      IsQuiet S
      → (rounds i : ℕ) (w : S.World) (s : AgentStep) (m : Messages S) → LoopsAgree rounds (i + 1)
      → Agree (stream_round S i (w, ok s) m) (run_round S (w, ok s) m) rounds (i + 1)
  unfolding stream_round run_round
  round_agrees q rounds i w s m ih = elim (Bool-cases s.is_final_answer) [
    | inl final ↦ simp final (refl, refl)
    | inr goes_on ↦ simp goes_on (elim (Bool-cases (has_text s.code)) [
      | inl e ↦
          let (w', o, e') = q.executes w (or_text s.code []) in
          simp (e, e') (observation_agrees rounds i s w' o _ ih)
      | inr e ↦
          let m' = say S Role.user no_code (say S Role.assistant (S.dump s) m) in
          let both = ih w m' in simp e (ground (arith, both.0, goes_on), both.1)
    ])
  ]

  loops_agree : IsQuiet S → (rounds i : ℕ) → LoopsAgree rounds i
  unfolding stream_loop run_loop
  loops_agree q zero i w m = (refl, refl)
  loops_agree q (suc rounds) i w m =
      let (w', s, e) = q.generates w m in
      rw e (round_agrees q rounds i w' s m (loops_agree q rounds (i + 1)))

-- If the model and the executor never raise, `run` returns the answer of the final step that
-- `run_stream` yields from the same messages, and leaves the collaborators in the same state.
pub run-run_stream :
    (S : Services) (w : S.World) (messages : Messages S)
    → IsQuiet S
    → (streamed (run_stream S w messages).0 ≡ some (run S w messages).0)
      × ((run_stream S w messages).1 ≡ (run S w messages).2)
unfolding run_stream run
run-run_stream S w messages q = loops_agree S q max_steps 0 w messages
