-- ===== src/Agent/Protocol.antt =====
-- What the consumer of `run_stream` may rely on.
use root_agent.Common.{
  Bool-cases, length, All, ℕ, zero, suc, ◌+◌, ◌*◌, ◌≤◌, ◌≡◌, refl, inl, inr, Bool, true, false, not,
  ◌&&◌, List, [], ◌∷◌, arith, All_mono, Text,
}
use root_agent.Common.Result.{Result, ok, err}
use mathlib.Core.Bool.{false≢true}
use root_agent.Agent.{
  AgentStep, Event, step, tool, Observation, observed, answered, Services, Messages, has_text,
  max_steps, stream_observation, stream_round, stream_loop, run_stream, prefix, after_round,
}

-- The streams of a loop with so many rounds left, at a step number: a round yields a step that is
-- final, or a step and its observation, or a step and the final step of its answer, or nothing.
pub data Conforms : ℕ → ℕ → List Event → Type 0 where
  last : {r i : ℕ} {s : AgentStep} → s.is_final_answer ≡ true → Conforms r i (step i s ∷ [])
  answer :
      {r i j : ℕ} {s s' : AgentStep}
      → s.is_final_answer ≡ false
      → j ≡ i + 1
      → s'.is_final_answer ≡ true
      → Conforms (suc r) i (step i s ∷ step j s' ∷ [])
  observe :
      {r i j : ℕ} {s : AgentStep} {o : Text} {es : List Event}
      → s.is_final_answer ≡ false
      → j ≡ i + 1
      → Conforms r j es
      → Conforms (suc r) i (step i s ∷ tool i o ∷ es)
  skip : {r i j : ℕ} {es : List Event} → j ≡ i + 1 → Conforms r j es → Conforms (suc r) i es

module _ (S : Services) where
  -- The observation of a step that was not final, and what the loop yields after it.
  observation-Conforms :
      (rounds i : ℕ) (s : AgentStep) (r : S.World × Result Text Observation) (messages : Messages S)
      → s.is_final_answer ≡ false
      → ((w : S.World) (m : Messages S)
          → Conforms rounds (i + 1) (stream_loop S rounds (i + 1) w m).0)
      → Conforms
          (suc rounds)
          i
          (after_round S
            (prefix S (step i s) (stream_observation S i r messages))
            (stream_loop S rounds (i + 1))).0
  unfolding stream_observation
  observation-Conforms rounds i s (w, ok (answered a)) messages goes_on ih =
      answer goes_on refl refl
  observation-Conforms rounds i s (w, ok (observed o)) messages goes_on ih =
      observe goes_on refl (ih w _)
  observation-Conforms rounds i s (w, err e) messages goes_on ih = observe goes_on refl (ih w _)

  round-Conforms :
      (rounds i : ℕ) (r : S.World × Result Text AgentStep) (messages : Messages S)
      → ((w : S.World) (m : Messages S)
          → Conforms rounds (i + 1) (stream_loop S rounds (i + 1) w m).0)
      → Conforms
          (suc rounds)
          i
          (after_round S (stream_round S i r messages) (stream_loop S rounds (i + 1))).0
  unfolding stream_round
  round-Conforms rounds i (w, err e) messages ih = skip refl (ih w _)
  round-Conforms rounds i (w, ok s) messages ih = elim (Bool-cases s.is_final_answer) [
    | inl final ↦ simp final (last final)
    | inr goes_on ↦ simp goes_on (elim (Bool-cases (has_text s.code)) [
      | inl e ↦ simp e (observation-Conforms rounds i s _ _ goes_on ih)
      | inr e ↦ simp e (observe goes_on refl (ih w _))
    ])
  ]

  stream_loop-Conforms :
      (rounds i : ℕ) (w : S.World) (messages : Messages S)
      → Conforms rounds i (stream_loop S rounds i w messages).0
  unfolding stream_loop
  stream_loop-Conforms zero i w messages = last refl
  stream_loop-Conforms (suc rounds) i w messages =
      round-Conforms rounds i (S.generate w messages) messages (stream_loop-Conforms rounds (i + 1))

abbrev pub is_final : Event → Bool
is_final (step i s) = s.is_final_answer
is_final (tool i o) = false

abbrev pub index : Event → ℕ
index (step i s) = i
index (tool i o) = i

-- The last event is final and no other is.
abbrev pub ends_once : List Event → Bool
ends_once [] = false
ends_once (e ∷ []) = is_final e
ends_once (e ∷ e' ∷ es) = not (is_final e) && ends_once (e' ∷ es)

ends_once-cons :
    (e : Event) (es : List Event)
    → is_final e ≡ false
    → ends_once es ≡ true
    → ends_once (e ∷ es) ≡ true
ends_once-cons e [] plain h = absurd (false≢true h)
ends_once-cons e (x ∷ es) plain h = rw plain h

Conforms-ends_once : {r i : ℕ} {es : List Event} → Conforms r i es → ends_once es ≡ true
Conforms-ends_once (last final) = final
Conforms-ends_once (answer goes_on e final) = rw goes_on final
Conforms-ends_once (observe {i = i} {s = s} {o = o} {es = es} goes_on e c) =
    ends_once-cons (step i s) (tool i o ∷ es) goes_on
      (ends_once-cons (tool i o) es refl (Conforms-ends_once c))
Conforms-ends_once (skip e c) = Conforms-ends_once c

Conforms-length : {r i : ℕ} {es : List Event} → Conforms r i es → length es ≤ 2 * r + 1
Conforms-length (last final) = omega arith
Conforms-length (answer goes_on e final) = omega arith
Conforms-length (observe goes_on e c) = omega (arith, Conforms-length c)
Conforms-length (skip e c) = omega (arith, Conforms-length c)

Conforms-index :
    {r i : ℕ} {es : List Event} → Conforms r i es → All (λ e. (i ≤ index e) × (index e ≤ i + r)) es
Conforms-index (last final) = omega arith
Conforms-index (answer goes_on e final) = omega arith
Conforms-index (observe {es = es} goes_on e c) = (
  omega arith,
  (
    omega arith,
    All_mono es (λ x (h : (_ ≤ index x) × (index x ≤ _)). omega arith) (Conforms-index c),
  ),
)
Conforms-index (skip {es = es} e c) =
    All_mono es (λ x (h : (_ ≤ index x) × (index x ≤ _)). omega arith) (Conforms-index c)

-- Whatever the model and the executor do, also if they raise, the stream ends with a final step,
-- its only one; it has at most 31 events, with step numbers up to 15.
pub run_stream_protocol :
    (S : Services) (w : S.World) (messages : Messages S)
    → (ends_once (run_stream S w messages).0 ≡ true)
      × (length (run_stream S w messages).0 ≤ 31)
      × All (λ e. index e ≤ 15) (run_stream S w messages).0
unfolding run_stream
run_stream_protocol S w messages =
    let c = stream_loop-Conforms S max_steps 0 w messages in
    (Conforms-ends_once c, Conforms-length c, All_mono _ (λ e h. h.1) (Conforms-index c))
