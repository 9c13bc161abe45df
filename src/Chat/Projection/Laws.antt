-- ===== src/Chat/Projection/Laws.antt =====
-- What of a stored trace can reach a later request to the language model.
use root_agent.Common.{
  Bool-cases, Option-cases, filter, ℕ, ◌+◌, String, ◌≡◌, refl, ap, ◌⊎◌, inl, inr, Bool, true, false,
  not, ◌&&◌, ◌||◌, Option, none, some, List, [], ◌∷◌, str_eq, eq_iff, Text, codes, is_empty,
}
use root_agent.Agent.{AgentStep, answer_of}
use root_agent.Common.{is_empty, Option-cases, Bool-cases, filter, inl, inr, not, eq_iff, ap, ◌⊎◌}
use root_agent.Chat.Json.{Json, Fields, JsonLibrary}
use root_agent.Chat.Message.{Message}
use root_agent.Chat.Projection.{
  StepCodec, message_for_tool, parse_tool_output, final_answer_in, history_loop, history_for_agent,
}

-- Whether a stored text is a final step with an answer; what the code answers is the final answer
-- or, if that is missing or empty, the thinking.
pub is_answered : StepCodec → Text → Bool
is_answered C content = elim (C.parse_assistant_step content) [
  | none ↦ false
  | some s ↦ s.is_final_answer && not (is_empty (answer_of s))
]

-- A question of the user, or a final step with an answer.
pub is_turn : StepCodec → Message → Bool
is_turn C m = elim m.step_kind [
  | none ↦ false
  | some kind ↦ str_eq kind "user" || (str_eq kind "assistant" && is_answered C m.content)
]

-- What the model is given for a stored message: the question without its artifacts, or the answer
-- of a final step, with nothing else of it but its time.
abbrev pub IsProjection : StepCodec → Message → Message → Type 0
IsProjection C m a =
    ((m.step_kind ≡ some "user") × (a ≡ record m { artifact_ids = [] }))
    ⊎ ((s : AgentStep) × (m.step_kind ≡ some "assistant")
        × (C.parse_assistant_step m.content ≡ some s)
        × (s.is_final_answer ≡ true)
        × (a.content ≡ answer_of s)
        × (a.role ≡ "assistant")
        × (a.timestamp ≡ m.timestamp)
        × (a.artifact_ids ≡ []))

-- Two lists of messages that correspond one by one.
abbrev pub Pairwise : (Message → Message → Type 0) → List Message → List Message → Type 0
Pairwise P [] [] = Unit
Pairwise P (m ∷ ms) (a ∷ as') = P m a × Pairwise P ms as'
Pairwise P [] (a ∷ as') = ⊥
Pairwise P (m ∷ ms) [] = ⊥

module _ (C : StepCodec) (draw : ℕ → String) where
  -- The message of a step that could be read.
  answer_projects :
      (n : ℕ) (m : Message) (ms : List Message) (kind : String) (s : AgentStep)
      → m.step_kind ≡ some kind
      → str_eq kind "user" ≡ false
      → str_eq kind "assistant" ≡ true
      → C.parse_assistant_step m.content ≡ some s
      → Pairwise (IsProjection C) (filter (is_turn C) ms) (history_loop C draw (n + 1) ms)
      → Pairwise (IsProjection C) (filter (is_turn C) (m ∷ ms)) (history_loop C draw n (m ∷ ms))
  unfolding history_loop is_turn is_answered final_answer_in
  answer_projects n m ms kind s is other_kind answers parsed rest =
      elim (Bool-cases s.is_final_answer) [
        | inr goes_on ↦
            let silent : final_answer_in C m.content ≡ none =
              rw (final_answer_in, parsed, goes_on) refl in
            let out : is_answered C m.content ≡ false = rw (is_answered, parsed, goes_on) refl in
            rw (is, other_kind, answers, silent, out) rest
        | inl final ↦ elim (Bool-cases (is_empty (answer_of s))) [
          | inl mute ↦
              let silent : final_answer_in C m.content ≡ none =
                rw (final_answer_in, parsed, final, mute) refl in
              let out : is_answered C m.content ≡ false =
                rw (is_answered, parsed, final, mute) refl in
              rw (is, other_kind, answers, silent, out) rest
          | inr speaks ↦
              let said : final_answer_in C m.content ≡ some (answer_of s) =
                rw (final_answer_in, parsed, final, speaks) refl in
              let found : is_answered C m.content ≡ true =
                rw (is_answered, parsed, final, speaks) refl in
              let assistant = ap some ((eq_iff kind "assistant").0 answers) in
              rw (is, other_kind, answers, said, found)
                (inr (s, assistant, parsed, final, refl, refl, refl, refl), rest)
        ]
      ]

  loop_projects :
      (n : ℕ) (ms : List Message)
      → Pairwise (IsProjection C) (filter (is_turn C) ms) (history_loop C draw n ms)
  unfolding history_loop is_turn is_answered final_answer_in
  loop_projects n [] = tt
  loop_projects n (m ∷ ms) =
      let rest = loop_projects (n + 1) ms in
      elim (Option-cases m.step_kind) [
        | inl nothing ↦ rw nothing rest
        | inr (kind, is) ↦ elim (Bool-cases (str_eq kind "user")) [
          | inl asks ↦ rw (is, asks) (inl (ap some ((eq_iff kind "user").0 asks), rw is refl), rest)
          | inr other_kind ↦ elim (Bool-cases (str_eq kind "assistant")) [
            | inr neither ↦ rw (is, other_kind, neither) rest
            | inl answers ↦ elim (Option-cases (C.parse_assistant_step m.content)) [
              | inl broken ↦
                  let silent : final_answer_in C m.content ≡ none =
                    rw (final_answer_in, broken) refl in
                  let out : is_answered C m.content ≡ false = rw (is_answered, broken) refl in
                  rw (is, other_kind, answers, silent, out) rest
              | inr (s, parsed) ↦ answer_projects n m ms kind s is other_kind answers parsed rest
            ]
          ]
        ]
      ]

  -- What `history_for_agent` returns corresponds one by one, in order, to the stored messages that
  -- are questions of the user or final steps with an answer. A question is given as it is, without
  -- its artifacts. Of a final step only its answer is given, which is its final answer or, if it
  -- has none, its thinking. Steps that are not final, observations and broken messages give nothing.
  pub history_projects :
      (ms : List Message)
      → Pairwise (IsProjection C) (filter (is_turn C) ms) (history_for_agent C draw ms)
  unfolding history_for_agent
  history_projects ms = loop_projects 0 ms

-- `{"output": output}`
abbrev pub output_object : Text → Json
output_object output = Json.obj (Fields.field (codes "output") (Json.str output) Fields.end)

-- A tool's output is read back from the message that stores it, if the JSON library reads the
-- object that it wrote for it.
pub parse_tool_output-message_for_tool :
    (L : JsonLibrary) (str : Json → Text) (id : String) (now : ℕ) (output : Text) (i : Option ℕ)
    → L.loads (L.dumps (output_object output)) ≡ some (output_object output)
    → parse_tool_output L str (message_for_tool L id now output i).content ≡ some output
unfolding parse_tool_output message_for_tool
parse_tool_output-message_for_tool L str id now output i reads = rw (reads, parse_tool_output)
