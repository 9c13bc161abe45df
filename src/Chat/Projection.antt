-- ===== src/Chat/Projection.antt =====
-- backend/app/services/chat_messages.py: the messages that are stored, and what of them the
-- language model is given later. `id` and `now` are the identifier and the time of a new message.
pub mod Laws
use root_agent.Common.{
  if◌then◌else◌, ℕ, ◌+◌, ◌-◌, ◌/◌, String, not, Option, none, some, List, [], ◌∷◌, str_eq, Text,
  codes, text_eq, is_empty,
}
use root_agent.Chat.Json.{Json, Fields, JsonLibrary}
use root_agent.Chat.Message.{Message}
use root_agent.Agent.{AgentStep, or_text, answer_of}

-- `AgentStep.model_dump_json` and `AgentStep.model_validate_json`, which may fail.
pub record StepCodec : Type 0 where
  pub dump_step : AgentStep → Text
  pub parse_assistant_step : Text → Option AgentStep

unfoldable pub message_for_user : String → ℕ → Text → Message
message_for_user id now content = record {
  message_id = id;
  role = "user";
  content = content;
  timestamp = now;
  step_kind = some "user";
  step_index = none;
  artifact_ids = [];
}

unfoldable pub message_for_assistant : StepCodec → String → ℕ → AgentStep → Option ℕ → Message
message_for_assistant C id now s step_index = record {
  message_id = id;
  role = "assistant";
  content = C.dump_step s;
  timestamp = now;
  step_kind = some "assistant";
  step_index = step_index;
  artifact_ids = [];
}

unfoldable pub message_for_tool : JsonLibrary → String → ℕ → Text → Option ℕ → Message
message_for_tool L id now output step_index = record {
  message_id = id;
  role = "assistant";
  content = L.dumps (Json.obj (Fields.field (codes "output") (Json.str output) Fields.end));
  timestamp = now;
  step_kind = some "tool";
  step_index = step_index;
  artifact_ids = [];
}

-- `data["output"]`, if the object has the key
abbrev pub field_value : Text → Fields → Option Json
field_value key Fields.end = none
field_value key (Fields.field k v fields) = if text_eq k key then some v else field_value key fields

-- `str(value)` of a JSON value: a string is itself, and other values print as Python does.
unfoldable pub parse_tool_output : JsonLibrary → (Json → Text) → Text → Option Text
parse_tool_output L str content = elim (L.loads content) [
  | none ↦ none
  | some (Json.obj fields) ↦ elim (field_value (codes "output") fields) [
    | some (Json.str output) ↦ some output
    | some value ↦ some (str value)
    | none ↦ some content
  ]
  | some value ↦ some content
]

abbrev pub cleared : Message → Message
cleared m = record m { artifact_ids = [] }

-- A final answer as a new message of the assistant.
abbrev pub answer_message : String → ℕ → Text → Message
answer_message id timestamp answer = record {
  message_id = id;
  role = "assistant";
  content = answer;
  timestamp = timestamp;
  step_kind = none;
  step_index = none;
  artifact_ids = [];
}

-- The final answer that a stored text holds: none if it is no step, if the step is not final, or
-- if the answer is empty.
unfoldable pub final_answer_in : StepCodec → Text → Option Text
final_answer_in C content = elim (C.parse_assistant_step content) [
  | none ↦ none
  | some s ↦
      if s.is_final_answer
      then (if is_empty (answer_of s) then none else some (answer_of s))
      else none
]

-- The loop of `history_for_agent`. `draw` gives the identifiers of new messages.
unfoldable pub history_loop : StepCodec → (ℕ → String) → ℕ → List Message → List Message
unfolding final_answer_in
history_loop C draw n [] = []
history_loop C draw n (msg ∷ messages) =
    let rest = history_loop C draw (n + 1) messages in
    elim msg.step_kind [
      | none ↦ rest
      | some kind ↦
          if str_eq kind "user"
          then cleared msg ∷ rest
          else if str_eq kind "assistant"
          then elim (final_answer_in C msg.content) [
            | none ↦ rest
            | some answer ↦ answer_message (draw n) msg.timestamp answer ∷ rest
          ]
          else rest
    ]

unfoldable pub history_for_agent : StepCodec → (ℕ → String) → List Message → List Message
unfolding history_loop
history_for_agent C draw messages = history_loop C draw 0 messages
