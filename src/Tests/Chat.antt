-- ===== src/Tests/Chat.antt =====
-- The theorems on the history that the language model is given, and on the agent's loop, at
-- concrete inputs.
use root_agent.Common.{
  length, filter, All, ◌≤◌, ◌<◌, ◌≡◌, refl, true, false, none, some, [], ◌∷◌, map, reverse, arith,
  Text, codes,
}
use root_agent.Common.Result.{ok}
use root_agent.Chat.Message.{Message}
use root_agent.Chat.Json.{JsonLibrary}
use root_agent.Chat.Sanitizer.{bounded, remove_data_uris, sanitize_history, sanitize_message}
use root_agent.Chat.Sanitizer.DataUris.{has_data_uri, remove_data_uris_lem}
use root_agent.Chat.Sanitizer.Bounds.{NewestKept, sanitize_history_newest, bounded_overrun}
use root_agent.Chat.Projection.{StepCodec, history_for_agent}
use root_agent.Chat.Projection.Laws.{
  IsProjection, Pairwise, is_turn, output_object, history_projects,
}
use root_agent.Agent.{AgentStep, Observation, Services, run, run_stream, final_step}
use root_agent.Agent.Protocol.{ends_once, index, run_stream_protocol}
use root_agent.Agent.Answers.{IsQuiet, streamed, run-run_stream}

abbrev question : Message
question = record {
  message_id = "m1";
  role = "user";
  content = codes "What is 2 + 3?";
  timestamp = 1;
  step_kind = some "user";
  step_index = none;
  artifact_ids = [];
}

abbrev trace : Message
trace = record question { message_id = "m2"; role = "tool"; step_kind = some "tool" }

-- A library that reads every text as the output "5".
abbrev pub fives : JsonLibrary
fives = record { loads = λ t. some (output_object (codes "5")); dumps = λ j. codes "5" }

abbrev a_step : Text → AgentStep
a_step t = final_step t

abbrev pub plain_steps : StepCodec
plain_steps = record { dump_step = λ s. s.thinking; parse_assistant_step = λ t. some (a_step t) }

remove_data_uris_lem_example :
    (has_data_uri (remove_data_uris (codes "x data:image/png;base64,AA==")) ≡ false)
    × (has_data_uri (codes "x data:image/png;base64,AA==") ≡ false
        → remove_data_uris (codes "x data:image/png;base64,AA==")
          ≡ codes "x data:image/png;base64,AA==")
remove_data_uris_lem_example = remove_data_uris_lem (codes "x data:image/png;base64,AA==")

sanitize_history_newest_example :
    NewestKept
      (reverse (map (sanitize_message fives) (question ∷ trace ∷ [])))
      (reverse (sanitize_history fives (question ∷ trace ∷ [])))
sanitize_history_newest_example = sanitize_history_newest fives (question ∷ trace ∷ [])

bounded_overrun_example : 3 < length (bounded (codes "abcd") 3)
bounded_overrun_example = bounded_overrun (codes "abcd") 3 (omega arith) (omega arith)

-- Steps of a trace, read as final steps that have no final answer.
abbrev thoughts : StepCodec
thoughts = record {
  dump_step = λ s. s.thinking;
  parse_assistant_step = λ t. some (record (final_step []) { thinking = t; final_answer = none });
}

abbrev thought : Message
thought = record question {
  message_id = "m3";
  role = "assistant";
  content = codes "I think it is 5.";
  step_kind = some "assistant";
}

history_projects_example :
    Pairwise
      (IsProjection thoughts)
      (filter (is_turn thoughts) (question ∷ trace ∷ thought ∷ []))
      (history_for_agent thoughts (λ n. "new") (question ∷ trace ∷ thought ∷ []))
history_projects_example = history_projects thoughts (λ n. "new") (question ∷ trace ∷ thought ∷ [])

-- The thinking of a final step without a final answer is given to the model.
thinking_reenters :
    map Message.content (history_for_agent thoughts (λ n. "new") (trace ∷ thought ∷ []))
    ≡ codes "I think it is 5." ∷ []
unfolding history_for_agent
thinking_reenters = refl

-- A model that answers at once.
abbrev prompt_model : Services
prompt_model = record {
  World = Unit {0};
  Json = Unit {0};
  generate = λ w m. (w, ok (final_step (codes "5")));
  execute = λ w code. (w, ok (Observation.observed []));
  dump = λ s. s.thinking;
  loads = λ t. none;
}

prompt_model-IsQuiet : IsQuiet prompt_model
prompt_model-IsQuiet = record {
  generates = λ w m. (w, final_step (codes "5"), refl);
  executes = λ w code. (w, Observation.observed [], refl);
}

run_stream_protocol_example :
    (ends_once (run_stream prompt_model tt []).0 ≡ true)
    × (length (run_stream prompt_model tt []).0 ≤ 31)
    × All (λ e. index e ≤ 15) (run_stream prompt_model tt []).0
run_stream_protocol_example = run_stream_protocol prompt_model tt []

run-run_stream_example :
    (streamed (run_stream prompt_model tt []).0 ≡ some (run prompt_model tt []).0)
    × ((run_stream prompt_model tt []).1 ≡ (run prompt_model tt []).2)
run-run_stream_example = run-run_stream prompt_model tt [] prompt_model-IsQuiet
