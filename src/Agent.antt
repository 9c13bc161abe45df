-- ===== src/Agent.antt =====
-- backend/app/agent/agent.py: the loop that asks the language model for steps and runs their code.
pub mod Protocol
pub mod Answers
use root_agent.Common.{
  if◌then◌else◌, length, drop, ℕ, zero, suc, ◌+◌, ◌-◌, ◌/◌, Bool, true, false, not, ◌&&◌, ◌||◌,
  Option, none, some, List, [], ◌∷◌, ◌++◌, map, Text, codes, strip, starts_with, contains, is_empty,
}
use root_agent.Common.Result.{Result, ok, err, ◌>>=◌, ◌>>◌, refuse, is_ok}

-- `AgentStep` of backend/app/models/agent.py
pub record AgentStep : Type 0 where
  pub thinking : Text
  pub code : Option Text
  pub final_answer : Option Text
  pub is_final_answer : Bool

pub data Role : Type 0 where
  system user assistant : Role

-- The content of a message to the model: text, a JSON value, or text parts.
pub data Content (Json : Type 0) : Type 0 where
  text : Text → Content Json
  json : Json → Content Json
  parts : List Text → Content Json

pub record Prompt (Json : Type 0) : Type 0 where
  pub role : Role
  pub content : Content Json

-- What `executor.execute` returns: an observation, or a `FinalAnswerException` with its answer.
pub data Observation : Type 0 where
  observed : Text → Observation
  answered : Text → Observation

-- What the stream yields.
pub data Event : Type 0 where
  step : ℕ → AgentStep → Event
  tool : ℕ → Text → Event

-- The collaborators, over a state of theirs: the model, which may raise, and the executor, which
-- may too. An exception is its text. `dump` is `model_dump_json`, `loads` is `json.loads`.
pub record Services : Type 1 where
  pub World : Type 0
  pub Json : Type 0
  pub generate : World → List (Prompt Json) → World × Result Text AgentStep
  pub execute : World → Text → World × Result Text Observation
  pub dump : AgentStep → Text
  pub loads : Text → Option Json

abbrev pub max_steps : ℕ
max_steps = 15

-- `a or b`, where `a` may be missing or empty
abbrev pub or_text : Option Text → Text → Text
or_text none b = b
or_text (some a) b = if is_empty a then b else a

abbrev pub has_text : Option Text → Bool
has_text none = false
has_text (some a) = not (is_empty a)

abbrev pub answer_of : AgentStep → Text
answer_of s = or_text s.final_answer s.thinking

abbrev pub no_code : Text
no_code = codes "Error: Provide code or set is_final_answer true with final_answer."

abbrev pub exhausted : Text
exhausted = codes "Agent reached maximum steps without a final answer."

abbrev pub final_step : Text → AgentStep
final_step answer = record {
  thinking = [];
  code = none;
  final_answer = some answer;
  is_final_answer = true;
}

module _ (S : Services) where
  abbrev pub Messages : Type 0
  Messages = List (Prompt S.Json)

  abbrev pub say : Role → Text → Messages → Messages
  say r t messages = messages ++ record { role = r; content = text t } ∷ []

  -- The content of one history message: JSON text becomes its value, if it is valid.
  unfoldable pub history_content : Text → Content S.Json
  history_content content =
      if starts_with (strip content) (codes "[")
        && (contains (codes "type") content || contains (codes "text") content)
      then elim (S.loads content) [ none ↦ text content | some value ↦ json value ]
      else text content

  unfoldable pub initialize_messages :
      Text → List (Role × Text) → Option Text → Option Text → Messages
  unfolding history_content
  initialize_messages system_prompt history query artifact_context =
      record { role = system; content = text system_prompt }
        ∷ map (λ (r, c). record { role = r; content = history_content c }) history
      ++ elim query [
        | none ↦ []
        | some q ↦
            if is_empty q
            then []
            else record {
              role = user;
              content = parts (
                  q ∷ (if has_text artifact_context then or_text artifact_context [] ∷ [] else []));
            }
              ∷ []
      ]

  -- How a round goes on.
  pub data Next : Type 0 where
    halt : List Event → S.World → Messages → Next
    again : List Event → S.World → Messages → Next

  -- After the code of a step was run.
  stream_observation : ℕ → S.World × Result Text Observation → Messages → Next
  stream_observation i (w, ok (answered answer)) messages =
      halt (step (i + 1) (final_step answer) ∷ []) w
        (say assistant (S.dump (final_step answer)) messages)
  stream_observation i (w, ok (observed o)) messages =
      let obs_msg = codes "Observation: " ++ o in
      again (tool i obs_msg ∷ []) w (say user obs_msg messages)
  stream_observation i (w, err e) messages =
      let obs_msg = codes "Execution error: " ++ e in
      again (tool i obs_msg ∷ []) w (say user obs_msg messages)

  abbrev pub prefix : Event → Next → Next
  prefix e (halt es w messages) = halt (e ∷ es) w messages
  prefix e (again es w messages) = again (e ∷ es) w messages

  -- One round of the `while` loop of `run_stream`.
  unfoldable pub stream_round : ℕ → S.World × Result Text AgentStep → Messages → Next
  unfolding stream_observation
  stream_round i (w, err e) messages = again [] w (say user e messages)
  stream_round i (w, ok s) messages =
      let messages' = say assistant (S.dump s) messages in
      if s.is_final_answer
      then halt (step i s ∷ []) w messages'
      else if has_text s.code
      then prefix (step i s) (stream_observation i (S.execute w (or_text s.code [])) messages')
      else again (step i s ∷ tool i no_code ∷ []) w (say user no_code messages')

  abbrev pub after_round : Next → (S.World → Messages → List Event × S.World) → List Event × S.World
  after_round (halt es w messages) continue = (es, w)
  after_round (again es w messages) continue =
      let (later, w') = continue w messages in (es ++ later, w')

  -- The loop with `rounds` rounds left, at step `i`. The last event stands behind the loop.
  unfoldable pub stream_loop : ℕ → ℕ → S.World → Messages → List Event × S.World
  unfolding stream_round
  stream_loop zero i w messages = (step i (final_step exhausted) ∷ [], w)
  stream_loop (suc rounds) i w messages =
      after_round (stream_round i (S.generate w messages) messages) (stream_loop rounds (i + 1))

  unfoldable pub run_stream : S.World → Messages → List Event × S.World
  unfolding stream_loop
  run_stream = stream_loop max_steps 0

  -- One round of the `while` loop of `run`: the answer, or the messages to go on with.
  run_observation : S.World × Result Text Observation → Messages → S.World × Messages × Option Text
  run_observation (w, ok (answered answer)) messages = (w, messages, some answer)
  run_observation (w, ok (observed o)) messages =
      (w, say user (codes "Observation: " ++ o) messages, none)
  run_observation (w, err e) messages = (w, say user (codes "system error: " ++ e) messages, none)

  unfoldable pub run_round :
      S.World × Result Text AgentStep → Messages → S.World × Messages × Option Text
  unfolding run_observation
  run_round (w, err e) messages = (w, say user (codes "system error: " ++ e) messages, none)
  run_round (w, ok s) messages =
      let messages' = say assistant (S.dump s) messages in
      if s.is_final_answer
      then (w, messages', some (answer_of s))
      else if has_text s.code
      then run_observation (S.execute w (or_text s.code [])) messages'
      else (w, say user no_code messages', none)

  abbrev pub after_run :
      S.World × Messages × Option Text
      → (S.World → Messages → Text × Messages × S.World)
      → Text × Messages × S.World
  after_run (w, messages, some answer) continue = (answer, messages, w)
  after_run (w, messages, none) continue = continue w messages

  unfoldable pub run_loop : ℕ → S.World → Messages → Text × Messages × S.World
  unfolding run_round
  run_loop zero w messages = (exhausted, messages, w)
  run_loop (suc rounds) w messages =
      after_run (run_round (S.generate w messages) messages) (run_loop rounds)

  -- The answer, and the messages behind the initial ones.
  unfoldable pub run : S.World → Messages → Text × Messages × S.World
  unfolding run_loop
  run w messages =
      let (answer, all, w') = run_loop max_steps w messages in
      (answer, drop (length messages) all, w')
