-- ===== src/Run/Body.antt =====
-- The second half of `execute`: the `try` block that runs the agent and publishes its answer.
pub mod Compensation
use root_agent.Common.{
  ltb, leb, ◌==◌, if◌then◌else◌, ltb→lt, leb→le, ==_iff, ==_refl, Bool-cases, Option-cases, length,
  take, drop, filter, any, find?, sum_by, All, length-append, sum_by-append, length-take,
  length-drop, take-append-drop, length-filter, sum_by-filter, All-filter, All-append, ℕ, zero, suc,
  ◌+◌, ◌-◌, ◌*◌, ◌/◌, ◌%◌, ◌^◌, ◌≤◌, ◌<◌, min, max, String, ◌<>◌, ◌≡◌, refl, sym, ap, ◌∙◌, subst,
  fun_ext, ◌≢◌, ◌↔◌, ◌⊎◌, inl, inr, Bool, true, false, not, ◌&&◌, ◌||◌, Option, none, some, List,
  [], ◌∷◌, ◌++◌, map, reverse, arith, str_eq, eq_iff, All_mono, and_left, and_right, or_left,
  or_right, not-true, true≢false, false≢true, All-Memᴰ, All-filter_mono, Memᴰ, Text, codes,
  is_space, drop_while, rstrip_by, strip_by, strip, text_eq, starts_with, contains, is_empty,
  length-drop_while, str_eq_refl, text_eq_refl, text_eq_sound, text_eq_sym,
}
use root_agent.Common.Result.{ok, err}
use root_agent.Agent.{AgentStep, answer_of, or_text}
use root_agent.Agent
use root_agent.Chat.Json.{JsonLibrary}
use root_agent.Chat.Message.{Message}
use root_agent.Chat.Projection.{
  message_for_user, StepCodec, message_for_assistant, message_for_tool,
}
use root_agent.Chat.Sanitizer.{max_tool_observation_chars}
use root_agent.Run.Model.{
  done, raise, run_started, completed, Chat, ChatRun, Event, step_event, tool_event, artifact_event,
  Exn, Call, World, M, ◌>>=◌, ◌>>◌, pure, modify, call, at_session, catch_with, quietly,
  deliver_event,
}
use root_agent.Run.Replay.{ChatResponse}
use root_agent.Run.Session.{Request}

-- The collaborators of a run: the events that the agent streams, the artifacts that persisting
-- the outputs gives, the JSON and step codecs, new message identifiers, and the clock.
pub record Setup : Type 0 where
  pub stream : List Agent.Event
  pub generated : List ℕ
  pub json : JsonLibrary
  pub codec : StepCodec
  pub question : Text
  pub message_id : ℕ → String
  pub now : ℕ

-- What the loop over the stream has found: the final answer with its message, and whether the
-- client is still there.
pub record Progress : Type 0 where
  pub final : Option (Text × Message)
  pub sink : Bool

-- `db.commit()` writes the session's view.
abbrev pub committed : World → World
committed w = record w { durable = w.db }

abbrev pub set_run : ChatRun → World → World
set_run row w = record w {
  db = record (w.db) { runs = map (λ x. if x.id == row.id then row else x) w.db.runs };
}

module _ (raises : Call → Option Exn) (r : Request) (chat : Chat) (run : ChatRun)
    (setup : Setup) where
  abbrev pub save : Message → World → World
  save m w = record w {
    history =
        at_session w.history r.user_id chat.session_id
          (w.history r.user_id chat.session_id ++ m ∷ []);
  }

  -- Delivery to the client, if it is there; after a failure it is not.
  abbrev send : ℕ → Agent.Event → Event → Bool → World → Bool × World
  send n raw event sink w = deliver_event raises sink n event w

  -- One event of the agent's stream, the `n`-th.
  unfoldable pub consume : ℕ → Agent.Event → Progress → M Progress
  unfolding deliver_event message_for_assistant message_for_tool
  consume n (Agent.step i s) p w =
      let message = message_for_assistant setup.codec (setup.message_id n) setup.now s (some i) in
      if s.is_final_answer
      then (let (sink, w') = deliver_event raises p.sink n (step_event i) w in
          (ok (record { final = some (answer_of s, message); sink = sink }), w'))
      else (call raises (Call.save_trace n) >> (λ w₁.
            let (sink, w₂) = deliver_event raises p.sink n (step_event i) (save message w₁) in
            (ok (record p { sink = sink }), w₂)))
          w
  consume n (Agent.tool i content) p w =
      let observation = take max_tool_observation_chars content in
      let message =
        message_for_tool setup.json (setup.message_id n) setup.now observation (some i) in
      (call raises (Call.save_trace n) >> (λ w₁.
          let (sink, w₂) =
            deliver_event raises p.sink n (tool_event i observation) (save message w₁) in
          (ok (record p { sink = sink }), w₂)))
        w

  unfoldable pub consume_all : ℕ → List Agent.Event → Progress → M Progress
  unfolding consume
  consume_all n [] p = pure p
  consume_all n (e ∷ es) p = consume n e p >>= consume_all (n + 1) es

  -- The row after the run.
  abbrev pub completed_run : Text → Message → ChatRun
  completed_run answer message = record run {
    status = completed;
    final_answer = some answer;
    message_id = some message.message_id;
    completed_at = some setup.now;
    error_code = none;
    error_message = none;
  }

  abbrev pub erase_message : String → List Message → List Message
  erase_message id [] = []
  erase_message id (m ∷ ms) = if str_eq m.message_id id then ms else m ∷ erase_message id ms

  -- `redis_store.delete_message`
  abbrev pub erased : String → World → World
  erased id w = record w {
    history =
        at_session w.history r.user_id chat.session_id
          (erase_message id (w.history r.user_id chat.session_id));
  }

  -- The final message is stored before the commit, and taken back if the commit fails. The session
  -- is not rolled back then, so it refuses the next commit, that of `mark_failed`.
  unfoldable pub publish : Text → Message → M (Unit {0})
  publish answer message = do
    modify (set_run (completed_run answer message))
    call raises Call.save_final
    modify (save (record message { artifact_ids = setup.generated }))
    λ w. catch_with ((call raises Call.commit_final >> modify committed) w) (λ e.
        quietly (call raises Call.delete_final >> modify (erased message.message_id))
          (call raises Call.log_final)
        >> raise e)

  -- The artifact events and the terminal event.
  unfoldable pub announce : ℕ → List ℕ → Event → Bool → World → World
  unfolding deliver_event
  announce n [] event sink w = (deliver_event raises sink n event w).1
  announce n (a ∷ as') event sink w =
      let (sink', w') = deliver_event raises sink n (artifact_event a) w in
      announce (n + 1) as' event sink' w'

  abbrev pub no_progress : Bool → Progress
  no_progress sink = record { final = none; sink = sink }

  -- The `try` block. Without a final answer in the stream it raises.
  abbrev pub finish_run : Option (Text × Message) → Bool → M ChatResponse
  finish_run none sink = raise Exn.other
  finish_run (some (answer, message)) sink = do
    call raises Call.collect_outputs
    call raises Call.persist_outputs
    publish answer message
    modify (
        announce (1 + length setup.stream) setup.generated
          (done run.id answer message.message_id setup.generated) sink)
    pure (record {
      run_id = run.id;
      request_id = r.request_id;
      session_id = chat.session_id;
      status = completed;
      response = some answer;
      message_id = some message.message_id;
      error_code = none;
      error_message = none;
      retryable = false;
      artifacts = setup.generated;
    })

  unfoldable pub try_body : Bool → M ChatResponse
  unfolding consume_all publish announce
  try_body sink = do
    sink' ← (λ w. let (s, w') = deliver_event raises sink 0 (run_started run.id) w in (ok s, w'))
    call raises Call.create_executor
    modify (λ w. record w { executor = true })
    call raises Call.prepare_workspace
    modify (λ w. record w { workspaces = run.id ∷ w.workspaces; workspace = true })
    call raises Call.create_gateway
    modify (λ w. record w { gateway = true })
    call raises Call.save_question
    modify (save (message_for_user (setup.message_id 0) setup.now setup.question))
    call raises Call.load_history
    p ← consume_all 1 setup.stream (no_progress sink')
    finish_run p.final p.sink
