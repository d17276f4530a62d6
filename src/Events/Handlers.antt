-- ===== src/Events/Handlers.antt =====
-- The branches of `RunEventProjector.project` in incident_guard/events/projection.py on the events of
-- turns, steps and tools.
use incident_guard.Prelude.{
  ℕ, ◌+◌, Bool, true, false, not, ◌&&◌, ◌||◌, Option, none, some, [], ◌∷◌, ◌++◌, values, contains,
  Result, ok, projection_error, ◌>>=◌, ◌>>◌, raise_if, any_of, count_if, ltb, ◌==◌,
}
use incident_guard.Json.{Value, nil, Fields, get, is_truthy}
use incident_guard.Agents.RunModels.{running}
use incident_guard.Events.Store.{RunEvent}
use incident_guard.Events.Payload.{
  text, positive_int, non_negative_int, optional_non_negative_int, tuple_of, object_of,
}
use incident_guard.Events.Projected.{
  AgentMessage, ToolState, requested, started, ToolProjection, AssistantRecord, InboxItemProjection,
  Key, RunProjection, is_completed, is_record_of,
}
use incident_guard.Events.Projected
use incident_guard.Events.Locals.{
  put_tool, put_record, put_completed, say, Locals, require_running, open_step_number,
  require_step_identity, find_tool, require_tool_in_open_step, message, is_requested_or_started,
  is_started, is_created, has_open_step,
}

unfoldable pub on_run_started : RunEvent → Locals → Result Locals
on_run_started event l = do
  raise_if (not (is_created l.status) || not (event.sequence == 1))
      (projection_error "run.started must be the first event")
  ok (record l { status = running })

unfoldable pub on_turn_started : Fields → Locals → Result Locals
on_turn_started payload l = do
  require_running l.status
  event_turn ← positive_int payload "turn_number"
  raise_if (not (event_turn == l.turn_number + 1))
      (projection_error "expected turn_number {expected_turn}")
  ok (record l { turn_number = l.turn_number + 1; current_step = none })

-- `operator.message`, `context.injected`, `alert.received`, `goal.set` and `evidence.recorded`
unfoldable pub on_spoken : Fields → Locals → Result Locals
on_spoken payload l = do
  require_running l.status
  role ← text payload "role" false
  content ← text payload "content" true
  ok (record l { messages = l.messages ++ message role content nil ∷ [] })

unfoldable pub on_step_started : Fields → Locals → Result Locals
on_step_started payload l = do
  require_running l.status
  raise_if (ltb l.turn_number 1) (projection_error "step.started requires an active turn")
  step_number ← positive_int payload "step_number"
  event_turn ← positive_int payload "turn_number"
  raise_if (not (event_turn == l.turn_number))
      (projection_error "step.started turn_number mismatch")
  raise_if (has_open_step l.turn_number l.current_step l.completed_steps)
      (projection_error "cannot start a step before completing the prior step")
  raise_if
      (not
        (step_number == 1 + count_if (λ (item : Key). item.0 == l.turn_number) l.completed_steps))
      (projection_error "expected step_number {expected_step}")
  ok (record l { current_step = some step_number })

unfoldable pub on_assistant_message : Fields → Locals → Result Locals
on_assistant_message payload l = do
  step ← open_step_number l
  require_step_identity payload l.turn_number step
  text' ← text payload "text" true
  stop_reason ← text payload "stop_reason" false
  calls ← tuple_of (get payload "tool_calls")
  input_tokens ← optional_non_negative_int payload "input_tokens"
  output_tokens ← optional_non_negative_int payload "output_tokens"
  raise_if (any_of (is_record_of l.turn_number step) l.assistants)
      (projection_error "step has multiple assistant.message events")
  ok (
      say (message "assistant" text' calls) (
        put_record
          (record {
            turn_number = l.turn_number;
            step_number = step;
            text = text';
            stop_reason = stop_reason;
            tool_calls = calls;
            input_tokens = input_tokens;
            output_tokens = output_tokens;
          })
          l))

unfoldable pub on_tool_requested : Fields → Locals → Result Locals
on_tool_requested payload l = do
  step ← open_step_number l
  call_id ← text payload "call_id" false
  raise_if (contains call_id l.tools) (projection_error "duplicate tool call id: {call_id}")
  arguments ← object_of (get payload "arguments")
  name ← text payload "name" false
  effect ← text payload "effect" false
  call_index ← non_negative_int payload "call_index"
  ok (
      put_tool call_id
        (record {
          call_id = call_id;
          name = name;
          arguments = arguments;
          effect = effect;
          turn_number = l.turn_number;
          step_number = step;
          call_index = call_index;
          state = requested;
          content = none;
          is_error = false;
        })
        l)

unfoldable pub on_tool_started : Fields → Locals → Result Locals
on_tool_started payload l = do
  call_id ← text payload "call_id" false
  tool ← find_tool l.tools call_id
  require_tool_in_open_step tool l
  raise_if (not (is_requested_or_started tool.state))
      (projection_error "completed tool cannot be started again")
  ok (put_tool call_id (record tool { state = started }) l)

abbrev truthy_option : Option Value → Bool
truthy_option none = false
truthy_option (some v) = is_truthy v

abbrev pub tool_end_state : Bool → ToolState
tool_end_state true = Projected.failed
tool_end_state false = Projected.completed

-- `tool.completed` and `tool.failed`; the first argument is `event_type == "tool.failed"`
unfoldable pub on_tool_ended : Bool → Fields → Locals → Result Locals
on_tool_ended is_failed payload l = do
  call_id ← text payload "call_id" false
  tool ← find_tool l.tools call_id
  require_tool_in_open_step tool l
  raise_if (not (is_started tool.state))
      (projection_error "tool terminal event requires tool.started")
  let is_error = is_failed || truthy_option (get payload "is_error")
  content ← text payload "content" true
  ok (
      say
        (record {
          role = "tool";
          content = content;
          tool_call_id = some call_id;
          name = some tool.name;
          is_error = is_error;
          tool_calls = nil;
        })
        (put_tool call_id
          (record tool {
            state = tool_end_state is_error;
            content = some content;
            is_error = is_error;
          })
          l))

abbrev pub is_of_step : ℕ → ℕ → ToolProjection → Bool
is_of_step turn step tool = tool.turn_number == turn && tool.step_number == step

abbrev pub is_ended : ToolState → Bool
is_ended Projected.completed = true
is_ended Projected.failed = true
is_ended _ = false

abbrev pub is_unfinished_of : ℕ → ℕ → ToolProjection → Bool
is_unfinished_of turn step tool = is_of_step turn step tool && not (is_ended tool.state)

unfoldable pub on_step_completed : Fields → Locals → Result Locals
on_step_completed payload l = do
  step ← open_step_number l
  require_step_identity payload l.turn_number step
  raise_if (any_of (is_unfinished_of l.turn_number step) (values l.tools))
      (projection_error "step cannot complete with unfinished tools")
  raise_if (not (any_of (is_record_of l.turn_number step) l.assistants))
      (projection_error "step.completed requires assistant.message")
  ok (put_completed (l.turn_number, step) l)
