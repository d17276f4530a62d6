-- ===== src/Events/Locals.antt =====
-- The local variables of `RunEventProjector.project` in incident_guard/events/projection.py, and the
-- guards that its branches share.
use incident_guard.Prelude.{
  insert, ◌++◌, ◌∷◌, ℕ, String, Bool, true, false, not, ◌&&◌, Option, none, some, List, [], Dict,
  lookup, Result, ok, err, projection_error, ◌>>=◌, ◌>>◌, raise_if, if◌then◌else◌, ◌==◌,
}
use incident_guard.Json.{Items, Fields}
use incident_guard.Agents.RunModels.{
  RunStatus, created, waiting_approval, cancelling, cancelled, is_running,
}
use incident_guard.Events.Payload.{positive_int}
use incident_guard.Events.Projected.{
  AgentMessage, ToolState, requested, started, ToolProjection, AssistantRecord, InboxItemProjection,
  Key, is_completed,
}

-- The local variables of `project`.
pub record Locals : Type 0 where
  pub status : RunStatus
  pub messages : List AgentMessage
  pub tools : Dict ToolProjection
  pub assistants : List AssistantRecord
  pub inbox : Dict InboxItemProjection
  pub turn_number : ℕ
  pub current_step : Option ℕ
  pub completed_steps : List Key
  pub failure_reason : Option String
  pub expected_sequence : ℕ

abbrev pub initial : Locals
initial = record {
  status = created;
  messages = [];
  tools = [];
  assistants = [];
  inbox = [];
  turn_number = 0;
  current_step = none;
  completed_steps = [];
  failure_reason = none;
  expected_sequence = 1;
}

abbrev pub require_running : RunStatus → Result (Unit {0})
require_running status =
    raise_if (not (is_running status)) (projection_error "{event_type} requires a running run")

-- `_require_open_step`, with the number of the step that is open
abbrev pub require_open_step : ℕ → Option ℕ → List Key → Result ℕ
require_open_step turn none done = err (projection_error "event requires an open step")
require_open_step turn (some step) done =
    if is_completed turn step done
    then err (projection_error "event requires an open step")
    else ok step

abbrev pub open_step_number : Locals → Result ℕ
open_step_number l = require_open_step l.turn_number l.current_step l.completed_steps

unfoldable pub require_step_identity : Fields → ℕ → ℕ → Result (Unit {0})
require_step_identity payload turn step = do
  event_turn ← positive_int payload "turn_number"
  raise_if (not (event_turn == turn)) (projection_error "event turn/step identity mismatch")
  event_step ← positive_int payload "step_number"
  raise_if (not (event_step == step)) (projection_error "event turn/step identity mismatch")

abbrev pub find_tool_of : Option ToolProjection → Result ToolProjection
find_tool_of none = err (projection_error "unknown tool call id: {call_id}")
find_tool_of (some tool) = ok tool

-- `_tool`
abbrev pub find_tool : Dict ToolProjection → String → Result ToolProjection
find_tool tools call_id = find_tool_of (lookup call_id tools)

-- `_require_tool_in_open_step`
abbrev pub require_tool_in_open_step : ToolProjection → Locals → Result (Unit {0})
require_tool_in_open_step tool l = do
  step ← open_step_number l
  raise_if (not (tool.turn_number == l.turn_number && tool.step_number == step))
      (projection_error "tool event does not belong to the open step")

abbrev pub message : String → String → Items → AgentMessage
message role content calls = record {
  role = role;
  content = content;
  tool_call_id = none;
  name = none;
  is_error = false;
  tool_calls = calls;
}

abbrev pub is_requested_or_started : ToolState → Bool
is_requested_or_started requested = true
is_requested_or_started started = true
is_requested_or_started _ = false

abbrev pub is_started : ToolState → Bool
is_started started = true
is_started _ = false

abbrev pub is_created : RunStatus → Bool
is_created created = true
is_created _ = false

abbrev pub is_cancelling : RunStatus → Bool
is_cancelling cancelling = true
is_cancelling _ = false

abbrev pub is_waiting : RunStatus → Bool
is_waiting waiting_approval = true
is_waiting _ = false

abbrev pub is_cancelled : RunStatus → Bool
is_cancelled cancelled = true
is_cancelled _ = false

abbrev pub is_completed_status : RunStatus → Bool
is_completed_status RunStatus.completed = true
is_completed_status _ = false

-- `current_step is not None and (turn_number, current_step) not in completed_steps`
abbrev pub has_open_step : ℕ → Option ℕ → List Key → Bool
has_open_step turn none done = false
has_open_step turn (some step) done = not (is_completed turn step done)

-- `tools[call_id] = tool`
unfoldable pub put_tool : String → ToolProjection → Locals → Locals
put_tool call_id tool l = record l { tools = insert call_id tool l.tools }

-- `messages.append(message)`
unfoldable pub say : AgentMessage → Locals → Locals
say m l = record l { messages = l.messages ++ m ∷ [] }

-- `assistants.append(record)`
unfoldable pub put_record : AssistantRecord → Locals → Locals
put_record r l = record l { assistants = l.assistants ++ r ∷ [] }

-- `completed_steps.append(key)`
unfoldable pub put_completed : Key → Locals → Locals
put_completed key l = record l { completed_steps = l.completed_steps ++ key ∷ [] }
