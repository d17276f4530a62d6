-- ===== src/Events/Projection.antt =====
-- `RunEventProjector.project` of incident_guard/events/projection.py: a fold over a run's events. Here
-- are the branches on the events of the inbox, of approvals and of the run's end, and the fold.
pub mod Induction
pub mod Sequence
pub mod Status
pub mod Messages
pub mod Tools
pub mod Final
pub mod Steps
use incident_guard.Prelude.{
  ◌+◌, ◌-◌, String, Bool, true, false, not, ◌&&◌, ◌||◌, Option, none, some, List, [], ◌∷◌, ◌++◌,
  lookup, insert, values, contains, Result, ok, err, projection_error, ◌>>=◌, ◌>>◌, raise_if,
  if◌then◌else◌, ltb, str_eq, ◌==◌,
}
use incident_guard.Json.{nil, Fields}
use incident_guard.Agents.RunModels.{
  RunStatus, created, running, waiting_approval, cancelling, cancelled, failed_uncertain,
  is_terminal, is_running, is_failure,
}
use incident_guard.Agents.RunModels
use incident_guard.Events.Store.{RunEvent, current_event_schema_version}
use incident_guard.Events.Kinds.{
  EventKind, event_kind, run_started, turn_started, operator_message, context_injected,
  alert_received, goal_set, evidence_recorded, step_started, assistant_message, tool_requested,
  tool_started, tool_completed, tool_failed, step_completed, inbox_message, inbox_consumed,
  fact_confirmed, hypothesis_updated, work_item_added, work_item_completed, approval_requested,
  approval_decided, run_cancelling, run_completed, run_cancelled, run_failed, run_failed_uncertain,
  unsupported,
}
use incident_guard.Events.Payload.{text}
use incident_guard.Events.Projected.{InboxItemProjection, RunProjection}
use incident_guard.Events.Locals.{
  put_tool, put_record, put_completed, say, Locals, initial, require_running, message,
  is_cancelling, is_waiting, is_cancelled, is_completed_status, has_open_step,
}
use incident_guard.Events.Handlers.{
  on_run_started, on_turn_started, on_spoken, on_step_started, on_assistant_message,
  on_tool_requested, on_tool_started, on_tool_ended, on_step_completed,
}

unfoldable pub on_inbox_message : Fields → Locals → Result Locals
on_inbox_message payload l = do
  message_id ← text payload "message_id" false
  raise_if (contains message_id l.inbox)
      (projection_error "duplicate inbox message id: {message_id}")
  kind ← text payload "kind" false
  target ← text payload "target" false
  role ← text payload "role" false
  content ← text payload "content" true
  ok (record l {
    inbox =
        insert message_id
          (record {
            message_id = message_id;
            kind = kind;
            target = target;
            role = role;
            content = content;
            consumed = false;
          })
          l.inbox;
  })

-- `item is None or item.consumed`
abbrev pub pending_item : Option InboxItemProjection → Result InboxItemProjection
pending_item none = err (projection_error "inbox item is missing or already consumed")
pending_item (some item) =
    if item.consumed
    then err (projection_error "inbox item is missing or already consumed")
    else ok item

unfoldable pub on_inbox_consumed : Fields → Locals → Result Locals
on_inbox_consumed payload l = do
  message_id ← text payload "message_id" false
  item ← pending_item (lookup message_id l.inbox)
  ok (record l {
    inbox = insert message_id (record item { consumed = true }) l.inbox;
    messages = l.messages ++ message item.role item.content nil ∷ [];
  })

-- `fact.confirmed`, `hypothesis.updated`, `work_item.added` and `work_item.completed`
unfoldable pub on_noted : Locals → Result Locals
on_noted l = do require_running l.status; ok l

unfoldable pub on_approval_requested : Locals → Result Locals
on_approval_requested l = do require_running l.status; ok (record l { status = waiting_approval })

unfoldable pub on_approval_decided : Locals → Result Locals
on_approval_decided l = do
  raise_if (not (is_waiting l.status))
      (projection_error "approval.decided requires waiting_approval")
  ok (record l { status = running })

unfoldable pub on_run_cancelling : Locals → Result Locals
on_run_cancelling l = do
  raise_if (not (is_running l.status || is_waiting l.status))
      (projection_error "only an active run can be cancelled")
  ok (record l { status = cancelling })

-- The reason of a failed run.
abbrev reason_of : Bool → Fields → Option String → Result (Option String)
reason_of true payload old = do reason ← text payload "reason" false; ok (some reason)
reason_of false payload old = ok old

-- The events of `_TERMINAL_EVENT_STATUS`; the first argument is the status that the event leads to.
unfoldable pub on_run_ended : RunStatus → Fields → Locals → Result Locals
on_run_ended target payload l = do
  raise_if
      (is_completed_status target && has_open_step l.turn_number l.current_step l.completed_steps)
      (projection_error "run.completed requires a completed step")
  raise_if (is_cancelled target && not (is_cancelling l.status))
      (projection_error "run.cancelled requires run.cancelling")
  raise_if
      (not (is_cancelled target)
        && not (is_running l.status || is_cancelling l.status || is_waiting l.status))
      (projection_error "invalid terminal transition")
  reason ← reason_of (is_failure target) payload l.failure_reason
  ok (record l { status = target; failure_reason = reason })

unfoldable pub apply_event : EventKind → RunEvent → Locals → Result Locals
unfolding on_run_started on_turn_started on_spoken on_step_started on_assistant_message
    on_tool_requested on_tool_started on_tool_ended on_step_completed on_inbox_message
    on_inbox_consumed on_noted on_approval_requested on_approval_decided on_run_cancelling
    on_run_ended put_tool put_record put_completed say
apply_event run_started event l = on_run_started event l
apply_event turn_started event l = on_turn_started event.payload l
apply_event operator_message event l = on_spoken event.payload l
apply_event context_injected event l = on_spoken event.payload l
apply_event alert_received event l = on_spoken event.payload l
apply_event goal_set event l = on_spoken event.payload l
apply_event evidence_recorded event l = on_spoken event.payload l
apply_event step_started event l = on_step_started event.payload l
apply_event assistant_message event l = on_assistant_message event.payload l
apply_event tool_requested event l = on_tool_requested event.payload l
apply_event tool_started event l = on_tool_started event.payload l
apply_event tool_completed event l = on_tool_ended false event.payload l
apply_event tool_failed event l = on_tool_ended true event.payload l
apply_event step_completed event l = on_step_completed event.payload l
apply_event inbox_message event l = on_inbox_message event.payload l
apply_event inbox_consumed event l = on_inbox_consumed event.payload l
apply_event fact_confirmed event l = on_noted l
apply_event hypothesis_updated event l = on_noted l
apply_event work_item_added event l = on_noted l
apply_event work_item_completed event l = on_noted l
apply_event approval_requested event l = on_approval_requested l
apply_event approval_decided event l = on_approval_decided l
apply_event run_cancelling event l = on_run_cancelling l
apply_event run_completed event l = on_run_ended RunModels.completed event.payload l
apply_event run_cancelled event l = on_run_ended cancelled event.payload l
apply_event run_failed event l = on_run_ended RunModels.failed event.payload l
apply_event run_failed_uncertain event l = on_run_ended failed_uncertain event.payload l
apply_event unsupported event l =
    err (projection_error "unsupported durable event type: {event_type}")

-- One round of the loop.
unfoldable pub project_event : String → RunEvent → Locals → Result Locals
project_event run_id event l = do
  raise_if (not (str_eq event.run_id run_id)) (projection_error "event belongs to a different run")
  raise_if (not (event.sequence == l.expected_sequence))
      (projection_error "expected event sequence {expected_sequence}, got {event.sequence}")
  let l' = record l { expected_sequence = l.expected_sequence + 1 }
  raise_if (ltb current_event_schema_version event.schema_version)
      (projection_error "unsupported event schema version {event.schema_version}")
  raise_if (is_terminal l.status) (projection_error "terminal run cannot contain later events")
  apply_event (event_kind event.event_type) event l'

unfoldable pub project_events : String → List RunEvent → Locals → Result Locals
project_events run_id [] l = ok l
project_events run_id (event ∷ events) l = do
  l' ← project_event run_id event l
  project_events run_id events l'

abbrev pub to_projection : String → Locals → RunProjection
to_projection run_id l = record {
  run_id = run_id;
  status = l.status;
  messages = l.messages;
  tools = l.tools;
  assistant_records = l.assistants;
  inbox_items = values l.inbox;
  turn_number = l.turn_number;
  current_step_number = l.current_step;
  completed_steps = l.completed_steps;
  failure_reason = l.failure_reason;
  last_sequence = l.expected_sequence - 1;
}

unfoldable pub project : String → List RunEvent → Result RunProjection
project run_id events = do l ← project_events run_id events initial; ok (to_projection run_id l)
