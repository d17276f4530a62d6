-- ===== src/Events/Kinds.antt =====
-- The durable event types that incident_guard/events/projection.py knows. `unsupported` is any other
-- text.
use incident_guard.Prelude.{String, Bool, true, false, if◌then◌else◌, str_eq}

pub data EventKind : Type 0 where
  run_started turn_started operator_message context_injected alert_received goal_set : EventKind
  evidence_recorded step_started assistant_message tool_requested tool_started : EventKind
  tool_completed tool_failed step_completed inbox_message inbox_consumed fact_confirmed : EventKind
  hypothesis_updated work_item_added work_item_completed approval_requested : EventKind
  approval_decided run_cancelling run_completed run_cancelled run_failed : EventKind
  run_failed_uncertain unsupported : EventKind

-- The tests of `event_type` in the order in which `project` makes them.
unfoldable pub event_kind : String → EventKind
event_kind t =
    if str_eq t "run.started"
    then run_started
    else if str_eq t "turn.started"
    then turn_started
    else if str_eq t "operator.message"
    then operator_message
    else if str_eq t "context.injected"
    then context_injected
    else if str_eq t "alert.received"
    then alert_received
    else if str_eq t "goal.set"
    then goal_set
    else if str_eq t "evidence.recorded"
    then evidence_recorded
    else if str_eq t "step.started"
    then step_started
    else if str_eq t "assistant.message"
    then assistant_message
    else if str_eq t "tool.requested"
    then tool_requested
    else if str_eq t "tool.started"
    then tool_started
    else if str_eq t "tool.completed"
    then tool_completed
    else if str_eq t "tool.failed"
    then tool_failed
    else if str_eq t "step.completed"
    then step_completed
    else if str_eq t "inbox.message"
    then inbox_message
    else if str_eq t "inbox.consumed"
    then inbox_consumed
    else if str_eq t "fact.confirmed"
    then fact_confirmed
    else if str_eq t "hypothesis.updated"
    then hypothesis_updated
    else if str_eq t "work_item.added"
    then work_item_added
    else if str_eq t "work_item.completed"
    then work_item_completed
    else if str_eq t "approval.requested"
    then approval_requested
    else if str_eq t "approval.decided"
    then approval_decided
    else if str_eq t "run.cancelling"
    then run_cancelling
    else if str_eq t "run.completed"
    then run_completed
    else if str_eq t "run.cancelled"
    then run_cancelled
    else if str_eq t "run.failed"
    then run_failed
    else if str_eq t "run.failed_uncertain"
    then run_failed_uncertain
    else unsupported

-- The events whose handling appends a message for the provider.
abbrev pub is_message_event : EventKind → Bool
is_message_event operator_message = true
is_message_event context_injected = true
is_message_event alert_received = true
is_message_event goal_set = true
is_message_event evidence_recorded = true
is_message_event assistant_message = true
is_message_event tool_completed = true
is_message_event tool_failed = true
is_message_event inbox_consumed = true
is_message_event _ = false
