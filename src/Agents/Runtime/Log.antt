-- ===== src/Agents/Runtime/Log.antt =====
-- incident_guard/agents/event_runtime.py: how `EventDrivenAgentRuntime` reads and writes the events of
-- a run, and how it ends a run.
use incident_guard.Prelude.{
  ◌+◌, String, Bool, true, false, Option, none, some, List, Result, if◌then◌else◌, str_append,
  length,
}
use incident_guard.Json.{Fields, bool, str, field, end, int, pos}
use incident_guard.Agents.Effects.{
  failed_with, Act, give, throw, lift, modify, get as get_state, ◌>>=◌, ◌>>◌,
}
use incident_guard.Agents.RunModels.{is_terminal, ToolObservation}
use incident_guard.Agents.Runtime.{Session, Environment, StoredToolResult, uncertain_mutation}
use incident_guard.Events.Locals.{is_cancelling}
use incident_guard.Events.Store.{NewRunEvent, RunEvent, Store, append, replay}
use incident_guard.Events.Projected.{ToolProjection, RunProjection}
use incident_guard.Events.Inbox.{stamped, projection_of, consume, InboxTarget, InboxMessage}

abbrev pub status_payload : String → Fields → Fields
status_payload status rest = field "status" (str status) rest

module _ {W : Type 0} (env : Environment W) where
  -- A method of the store.
  abbrev pub on_store : {A : Type 0} → (Store → Result A × Store) → Act (Session W) A
  on_store f s = let r = f s.store in lift (r.0) (record s { store = r.1 })

  -- `event_store.replay(run_id)`
  unfoldable pub stored_events : String → Act (Session W) (List RunEvent)
  stored_events run_id s = lift (replay run_id 0 s.store) s

  -- `project`
  unfoldable pub project_run : String → Act (Session W) RunProjection
  project_run run_id s = lift (projection_of run_id s.store) s

  -- `NewRunEvent(event_type, payload)`, which draws an id and a time
  unfoldable pub draw_event : String → Fields → Act (Session W) NewRunEvent
  draw_event event_type payload s =
      lift (stamped event_type payload (env.stamps s.drawn)) (record s { drawn = s.drawn + 1 })

  abbrev pub require_live : RunProjection → Act (Session W) (Unit {0})
  require_live p =
      if is_terminal p.status
      then throw (failed_with "cannot append an event to a terminal run")
      else give tt

  -- `_append`, which projects the events before and after
  unfoldable pub append_event : String → String → Fields → Act (Session W) RunEvent
  append_event run_id event_type payload = do
    before ← project_run run_id
    require_live before
    made ← draw_event event_type payload
    event ← on_store (append run_id made)
    after ← project_run run_id
    env.fault_injector event
    give event

  -- `inbox.consume`
  unfoldable pub consume_inbox : String → InboxTarget → Act (Session W) (List InboxMessage)
  consume_inbox run_id target = do
    s ← get_state
    messages ← on_store (consume run_id target (λ n. env.stamps (s.drawn + n)))
    modify (λ (t : Session W). record t { drawn = t.drawn + length messages })
    give messages

  -- `_fail_uncertain`
  unfoldable pub fail_uncertain : String → String → Act (Session W) RunProjection
  fail_uncertain run_id call_id = do
    let reason : String = str_append "mutation outcome is uncertain for tool call " call_id
    event ← append_event run_id "run.failed_uncertain" (field "reason" (str reason) end)
    env.emit run_id "runtime.status"
        (status_payload "failed_uncertain" (field "reason" (str reason) end))
    project_run run_id

  unfoldable pub cancel_unless_uncertain :
      String → Option ToolProjection → Act (Session W) RunProjection
  cancel_unless_uncertain run_id (some tool) = fail_uncertain run_id tool.call_id
  cancel_unless_uncertain run_id none = do
    event ← append_event run_id "run.cancelled" end
    env.emit run_id "runtime.status" (status_payload "cancelled" end)
    project_run run_id

  -- `_finish_cancellation`
  unfoldable pub finish_cancellation : String → RunProjection → Act (Session W) RunProjection
  finish_cancellation run_id p = cancel_unless_uncertain run_id (uncertain_mutation p)

  unfoldable pub append_failure : String → String → Act (Session W) RunProjection
  append_failure run_id reason = do
    event ← append_event run_id "run.failed" (field "reason" (str reason) end)
    env.emit run_id "runtime.status" (status_payload "failed" (field "reason" (str reason) end))
    project_run run_id

  unfoldable pub fail_or_cancel : String → String → RunProjection → Act (Session W) RunProjection
  fail_or_cancel run_id reason p =
      if is_cancelling p.status then finish_cancellation run_id p else append_failure run_id reason

  -- `_fail`
  unfoldable pub fail_session : String → String → Act (Session W) RunProjection
  fail_session run_id reason = do p ← project_run run_id; fail_or_cancel run_id reason p

  abbrev optional_ref : Option String → Fields
  optional_ref none = end
  optional_ref (some reference) = field "content_ref" (str reference) end

  abbrev is_kept : Option String → Bool
  is_kept none = false
  is_kept (some reference) = true

  abbrev stored_payload : StoredToolResult → Fields
  stored_payload r = field "content" (str r.context_content) (
      field "content_sha256" (str r.sha256) (
        field "content_bytes" (int (pos r.byte_size))
          (field "content_externalized" (bool (is_kept r.reference)) (optional_ref r.reference))))

  unfoldable pub payload_by :
      Option (String → Act (Session W) StoredToolResult) → ToolObservation → Act (Session W) Fields
  payload_by none o = give (field "content" (str o.content) end)
  payload_by (some store) o = do stored ← store o.content; give (stored_payload stored)

  -- `_tool_result_payload`
  unfoldable pub tool_result_payload : ToolObservation → Act (Session W) Fields
  tool_result_payload o = payload_by env.tool_result_store o
