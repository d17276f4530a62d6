-- ===== src/Agents/Runtime/Calls.antt =====
-- incident_guard/agents/event_runtime.py: `_execute_current_tools`.
use incident_guard.Prelude.{
  ℕ, String, Bool, true, false, ◌&&◌, ◌||◌, Option, none, some, List, [], ◌∷◌, if◌then◌else◌,
  str_append, str_eq, ◌==◌, leb, keep_if, values,
}
use incident_guard.Json.{Fields, obj, bool, str, field, end}
use incident_guard.Agents.Effects.{
  timed_out, failed_with, crashed, Reply, gives, throws, Act, give, lift, ◌>>=◌, ◌>>◌,
}
use incident_guard.Agents.Provider.{ToolCall, new_tool_call}
use incident_guard.Agents.RunModels.{ToolObservation, new_observation}
use incident_guard.Agents.Tools.Actions.{or_else}
use incident_guard.Agents.Tools.Calls.{is_ask}
use incident_guard.Agents.Runtime.{
  Session, Environment, Preflight, decided, observed, is_mutation, observation_error_code,
}
use incident_guard.Agents.Runtime.Approvals.{approval_id, durable_approval}
use incident_guard.Agents.Runtime.Log.{
  append_event, project_run, fail_session, fail_uncertain, tool_result_payload, status_payload,
}
use incident_guard.Events.Locals.{is_cancelling}
use incident_guard.Events.Projected.{
  ToolState, requested, started, completed, failed, ToolProjection, RunProjection,
}

abbrev insert_by_index : ToolProjection → List ToolProjection → List ToolProjection
insert_by_index t [] = t ∷ []
insert_by_index t (u ∷ us) =
    if leb t.call_index u.call_index then t ∷ u ∷ us else u ∷ insert_by_index t us

-- `sorted(tools, key=lambda item: item.call_index)`
abbrev sort_by_index : List ToolProjection → List ToolProjection
sort_by_index [] = []
sort_by_index (t ∷ ts) = insert_by_index t (sort_by_index ts)

abbrev in_step : ℕ → Option ℕ → ToolProjection → Bool
in_step turn none tool = false
in_step turn (some step) tool = tool.turn_number == turn && tool.step_number == step

unfoldable pub current_tools : RunProjection → List ToolProjection
current_tools p =
    sort_by_index (keep_if (in_step p.turn_number p.current_step_number) (values p.tools))

abbrev pub call_fields : ToolCall → Fields → Fields
call_fields call rest = field "call_id" (str call.id) (field "name" (str call.name) rest)

abbrev pub has_ended : ToolState → Bool
has_ended completed = true
has_ended failed = true
has_ended _ = false

abbrev asks_policy : Preflight → Bool
asks_policy (decided d) = is_ask d.action
asks_policy _ = false

abbrev approval_reason : Preflight → String → String
approval_reason (decided d) default = or_else d.reason default
approval_reason _ default = default

abbrev is_uncertain_code : Option String → Bool
is_uncertain_code none = false
is_uncertain_code (some code) = str_eq code "execution_failed" || str_eq code "timeout"

-- The bodies below return whether the loop over the tools goes on.
module _ {W : Type 0} (env : Environment W) (run_id : String) where
  unfoldable pub append_started : ToolCall → ToolProjection → Act (Session W) (Unit {0})
  append_started call tool = do
    event ←
        append_event env run_id "tool.started"
          (call_fields call (field "effect" (str tool.effect) end))
    give tt

  unfoldable pub append_result : String → ToolCall → ToolObservation → Act (Session W) (Unit {0})
  append_result event_type call o = do
    payload ← tool_result_payload env o
    event ←
        append_event env run_id event_type
          (call_fields call (field "is_error" (bool o.is_error) payload))
    give tt

  -- A tool that the checks before the execution refuse.
  unfoldable pub record_refusal : ToolCall → ToolProjection → ToolObservation → Act (Session W) Bool
  record_refusal call tool o = do
    append_started call tool
    payload ← tool_result_payload env o
    event ←
        append_event env run_id "tool.failed"
          (call_fields call (field "is_error" (bool true) payload))
    give true

  unfoldable pub stop_uncertain : ToolCall → Act (Session W) Bool
  stop_uncertain call = do p ← fail_uncertain env run_id call.id; give false

  unfoldable pub ask_operator : ToolCall → String → Act (Session W) Bool
  ask_operator call reason = do
    event ← append_event env run_id "approval.requested" (
        field "request_id" (str (approval_id call.id))
          (field "call_id" (str call.id) (field "reason" (str reason) end)))
    env.emit run_id "runtime.status" (
        status_payload "waiting_approval"
          (field "request_id" (str (approval_id call.id)) (field "call_id" (str call.id) end)))
    give false

  unfoldable pub record_observation :
      ToolCall → ToolProjection → ToolObservation → Act (Session W) Bool
  record_observation call tool o =
      if is_mutation tool && o.is_error && is_uncertain_code (observation_error_code env o)
      then stop_uncertain call
      else (do
        append_result (if o.is_error then "tool.failed" else "tool.completed") call o
        env.emit run_id "tool.progress" (field "phase" (str "completed") (call_fields call end))
        give true)

  -- An exception of the execution.
  unfoldable pub execution_raised : String → ToolCall → ToolProjection → Act (Session W) Bool
  execution_raised message call tool = if is_mutation tool then stop_uncertain call else (do
    o ← lift (
        new_observation call.id call.name
          (env.dumps (
            field "error"
              (obj (field "code" (str "execution_failed") (field "message" (str message) end)))
              end))
          true)
    record_observation call tool o)

  -- The `except` clause around the execution; the end of the time passes through it.
  unfoldable pub settle_execution :
      ToolCall → ToolProjection → Reply ToolObservation × Session W → Reply Bool × Session W
  settle_execution call tool (gives o, s) = record_observation call tool o s
  settle_execution call tool (throws timed_out, s) = (throws timed_out, s)
  settle_execution call tool (throws (crashed message), s) = execution_raised message call tool s
  settle_execution call tool (throws (failed_with message), s) =
      execution_raised message call tool s

  -- The execution of a tool that has been started.
  unfoldable pub execute_started : ToolCall → ToolProjection → Act (Session W) Bool
  execute_started call tool = do
    env.emit run_id "tool.progress" (field "phase" (str "started") (call_fields call end))
    λ s. settle_execution call tool (env.execute call s)

  unfoldable pub start_and_execute : ToolCall → ToolProjection → Act (Session W) Bool
  start_and_execute call tool = do append_started call tool; execute_started call tool

  unfoldable pub by_approval :
      ToolCall → ToolProjection → Preflight → Option Bool → Act (Session W) Bool
  by_approval call tool checked none =
      ask_operator call
        (approval_reason checked (str_append "operator approval required for " call.name))
  by_approval call tool checked (some false) = do
    p ← fail_session env run_id (str_append "operator rejected " call.id)
    give false
  by_approval call tool checked (some true) = start_and_execute call tool

  -- A tool that has passed the checks: an approval first where one is required.
  unfoldable pub after_preflight : ToolCall → ToolProjection → Preflight → Act (Session W) Bool
  after_preflight call tool (observed o) s = record_refusal call tool o s
  after_preflight call tool checked s =
      if is_mutation tool || asks_policy checked
      then (do
        approval ← lift (durable_approval run_id call.id s.store)
        by_approval call tool checked approval)
          s
      else start_and_execute call tool s

  unfoldable pub run_in_state : ToolCall → ToolProjection → ToolState → Act (Session W) Bool
  run_in_state call tool requested = do
    checked ← env.preflight call
    after_preflight call tool checked
  run_in_state call tool started =
      if is_mutation tool then stop_uncertain call else execute_started call tool
  run_in_state call tool completed = give true
  run_in_state call tool failed = give true

  -- One round of the loop for a tool that has not ended.
  unfoldable pub run_unless_cancelling : ToolProjection → RunProjection → Act (Session W) Bool
  run_unless_cancelling tool p = if is_cancelling p.status then give false else (do
    call ← lift (new_tool_call tool.call_id tool.name tool.arguments)
    run_in_state call tool tool.state)

  unfoldable pub run_tool : ToolProjection → Act (Session W) Bool
  run_tool tool =
      if has_ended tool.state
      then give true
      else (do p ← project_run env run_id; run_unless_cancelling tool p)

  abbrev pub while_true : Act (Session W) (Unit {0}) → Bool → Act (Session W) (Unit {0})
  while_true rest true = rest
  while_true rest false = give tt

  unfoldable pub run_each_tool : List ToolProjection → Act (Session W) (Unit {0})
  run_each_tool [] = give tt
  run_each_tool (t ∷ ts) = do continues ← run_tool t; while_true (run_each_tool ts) continues

  unfoldable pub execute_current_tools : RunProjection → Act (Session W) (Unit {0})
  execute_current_tools p = run_each_tool (current_tools p)
