-- ===== src/Agents/Runtime.antt =====
-- incident_guard/agents/event_runtime.py: `EventDrivenAgentRuntime`, a loop that keeps all its state in
-- the events of the store. What it awaits may raise, and may change the store too: while the runtime
-- waits, an operator can submit a message, cancel the run or decide an approval.
pub mod Approvals
pub mod Log
pub mod Serialization
pub mod Steps
pub mod Calls
pub mod Drive
pub mod Entry
pub mod Quiet
pub mod Mutation
pub mod Steady
pub mod Whole
pub mod Public
pub mod History
pub mod Readings
pub mod Decisions
use incident_guard.Prelude.{
  ℕ, zero, suc, ◌+◌, String, Bool, true, false, not, ◌&&◌, ◌||◌, Option, none, some, List, [], ◌∷◌,
  Result, ok, err, str_eq, values, Dict, if◌then◌else◌, ltb,
}
use incident_guard.Json.{
  Fields, Value, Items, pos, null, str, int, arr, obj, nil, cons, field, end, get, length_items,
}
use incident_guard.Agents.Effects.{Act}
use incident_guard.Agents.Provider.{ToolCall, ProviderResponse, ProviderUsage, ProviderEvent}
use incident_guard.Agents.RunModels.{ToolObservation}
use incident_guard.Agents.React.{RunLimits}
use incident_guard.Agents.Tools.{PolicyDecision}
use incident_guard.Events.Store.{RunEvent, Store}
use incident_guard.Events.Inbox.{Stamp}
use incident_guard.Events.Projected.{
  ToolState, started, ToolProjection, AssistantRecord, RunProjection,
}
use incident_guard.Context.Snapshot.{TokenEstimator}

-- The store, the number of ids and times drawn so far, and the state of all other code.
pub record Session (W : Type 0) : Type 0 where
  pub store : Store
  pub drawn : ℕ
  pub world : W

-- What `_preflight` returns; an executor without `preflight` returns `None`.
pub data Preflight : Type 0 where
  nothing : Preflight
  decided : PolicyDecision → Preflight
  observed : ToolObservation → Preflight

-- `StoredToolResult` of artifact_store.py
pub record StoredToolResult : Type 0 where
  pub context_content : String
  pub sha256 : String
  pub byte_size : ℕ
  pub reference : Option String

-- The arguments of the constructor, and the library functions that the methods call.
pub record Environment (W : Type 0) : Type 0 where
  -- `provider.stream(context)`, and what awaiting each of its events does, in order: `none` is the end
  -- of the stream, which also is behind the last
  pub stream : List Fields → Session W → List (Act (Session W) (Option ProviderEvent)) × Session W
  pub execute : ToolCall → Act (Session W) ToolObservation
  pub preflight : ToolCall → Act (Session W) Preflight
  -- `registry.resolve(name).effect` of an executor that has a registry with the name
  pub registered_effect : String → Option String
  pub limits : RunLimits
  pub fault_injector : RunEvent → Act (Session W) (Unit {0})
  pub emit : String → String → Fields → Act (Session W) (Unit {0})
  pub close_run : String → Act (Session W) (Unit {0})
  pub tool_result_store : Option (String → Act (Session W) StoredToolResult)
  pub context_token_budget : Option ℕ
  pub estimator : TokenEstimator
  pub stamps : ℕ → Stamp
  pub dumps : Fields → String
  pub loads : String → Option Value

abbrev pub is_mutation : ToolProjection → Bool
is_mutation tool = str_eq tool.effect "mutate"

abbrev pub has_started : ToolState → Bool
has_started started = true
has_started _ = false

abbrev pub first_uncertain : List ToolProjection → Option ToolProjection
first_uncertain [] = none
first_uncertain (t ∷ ts) =
    if has_started t.state && is_mutation t then some t else first_uncertain ts

-- `_uncertain_mutation`
unfoldable pub uncertain_mutation : RunProjection → Option ToolProjection
uncertain_mutation run = first_uncertain (values run.tools)

abbrev pub or_zero : Option ℕ → ℕ
or_zero none = 0
or_zero (some n) = n

unfoldable pub used_tokens : List AssistantRecord → ℕ
used_tokens [] = 0
used_tokens (r ∷ rs) = or_zero r.input_tokens + or_zero r.output_tokens + used_tokens rs

unfoldable pub used_tool_calls : List AssistantRecord → ℕ
used_tool_calls [] = 0
used_tool_calls (r ∷ rs) = length_items r.tool_calls + used_tool_calls rs

-- `_budget_failure`
unfoldable pub budget_failure : RunLimits → RunProjection → Option String
budget_failure limits run =
    if ltb limits.max_tokens (used_tokens run.assistant_records)
    then some "token budget exceeded: {token_count} > {max_tokens}"
    else if ltb limits.max_tool_calls (used_tool_calls run.assistant_records)
    then some "tool call budget exceeded: {tool_call_count} > {max_tool_calls}"
    else none

abbrev or_read : Option String → String
or_read none = "read"
or_read (some effect) = effect

-- `_tool_effect`
unfoldable pub tool_effect : {W : Type 0} → Environment W → ToolCall → String
tool_effect env call = or_read (env.registered_effect call.name)

abbrev error_code_of : Option Value → Option String
error_code_of (some (str code)) = some code
error_code_of _ = none

abbrev error_of : Option Value → Option Value
error_of (some (obj fs)) = get fs "code"
error_of _ = none

abbrev payload_error : Option Value → Option String
payload_error (some (obj fs)) = error_code_of (error_of (get fs "error"))
payload_error _ = none

-- `_observation_error_code`
unfoldable pub observation_error_code :
    {W : Type 0} → Environment W → ToolObservation → Option String
observation_error_code env o = payload_error (env.loads o.content)
