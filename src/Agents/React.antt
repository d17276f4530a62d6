-- ===== src/Agents/React.antt =====
-- incident_guard/agents/react_runtime.py: `StructuredAgentRuntime`. The provider, the tool executor and
-- the goal gate act on a world `W`, the state outside the runtime; each of their calls may raise, also
-- because the time of the run is over.
pub mod Rounds
pub mod Closing
pub mod Steps
pub mod Gate
pub mod Ending
pub mod Tokens
pub mod Answers
pub mod Budget
use incident_guard.Prelude.{
  ℕ, zero, suc, ◌+◌, String, Bool, true, false, not, ◌&&◌, ◌||◌, Option, none, some, List, [], ◌∷◌,
  ◌++◌, map, Result, ok, err, value_error, length, has_text, if◌then◌else◌, ltb, leb, str_append,
}
use incident_guard.Json.{
  Fields, Value, Items, ℤ, pos, negsuc, Float, dyadic, str, bool, arr, obj, nil, cons, field, end,
}
use incident_guard.Agents.Effects.{
  Failure, timed_out, failed_with, Reply, gives, throws, Act, give, throw, lift, modify, get, ◌>>=◌,
  ◌>>◌,
}
use incident_guard.Agents.Provider.{
  StopReason, end_turn, tool_use, max_tokens, ToolCall, ProviderUsage, total_tokens_of,
  ProviderResponse, ProviderEvent, text_delta, tool_call, completed,
}
use incident_guard.Agents.RunModels.{
  RunStatus, running, failed, ToolObservation, StepResult, new_step_result, TurnResult,
  new_turn_result, AgentRun, new_agent_run, transition, append_turn,
}
use incident_guard.Agents.GoalGate.{GoalGateDecision, feedback}

pub record RunLimits : Type 0 where
  pub max_steps : ℕ
  pub timeout_seconds : Float
  pub max_tool_calls : ℕ
  pub max_tokens : ℕ

abbrev is_positive : Float → Bool
is_positive (dyadic (pos zero) k) = false
is_positive (dyadic (pos (suc n)) k) = true
is_positive (dyadic (negsuc n) k) = false

-- `RunLimits.__post_init__`
unfoldable pub new_run_limits : RunLimits → Result RunLimits
new_run_limits limits =
    if not (leb 1 limits.max_steps)
    then err (value_error "max_steps must be a positive int")
    else if not (is_positive limits.timeout_seconds)
    then err (value_error "timeout_seconds must be greater than zero")
    else ok limits

-- The events of a stream in order, and how it ends.
pub record Stream : Type 0 where
  pub events : List ProviderEvent
  pub ending : Reply (Unit {0})

pub record Agent (W : Type 0) : Type 0 where
  pub stream : List Fields → W → Stream × W
  pub execute : ToolCall → W → Reply ToolObservation × W
  pub execute_batch : Option (List ToolCall → W → Reply (List ToolObservation) × W)
  pub goal_gate : Option (String → List StepResult → W → Reply GoalGateDecision × W)

-- The local variables of `run`.
pub record Loop (W : Type 0) : Type 0 where
  pub run : AgentRun
  pub context : List Fields
  pub steps : List StepResult
  pub tool_call_count : ℕ
  pub token_count : ℕ
  pub world : W

-- `_generate_response`, from the response that has been completed so far
abbrev pub collect :
    Option ProviderResponse → List ProviderEvent → Reply (Unit {0}) → Reply ProviderResponse
collect (some r) (e ∷ es) ending = throws (failed_with "Provider emitted events after completed")
collect none (completed r ∷ es) ending = collect (some r) es ending
collect none (text_delta t ∷ es) ending = collect none es ending
collect none (tool_call c ∷ es) ending = collect none es ending
collect response [] (throws f) = throws f
collect (some r) [] (gives u) = gives r
collect none [] (gives u) = throws (failed_with "Provider stream ended without completed event")

abbrev call_items : List ToolCall → Items
call_items [] = nil
call_items (c ∷ cs) =
    cons
      (obj (
        field "id" (str c.id)
          (field "name" (str c.name) (field "arguments" (obj c.arguments) end))))
      (call_items cs)

abbrev observation_message : ToolObservation → Fields
observation_message o = field "role" (str "tool") (
    field "tool_call_id" (str o.call_id) (
      field "name" (str o.name)
        (field "content" (str o.content) (field "is_error" (bool o.is_error) end))))

-- What `_append_step_context` appends.
unfoldable pub step_context : StepResult → List Fields
step_context step =
    field "role" (str "assistant") (
      field "content" (str step.response.text)
        (field "tool_calls" (arr (call_items step.response.tool_calls)) end))
    ∷ map observation_message step.observations

-- What `_append_goal_gate_context` appends.
unfoldable pub gate_context : String → String → List Fields
gate_context response_text advice =
    field "role" (str "assistant") (field "content" (str response_text) end)
    ∷ field "role" (str "system") (field "content" (str advice) end)
    ∷ []

-- `if steps: run = run.append_turn(...)` of `_fail`
abbrev close_if_any : AgentRun → List StepResult → Result AgentRun
close_if_any run [] = ok run
close_if_any run (s ∷ ss) = elim (new_turn_result (length run.turns + 1) (s ∷ ss)) [
  | ok turn ↦ append_turn run turn
  | err e ↦ err e
]

-- `_fail`
unfoldable pub fail_run : AgentRun → List StepResult → String → Result AgentRun
fail_run run steps reason = elim (close_if_any run steps) [
  | ok closed ↦ transition closed failed (some reason)
  | err e ↦ err e
]
