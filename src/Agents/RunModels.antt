-- ===== src/Agents/RunModels.antt =====
-- incident_guard/agents/run_models.py: the states of a run, its turns and steps.
pub mod Transitions
pub mod Turns
use incident_guard.Prelude.{
  ℕ, ◌+◌, String, Bool, true, false, not, ◌&&◌, ◌||◌, Option, none, some, List, [], ◌∷◌, ◌++◌,
  Result, ok, err, value_error, ◌>>=◌, ◌>>◌, raise_if, if◌then◌else◌, has_text, length, leb, ◌==◌,
}
use incident_guard.Agents.Provider.{ToolCall, ProviderUsage, ProviderResponse, total_tokens_of}

pub data RunStatus : Type 0 where
  created running waiting_approval cancelling completed cancelled failed failed_uncertain :
      RunStatus

abbrev pub is_terminal : RunStatus → Bool
is_terminal completed = true
is_terminal cancelled = true
is_terminal failed = true
is_terminal failed_uncertain = true
is_terminal _ = false

-- `_ALLOWED_TRANSITIONS[source]` contains `target`
abbrev pub allowed_transition : RunStatus → RunStatus → Bool
allowed_transition created running = true
allowed_transition created cancelled = true
allowed_transition running waiting_approval = true
allowed_transition running cancelling = true
allowed_transition running completed = true
allowed_transition running failed = true
allowed_transition running failed_uncertain = true
allowed_transition waiting_approval running = true
allowed_transition waiting_approval cancelling = true
allowed_transition waiting_approval failed = true
allowed_transition cancelling cancelled = true
allowed_transition cancelling failed_uncertain = true
allowed_transition _ _ = false

pub record ToolObservation : Type 0 where
  pub call_id : String
  pub name : String
  pub content : String
  pub is_error : Bool

unfoldable pub new_observation : String → String → String → Bool → Result ToolObservation
new_observation call_id name content is_error = do
  raise_if (not (has_text call_id)) (value_error "ToolObservation call_id must be non-empty")
  raise_if (not (has_text name)) (value_error "ToolObservation name must be non-empty")
  ok (record { call_id = call_id; name = name; content = content; is_error = is_error })

pub record StepResult : Type 0 where
  pub step_number : ℕ
  pub response : ProviderResponse
  pub observations : List ToolObservation

unfoldable pub new_step_result : ℕ → ProviderResponse → List ToolObservation → Result StepResult
new_step_result step_number response observations = do
  raise_if (not (leb 1 step_number)) (value_error "StepResult step_number must be a positive int")
  ok (record { step_number = step_number; response = response; observations = observations })

pub record TurnResult : Type 0 where
  pub turn_number : ℕ
  pub steps : List StepResult

unfoldable pub new_turn_result : ℕ → List StepResult → Result TurnResult
new_turn_result turn_number steps = do
  raise_if (not (leb 1 turn_number)) (value_error "TurnResult turn_number must be a positive int")
  ok (record { turn_number = turn_number; steps = steps })

pub record AgentRun : Type 0 where
  pub run_id : String
  pub status : RunStatus
  pub turns : List TurnResult
  pub failure_reason : Option String

abbrev pub is_failure : RunStatus → Bool
is_failure failed = true
is_failure failed_uncertain = true
is_failure _ = false

-- The checks of `AgentRun.__post_init__` on `failure_reason`.
abbrev pub check_failure_reason : RunStatus → Option String → Result (Unit {0})
check_failure_reason status none =
    raise_if (is_failure status) (value_error "Failed AgentRun requires failure_reason")
check_failure_reason status (some reason) = do
  raise_if (not (has_text reason)) (value_error "AgentRun failure_reason must be non-empty or None")
  raise_if (not (is_failure status))
      (value_error "failure_reason is only valid for failed AgentRun")

unfoldable pub new_agent_run :
    String → RunStatus → List TurnResult → Option String → Result AgentRun
new_agent_run run_id status turns failure_reason = do
  raise_if (not (has_text run_id)) (value_error "AgentRun run_id must be non-empty")
  check_failure_reason status failure_reason
  ok (record { run_id = run_id; status = status; turns = turns; failure_reason = failure_reason })

-- `replace` runs `__post_init__` again.
unfoldable pub transition : AgentRun → RunStatus → Option String → Result AgentRun
unfolding new_agent_run
transition run status failure_reason = do
  raise_if (not (allowed_transition run.status status))
      (value_error "Illegal AgentRun transition: {self.status} -> {target}")
  new_agent_run run.run_id status run.turns failure_reason

abbrev pub is_running : RunStatus → Bool
is_running running = true
is_running _ = false

unfoldable pub append_turn : AgentRun → TurnResult → Result AgentRun
unfolding new_agent_run
append_turn run turn = do
  raise_if (not (is_running run.status))
      (value_error "Turns can only be appended while AgentRun is running")
  raise_if (not (turn.turn_number == length run.turns + 1))
      (value_error "Expected turn_number {expected_number}")
  new_agent_run run.run_id run.status (run.turns ++ turn ∷ []) run.failure_reason

abbrev step_tool_calls : List StepResult → ℕ
step_tool_calls [] = 0
step_tool_calls (s ∷ ss) = length s.response.tool_calls + step_tool_calls ss

abbrev pub usage_tokens : Option ProviderUsage → ℕ
usage_tokens none = 0
usage_tokens (some usage) = total_tokens_of usage

abbrev pub step_tokens : List StepResult → ℕ
step_tokens [] = 0
step_tokens (s ∷ ss) = usage_tokens s.response.usage + step_tokens ss

abbrev pub turns_tool_calls : List TurnResult → ℕ
turns_tool_calls [] = 0
turns_tool_calls (t ∷ ts) = step_tool_calls t.steps + turns_tool_calls ts

abbrev pub turns_tokens : List TurnResult → ℕ
turns_tokens [] = 0
turns_tokens (t ∷ ts) = step_tokens t.steps + turns_tokens ts

pub total_tool_calls : AgentRun → ℕ
total_tool_calls run = turns_tool_calls run.turns

unfoldable pub total_tokens : AgentRun → ℕ
total_tokens run = turns_tokens run.turns
