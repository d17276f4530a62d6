-- ===== src/Tests/React.antt =====
-- The bounded loop at concrete agents: one that ends its turn under a goal gate, and one that asks for
-- the same tool for ever. The world is the number of calls that the agent has made.
use incident_guard.Prelude.{
  ℕ, ◌+◌, String, ◌≤◌, ◌≡◌, refl, true, false, none, some, List, [], ◌∷◌, ok, has_text, is_blank,
  is_space,
}
use incident_guard.Json.{end, pos, dyadic}
use incident_guard.Agents.Effects.{Reply, gives}
use incident_guard.Agents.Provider.{
  end_turn, tool_use, ProviderResponse, ToolCall, completed, text_delta,
}
use incident_guard.Agents.RunModels.{
  RunStatus, AgentRun, ToolObservation, StepResult, new_step_result, new_turn_result, new_agent_run,
  transition, append_turn, total_tokens,
}
use incident_guard.Agents.GoalGate.{GoalGateDecision}
use incident_guard.Agents.React.{RunLimits, Agent, fail_run}
use incident_guard.Agents.React.Rounds.{
  run, rounds, round, spend, answer, use_tools, run_tools, execute_by, execute_each, append_step,
  after_step, ask_gate, gate_decided, finish, close_turn, caught, start,
}
use incident_guard.Agents.React.Steps.{Cleared}
use incident_guard.Agents.React.Ending.{run-Cleared}
use incident_guard.Agents.React.Budget.{run_within_budget}

abbrev limits : RunLimits
limits = record {
  max_steps = 2;
  timeout_seconds = dyadic (pos 30) (pos 0);
  max_tool_calls = 32;
  max_tokens = 100000;
}

abbrev answered : ProviderResponse
answered = record { text = "done"; stop_reason = end_turn; tool_calls = []; usage = none }

abbrev asks : ProviderResponse
asks = record {
  text = "";
  stop_reason = tool_use;
  tool_calls = record { id = "c1"; name = "read_logs"; arguments = end } ∷ [];
  usage = none;
}

abbrev observe : ToolCall → ℕ → Reply ToolObservation × ℕ
observe call n = (
  gives (record { call_id = call.id; name = call.name; content = "ok"; is_error = false }),
  n + 1,
)

abbrev permit : String → List StepResult → ℕ → Reply GoalGateDecision × ℕ
permit run_id steps n = (gives (record { allowed = true; missing_conditions = [] }), n)

abbrev closing : Agent ℕ
closing = record {
  stream = λ context n.
      (record { events = text_delta "do" ∷ completed answered ∷ []; ending = gives tt }, n + 1);
  execute = observe;
  execute_batch = none;
  goal_gate = some permit;
}

abbrev asking : Agent ℕ
asking = record {
  stream = λ context n. (record { events = completed asks ∷ []; ending = gives tt }, n + 1);
  execute = observe;
  execute_batch = none;
  goal_gate = none;
}

abbrev final : AgentRun
final = record {
  run_id = "run-1";
  status = RunStatus.completed;
  turns =
      record {
        turn_number = 1;
        steps = record { step_number = 1; response = answered; observations = [] } ∷ [];
      }
      ∷ [];
  failure_reason = none;
}

completes : (run closing limits "run-1" [] 0).0 ≡ ok final
unfolding run rounds round spend answer append_step after_step ask_gate gate_decided finish
    close_turn caught start new_step_result new_turn_result new_agent_run transition append_turn
    has_text is_blank is_space
completes = refl

-- Two rounds of a provider call and a tool call each, and no more.
exhausts : (run asking limits "run-1" [] 0).1 ≡ 4
unfolding run rounds round spend answer use_tools run_tools execute_by execute_each append_step
    caught start new_step_result new_agent_run transition fail_run has_text is_blank is_space
    new_turn_result append_turn
exhausts = refl

run-Cleared_example : Cleared closing final
unfolding has_text is_blank is_space
run-Cleared_example = run-Cleared closing limits "run-1" [] 0 final refl completes refl

abbrev tight : RunLimits
tight = record limits { max_tokens = 100 }

abbrev billed : ProviderResponse
billed = record answered { usage = some (record { input_tokens = 60; output_tokens = 40 }) }

abbrev paying : Agent ℕ
paying = record closing {
  stream = λ context n. (record { events = completed billed ∷ []; ending = gives tt }, n + 1);
}

abbrev paid : AgentRun
paid = record final {
  turns =
      record {
        turn_number = 1;
        steps = record { step_number = 1; response = billed; observations = [] } ∷ [];
      }
      ∷ [];
}

-- The whole budget is spent.
spends : total_tokens paid ≡ 100
unfolding total_tokens
spends = refl

run_within_budget_example : total_tokens paid ≤ 100
unfolding run rounds round spend answer append_step after_step ask_gate gate_decided finish
    close_turn caught start new_step_result new_turn_result new_agent_run transition append_turn
    has_text is_blank is_space
run_within_budget_example = run_within_budget paying tight "run-1" [] 0 paid refl refl
