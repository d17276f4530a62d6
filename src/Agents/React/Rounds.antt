-- ===== src/Agents/React/Rounds.antt =====
-- incident_guard/agents/react_runtime.py: the methods of `StructuredAgentRuntime`.
use incident_guard.Prelude.{
  ℕ, zero, suc, ◌+◌, String, Option, none, some, List, [], ◌∷◌, ◌++◌, Result, ok, err, length,
  if◌then◌else◌, ltb, str_append,
}
use incident_guard.Json.{Fields}
use incident_guard.Agents.Effects.{
  timed_out, failed_with, crashed, Reply, gives, throws, Act, give, lift, modify, get, ◌>>=◌, ◌>>◌,
}
use incident_guard.Agents.Provider.{
  StopReason, end_turn, tool_use, max_tokens, ToolCall, ProviderUsage, total_tokens_of,
  ProviderResponse,
}
use incident_guard.Agents.RunModels.{
  RunStatus, running, failed, ToolObservation, StepResult, new_step_result, new_turn_result,
  AgentRun, new_agent_run, transition, append_turn,
}
use incident_guard.Agents.GoalGate.{GoalGateDecision, feedback}
use incident_guard.Agents.React.{
  RunLimits, Agent, Loop, collect, step_context, gate_context, fail_run,
}

module _ {W : Type 0} (agent : Agent W) (limits : RunLimits) where
  -- An awaited call of code outside the runtime.
  abbrev pub outside : {A : Type 0} → (W → Reply A × W) → Act (Loop W) A
  outside f s = let r = f s.world in (r.0, record s { world = r.1 })

  abbrev pub generate_response : Act (Loop W) ProviderResponse
  generate_response s =
      let r = agent.stream s.context s.world in
      (collect none r.0.events r.0.ending, record s { world = r.1 })

  unfoldable pub execute_each : List ToolCall → Act (Loop W) (List ToolObservation)
  execute_each [] = give []
  execute_each (c ∷ cs) = do
    observation ← outside (agent.execute c)
    observations ← execute_each cs
    give (observation ∷ observations)

  -- `execute_batch` where the executor has it.
  unfoldable pub execute_by :
      Option (List ToolCall → W → Reply (List ToolObservation) × W)
      → List ToolCall
      → Act (Loop W) (List ToolObservation)
  execute_by (some batch) calls = outside (batch calls)
  execute_by none calls = execute_each calls

  abbrev pub add_step : StepResult → Loop W → Loop W
  add_step step s = record s { steps = s.steps ++ step ∷ [] }

  -- `steps.append(StepResult(...))`
  unfoldable pub append_step : ℕ → ProviderResponse → List ToolObservation → Act (Loop W) StepResult
  append_step step_number response observations = do
    step ← lift (new_step_result step_number response observations)
    modify (add_step step)
    give step

  -- `return self._fail(run, steps, reason)`
  unfoldable pub stop : String → Act (Loop W) (Option AgentRun)
  stop reason = do s ← get; run ← lift (fail_run s.run s.steps reason); give (some run)

  -- `run = run.append_turn(TurnResult(len(run.turns) + 1, steps))`
  unfoldable pub close_turn : Act (Loop W) (Unit {0})
  close_turn = do
    s ← get
    turn ← lift (new_turn_result (length s.run.turns + 1) s.steps)
    run ← lift (append_turn s.run turn)
    modify (λ l. record l { run = run })

  unfoldable pub finish : RunStatus → Option String → Act (Loop W) (Option AgentRun)
  finish status reason = do
    close_turn
    s ← get
    run ← lift (transition s.run status reason)
    give (some run)

  -- A step that goes over a budget is kept, without observations, and ends the run.
  unfoldable pub over_budget : ℕ → ProviderResponse → String → Act (Loop W) (Option AgentRun)
  over_budget step_number response reason = do
    step ← append_step step_number response []
    stop reason

  unfoldable pub run_tools : ℕ → ProviderResponse → Act (Loop W) (Option AgentRun)
  run_tools step_number response = do
    observations ← execute_by agent.execute_batch response.tool_calls
    modify (λ l. record l { tool_call_count = l.tool_call_count + length response.tool_calls })
    step ← append_step step_number response observations
    modify (λ l. record l { context = l.context ++ step_context step })
    give none

  -- The branch of a response that asks for tools.
  unfoldable pub use_tools : ℕ → ProviderResponse → Act (Loop W) (Option AgentRun)
  use_tools step_number response s =
      if ltb limits.max_tool_calls (s.tool_call_count + length response.tool_calls)
      then over_budget step_number response
          "tool call budget exceeded: {tool_call_count + requested_count} > {max_tool_calls}" s
      else run_tools step_number response s

  -- A decision that does not allow the end closes the turn and goes on.
  unfoldable pub gate_decided : ProviderResponse → GoalGateDecision → Act (Loop W) (Option AgentRun)
  gate_decided response decision s =
      if decision.allowed
      then finish RunStatus.completed none s
      else (do
        close_turn
        modify (λ l. record l {
          context = l.context ++ gate_context response.text (feedback decision);
          steps = [];
        })
        give none)
          s

  unfoldable pub ask_gate :
      Option (String → List StepResult → W → Reply GoalGateDecision × W)
      → ProviderResponse
      → Act (Loop W) (Option AgentRun)
  ask_gate none response s = finish RunStatus.completed none s
  ask_gate (some evaluate) response s =
      (do decision ← outside (evaluate s.run.run_id s.steps); gate_decided response decision) s

  unfoldable pub after_step : ProviderResponse → StopReason → Act (Loop W) (Option AgentRun)
  after_step response end_turn = ask_gate agent.goal_gate response
  after_step response max_tokens =
      finish failed (some "provider stopped because max_tokens was reached")
  after_step response tool_use =
      finish failed (some "provider stopped because max_tokens was reached")

  unfoldable pub answer : ℕ → ProviderResponse → StopReason → Act (Loop W) (Option AgentRun)
  answer step_number response tool_use = use_tools step_number response
  answer step_number response reason = do
    step ← append_step step_number response []
    after_step response reason

  abbrev pub usage_of : Option ProviderUsage → ℕ
  usage_of none = 0
  usage_of (some usage) = total_tokens_of usage

  unfoldable pub spend : ℕ → ProviderResponse → Act (Loop W) (Option AgentRun)
  spend step_number response s =
      if ltb limits.max_tokens s.token_count
      then over_budget step_number response "token budget exceeded: {token_count} > {max_tokens}" s
      else answer step_number response response.stop_reason s

  -- One round of the `for`: none if the loop goes on, or else what `run` returns.
  unfoldable pub round : Act (Loop W) (Option AgentRun)
  round = do
    s ← get
    response ← generate_response
    modify (λ l. record l { token_count = l.token_count + usage_of response.usage })
    spend (length s.steps + 1) response

  -- A round that returns ends the loop.
  abbrev pub unless_done : Act (Loop W) AgentRun → Option AgentRun → Act (Loop W) AgentRun
  unless_done rest (some run) = give run
  unless_done rest none = rest

  -- The rounds that are left; none left is the end of the `for`.
  unfoldable pub rounds : ℕ → Act (Loop W) AgentRun
  rounds zero = do
    s ← get
    lift (fail_run s.run s.steps "step budget exhausted after {max_steps} steps")
  rounds (suc n) = do result ← round; unless_done (rounds n) result

  -- The `except` clauses.
  unfoldable pub caught : Reply AgentRun × Loop W → Result AgentRun × W
  caught (gives run, s) = (ok run, s.world)
  caught (throws timed_out, s) =
      (fail_run s.run s.steps "run timeout exceeded after {timeout_seconds} seconds", s.world)
  caught (throws (crashed message), s) =
      (fail_run s.run s.steps (str_append "runtime failure: " message), s.world)
  caught (throws (failed_with message), s) =
      (fail_run s.run s.steps (str_append "runtime failure: " message), s.world)

  unfoldable pub start : AgentRun → List Fields → W → Loop W
  start run messages w = record {
    run = run;
    context = messages;
    steps = [];
    tool_call_count = 0;
    token_count = 0;
    world = w;
  }

  abbrev pub started : String → Result AgentRun
  started run_id = elim (new_agent_run run_id RunStatus.created [] none) [
    | ok run ↦ transition run running none
    | err e ↦ err e
  ]

  unfoldable pub run : String → List Fields → W → Result AgentRun × W
  run run_id messages w = elim (started run_id) [
    | ok fresh ↦ caught (rounds limits.max_steps (start fresh messages w))
    | err e ↦ (err e, w)
  ]
