-- ===== src/Agents/React/Answers.antt =====
-- The tokens of a turn of incident_guard/agents/react_runtime.py: the tools, the goal gate and the ends.
use incident_guard.Prelude.{
  ℕ, ◌+◌, ◌≤◌, String, ◌≡◌, refl, ap, Option, none, some, List, [], ◌∷◌, ◌++◌, arith, length,
  Bool-cases, inl, inr, ltb,
}
use incident_guard.Agents.Effects.{Reply, Ends, Ends-bind, Ends-lift, lift, next}
use incident_guard.Agents.Provider.{StopReason, end_turn, tool_use, max_tokens, ProviderResponse}
use incident_guard.Agents.RunModels.{
  RunStatus, failed, completed, ToolObservation, StepResult, AgentRun, TurnResult, new_turn_result,
  append_turn, transition, total_tokens, turns_tokens, step_tokens, usage_tokens,
}
use incident_guard.Agents.GoalGate.{GoalGateDecision}
use incident_guard.Agents.React.{RunLimits, Agent, Loop}
use incident_guard.Agents.React.Rounds.{
  outside, execute_by, append_step, close_turn, finish, run_tools, use_tools, gate_decided,
  ask_gate, after_step, answer, spend, run,
}
use incident_guard.Agents.React.Tokens.{
  Covers, Fits, Raised, RoundEnds, Rounded, outside-Kept, execute_by-Kept, append_step-Kept,
  over_budget-Rounded, turns_tokens-append, new_turn_result-steps, append_turn-turns,
  transition-keeps, WithinBudget,
}

module _ {W : Type 0} (agent : Agent W) (limits : RunLimits) where
  -- The count covers the turns, of which the last has the steps at hand.
  abbrev Closed : Loop W → Type 0
  Closed s = (turns_tokens s.run.turns ≤ s.token_count) × (s.token_count ≤ limits.max_tokens)

  close_turn-Closed :
      (s : Loop W)
      → Fits agent limits 0 s
      → Ends (λ (u : Unit {0}) s1. Closed s1) (Raised agent limits) (close_turn agent limits s)
  unfolding close_turn
  close_turn-Closed s g =
      Ends-bind (λ (turn : TurnResult) s1. (turn.steps ≡ s.steps) × (s1 ≡ s)) _
        (Raised agent limits) _ (lift (new_turn_result (length s.run.turns + 1) s.steps) s)
        (Ends-lift _ (Raised agent limits) (new_turn_result (length s.run.turns + 1) s.steps) s tt
          (λ turn e. (new_turn_result-steps (length s.run.turns + 1) s.steps turn e, refl)))
        (λ turn s1 h.
          Ends-bind (λ (run : AgentRun) s2. (run.turns ≡ s.run.turns ++ turn ∷ []) × (s2 ≡ s)) _
            (Raised agent limits) _ (lift (append_turn s.run turn) s1)
            (Ends-lift _ (Raised agent limits) (append_turn s.run turn) s1 tt
              (λ run e. (append_turn-turns s.run run turn e, h.1)))
            (λ run s2 j. closed turn run s2 h.0 j.0 j.1))
    where
      closed :
          (turn : TurnResult) (run : AgentRun) (s2 : Loop W)
          → turn.steps ≡ s.steps
          → run.turns ≡ s.run.turns ++ turn ∷ []
          → s2 ≡ s
          → Closed (record s2 { run = run })
      closed turn run s2 t r e =
          rw (e, r)
            (omega (arith, g.0, turns_tokens-append s.run.turns (turn ∷ []), ap step_tokens t), g.1)

  finish-Rounded :
      (status : RunStatus) (reason : Option String) (s : Loop W)
      → Fits agent limits 0 s
      → Rounded agent limits (finish agent limits status reason s)
  unfolding finish total_tokens
  finish-Rounded status reason s g =
      Ends-bind (λ (u : Unit {0}) s1. Closed s1) (RoundEnds agent limits) (Raised agent limits) _
        (close_turn agent limits s) (close_turn-Closed s g)
        (λ u s1 h.
          Ends-bind (λ (run : AgentRun) s2. WithinBudget limits run) (RoundEnds agent limits)
            (Raised agent limits) _ (lift (transition s1.run status reason) s1)
            (Ends-lift _ (Raised agent limits) (transition s1.run status reason) s1 tt (λ run e c.
              omega
                (arith, h.0, h.1, ap turns_tokens (transition-keeps s1.run run status reason e).0)))
            (λ run s2 j. j))

  gate_decided-Rounded :
      (response : ProviderResponse) (decision : GoalGateDecision) (s : Loop W)
      → Fits agent limits 0 s
      → Rounded agent limits (gate_decided agent limits response decision s)
  unfolding gate_decided
  gate_decided-Rounded response decision s g = elim (Bool-cases decision.allowed) [
    | inl allowed ↦ rw allowed (finish-Rounded completed none s g)
    | inr blocked ↦ rw blocked (
        Ends-bind (λ (u : Unit {0}) s1. Closed s1) (RoundEnds agent limits) (Raised agent limits) _
          (close_turn agent limits s) (close_turn-Closed s g) (λ u s1 h. (omega (arith, h.0), h.1)))
  ]

  ask_gate-Rounded :
      (gate : Option (String → List StepResult → W → Reply GoalGateDecision × W))
      (response : ProviderResponse) (s : Loop W)
      → Fits agent limits 0 s
      → Rounded agent limits (ask_gate agent limits gate response s)
  unfolding ask_gate
  ask_gate-Rounded none response s g = finish-Rounded completed none s g
  ask_gate-Rounded (some evaluate) response s g =
      Ends-bind (λ (d : GoalGateDecision) s1. Fits agent limits 0 s1) (RoundEnds agent limits)
        (Raised agent limits) _ (outside agent limits (evaluate s.run.run_id s.steps) s)
        (outside-Kept agent limits 0 (evaluate s.run.run_id s.steps) s g)
        (λ d s1 h. gate_decided-Rounded response d s1 h)

  after_step-Rounded :
      (response : ProviderResponse) (reason : StopReason) (s : Loop W)
      → Fits agent limits 0 s
      → Rounded agent limits (after_step agent limits response reason s)
  unfolding after_step
  after_step-Rounded response end_turn s g = ask_gate-Rounded agent.goal_gate response s g
  after_step-Rounded response max_tokens s g = finish-Rounded failed _ s g
  after_step-Rounded response tool_use s g = finish-Rounded failed _ s g

  run_tools-Rounded :
      (n : ℕ) (response : ProviderResponse) (s : Loop W)
      → Fits agent limits (usage_tokens response.usage) s
      → Rounded agent limits (run_tools agent limits n response s)
  unfolding run_tools
  run_tools-Rounded n response s g =
      Ends-bind
        (λ (os : List ToolObservation) s1. Fits agent limits (usage_tokens response.usage) s1)
        (RoundEnds agent limits) (Raised agent limits) _
        (execute_by agent limits agent.execute_batch response.tool_calls s)
        (execute_by-Kept agent limits (usage_tokens response.usage) agent.execute_batch
          response.tool_calls s g)
        (λ os s1 h.
          Ends-bind (λ (step : StepResult) s2. Fits agent limits 0 s2) (RoundEnds agent limits)
            (Raised agent limits) _ (append_step agent limits n response os (counted s1))
            (append_step-Kept agent limits n response os (counted s1) h) (λ step s2 j. j))
    where
      counted : Loop W → Loop W
      counted l = record l { tool_call_count = l.tool_call_count + length response.tool_calls }

  use_tools-Rounded :
      (n : ℕ) (response : ProviderResponse) (s : Loop W)
      → Fits agent limits (usage_tokens response.usage) s
      → Rounded agent limits (use_tools agent limits n response s)
  unfolding use_tools
  use_tools-Rounded n response s g =
      elim (Bool-cases
        (ltb limits.max_tool_calls (s.tool_call_count + length response.tool_calls))) [
          | inl over ↦ rw over (over_budget-Rounded agent limits n response _ s)
          | inr within ↦ rw within (run_tools-Rounded n response s g)
        ]

  stepped-Rounded :
      (n : ℕ) (response : ProviderResponse) (reason : StopReason) (s : Loop W)
      → Fits agent limits (usage_tokens response.usage) s
      → Rounded agent limits (
          next
            (λ step. after_step agent limits response reason)
            (append_step agent limits n response [] s))
  stepped-Rounded n response reason s g =
      Ends-bind (λ (step : StepResult) s1. Fits agent limits 0 s1) (RoundEnds agent limits)
        (Raised agent limits) _ (append_step agent limits n response [] s)
        (append_step-Kept agent limits n response [] s g)
        (λ step s1 h. after_step-Rounded response reason s1 h)

  answer-Rounded :
      (n : ℕ) (response : ProviderResponse) (reason : StopReason) (s : Loop W)
      → Fits agent limits (usage_tokens response.usage) s
      → Rounded agent limits (answer agent limits n response reason s)
  unfolding answer
  answer-Rounded n response tool_use s g = use_tools-Rounded n response s g
  answer-Rounded n response end_turn s g = stepped-Rounded n response end_turn s g
  answer-Rounded n response max_tokens s g = stepped-Rounded n response max_tokens s g

  pub spend-Rounded :
      (n : ℕ) (response : ProviderResponse) (s : Loop W)
      → Covers agent limits (usage_tokens response.usage) s
      → Rounded agent limits (spend agent limits n response s)
  unfolding spend
  spend-Rounded n response s g = elim (Bool-cases (ltb limits.max_tokens s.token_count)) [
    | inl over ↦ rw over (over_budget-Rounded agent limits n response _ s)
    | inr within ↦
        rw within (answer-Rounded n response response.stop_reason s (g, ground (arith, within)))
  ]
