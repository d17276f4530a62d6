-- ===== src/Agents/React/Gate.antt =====
-- What a round of incident_guard/agents/react_runtime.py does to a run that goes on: the goal gate and
-- the ends.
use incident_guard.Prelude.{
  ℕ, suc, ◌+◌, String, ◌≡◌, refl, true, Option, none, some, List, length, has_text, is_blank,
  Bool-cases, inl, inr, ltb, is_space,
}
use incident_guard.Agents.Effects.{Reply, gives, throws, next}
use incident_guard.Agents.Provider.{ProviderResponse}
use incident_guard.Agents.RunModels.{RunStatus, failed, StepResult, AgentRun}
use incident_guard.Agents.GoalGate.{GoalGateDecision}
use incident_guard.Agents.React.{RunLimits, Agent, Loop}
use incident_guard.Agents.React.Rounds.{finish, use_tools, gate_decided, ask_gate}
use incident_guard.Agents.React.Closing.{turn_of, closed-Going, close_turn-closed, finish-Ended}
use incident_guard.Agents.React.Steps.{
  Cleared, Goes, Rounded, over_budget-Rounded, run_tools-Rounded,
}

module _ {W : Type 0} (agent : Agent W) (limits : RunLimits) (limit : ℕ) where
  pub use_tools-Rounded :
      (n step_number : ℕ) (response : ProviderResponse) (s : Loop W)
      → Goes agent limits limit (suc n) s
      → Rounded agent limits limit n (use_tools agent limits step_number response s)
  unfolding use_tools has_text is_blank is_space
  use_tools-Rounded n step_number response s g =
      elim (Bool-cases
        (ltb limits.max_tool_calls (s.tool_call_count + length response.tool_calls))) [
          | inl over ↦
              rw over (over_budget-Rounded agent limits limit n step_number response _ s g refl)
          | inr within ↦ rw within (run_tools-Rounded agent limits limit n step_number response s g)
        ]

  -- An end that the gate lets through.
  complete-Rounded :
      (n : ℕ) (s : Loop W)
      → Goes agent limits limit n s
      → ((evaluate : String → List StepResult → W → Reply GoalGateDecision × W)
          → agent.goal_gate ≡ some evaluate
          → (w : W) × (d : GoalGateDecision) × ((evaluate s.run.run_id s.steps w).0 ≡ gives d)
            × (d.allowed ≡ true))
      → Rounded agent limits limit n (finish agent limits RunStatus.completed none s)
  complete-Rounded n s g c =
      let f = finish-Ended agent limits limit n s RunStatus.completed none g refl refl refl in
      rw (f.0) (record {
        ended = f.1;
        cleared = λ e. record {
          front = s.run.turns;
          last = turn_of s.run s.steps;
          turns = refl;
          cleared = c;
        };
      })

  pub max_tokens-Rounded :
      (n : ℕ) (s : Loop W)
      → Goes agent limits limit n s
      → Rounded agent limits limit n
          (finish agent limits failed (some "provider stopped because max_tokens was reached") s)
  unfolding has_text is_blank is_space
  max_tokens-Rounded n s g =
      let f =
        finish-Ended agent limits limit n s failed
          (some "provider stopped because max_tokens was reached") g refl refl (refl, refl) in
      rw (f.0) (record { ended = f.1; cleared = λ e. not_failed e })
    where
      not_failed : {r : AgentRun} → failed ≡ RunStatus.completed → Cleared agent r
      not_failed e = cc

  pub gate_decided-Rounded :
      (n : ℕ) (response : ProviderResponse) (s : Loop W) (decision : GoalGateDecision)
      → Goes agent limits limit n s
      → (decision.allowed ≡ true
          → (evaluate : String → List StepResult → W → Reply GoalGateDecision × W)
          → agent.goal_gate ≡ some evaluate
          → (w : W) × (d : GoalGateDecision) × ((evaluate s.run.run_id s.steps w).0 ≡ gives d)
            × (d.allowed ≡ true))
      → Rounded agent limits limit n (gate_decided agent limits response decision s)
  unfolding gate_decided
  gate_decided-Rounded n response s decision g c = elim (Bool-cases decision.allowed) [
    | inl allowed ↦ rw allowed (complete-Rounded n s g (c allowed))
    | inr blocked ↦
        rw (blocked, close_turn-closed agent limits s g.formed g.going)
          (closed-Going limit n s.run s.steps g)
  ]

  pub ask_gate-Rounded :
      (n : ℕ) (response : ProviderResponse) (s : Loop W)
      → Goes agent limits limit n s
      → Rounded agent limits limit n (ask_gate agent limits agent.goal_gate response s)
  unfolding ask_gate
  ask_gate-Rounded n response s g = asked agent.goal_gate refl
    where
      decided :
          (evaluate : String → List StepResult → W → Reply GoalGateDecision × W)
          → agent.goal_gate ≡ some evaluate
          → (r : Reply GoalGateDecision × W) → evaluate s.run.run_id s.steps s.world ≡ r
          → Rounded agent limits limit n
              (next (gate_decided agent limits response) (r.0, record s { world = r.1 }))
      decided evaluate e (throws x, w) er = g
      decided evaluate e (gives d, w) er =
          gate_decided-Rounded n response (record s { world = w }) d g
            (λ allowed other o. (s.world, d, same other o, allowed))
        where
          same :
              (other : String → List StepResult → W → Reply GoalGateDecision × W)
              → agent.goal_gate ≡ some other
              → (other s.run.run_id s.steps s.world).0 ≡ gives d
          same other o = cc

      asked :
          (gate : Option (String → List StepResult → W → Reply GoalGateDecision × W))
          → agent.goal_gate ≡ gate
          → Rounded agent limits limit n (ask_gate agent limits gate response s)
      asked none e = complete-Rounded n s g (λ evaluate o. no_gate evaluate o)
        where
          no_gate :
              (evaluate : String → List StepResult → W → Reply GoalGateDecision × W)
              → agent.goal_gate ≡ some evaluate
              → (w : W) × (d : GoalGateDecision) × ((evaluate s.run.run_id s.steps w).0 ≡ gives d)
                × (d.allowed ≡ true)
          no_gate evaluate o = cc
      asked (some evaluate) e = decided evaluate e (evaluate s.run.run_id s.steps s.world) refl
