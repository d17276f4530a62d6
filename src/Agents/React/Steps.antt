-- ===== src/Agents/React/Steps.antt =====
-- What a round of incident_guard/agents/react_runtime.py does to a run that goes on: steps and tools.
use incident_guard.Prelude.{
  ℕ, suc, ◌+◌, String, ◌≡◌, true, Option, none, some, List, [], ◌∷◌, ◌++◌, arith, length,
  length-append, has_text,
}
use incident_guard.Agents.Effects.{
  Reply, gives, throws, Ends, Ends-bind, Ends-mono, Ends-lift, lift,
}
use incident_guard.Agents.Provider.{ToolCall, ProviderResponse}
use incident_guard.Agents.RunModels.{
  RunStatus, failed, ToolObservation, StepResult, new_step_result, AgentRun, TurnResult,
}
use incident_guard.Agents.GoalGate.{GoalGateDecision}
use incident_guard.Agents.React.{RunLimits, Agent, Loop}
use incident_guard.Agents.React.Rounds.{
  outside, execute_each, execute_by, append_step, stop, over_budget, run_tools, run,
}
use incident_guard.Agents.React.Closing.{Going, Ended, fail_run-Ended}

-- A run that is completed under a goal gate has been let through: the gate was asked about the steps of
-- its last turn, and its decision allowed the end.
pub record Cleared {W : Type 0} (agent : Agent W) (run : AgentRun) : Type 0 where
  pub front : List TurnResult
  pub last : TurnResult
  pub turns : run.turns ≡ front ++ last ∷ []
  pub cleared :
      (evaluate : String → List StepResult → W → Reply GoalGateDecision × W)
      → agent.goal_gate ≡ some evaluate
      → (w : W) × (d : GoalGateDecision) × ((evaluate run.run_id last.steps w).0 ≡ gives d)
        × (d.allowed ≡ true)

-- What the runtime may return.
pub record Final {W : Type 0} (agent : Agent W) (limit : ℕ) (run : AgentRun) : Type 0 where
  pub ended : Ended limit run
  pub cleared : run.status ≡ RunStatus.completed → Cleared agent run

pub failed_run :
    {W : Type 0} (agent : Agent W) (r : AgentRun)
    → r.status ≡ failed
    → r.status ≡ RunStatus.completed
    → Cleared agent r
failed_run agent r f e = cc

module _ {W : Type 0} (agent : Agent W) (limits : RunLimits) (limit : ℕ) where
  abbrev pub Goes : ℕ → Loop W → Type 0
  Goes n s = Going limit n s.run s.steps

  -- The result of a round: the run goes on, with room for one step less, or it is final.
  abbrev pub RoundEnds : ℕ → Option AgentRun → Loop W → Type 0
  RoundEnds n none s = Goes n s
  RoundEnds n (some run) s = Final agent limit run

  abbrev pub Rounded : ℕ → Reply (Option AgentRun) × Loop W → Type 0
  Rounded n = Ends (RoundEnds n) (Goes n)

  pub outside-Goes :
      {A : Type 0} (n : ℕ) (f : W → Reply A × W) (s : Loop W)
      → Goes n s
      → Ends (λ (a : A) s'. Goes n s') (Goes n) (outside agent limits f s)
  outside-Goes {A = A} n f s g = either (f s.world)
    where
      either :
          (r : Reply A × W)
          → Ends (λ (a : A) (s' : Loop W). Goes n s') (Goes n) (r.0, record s { world = r.1 })
      either (gives a, w) = g
      either (throws x, w) = g

  execute_each-Goes :
      (n : ℕ) (calls : List ToolCall) (s : Loop W)
      → Goes n s
      → Ends
          (λ (os : List ToolObservation) s'. Goes n s')
          (Goes n)
          (execute_each agent limits calls s)
  unfolding execute_each
  execute_each-Goes n [] s g = g
  execute_each-Goes n (c ∷ cs) s g =
      Ends-bind _ _ (Goes n) _ (outside agent limits (agent.execute c) s)
        (outside-Goes n (agent.execute c) s g)
        (λ o s1 h.
          Ends-bind _ _ (Goes n) _ (execute_each agent limits cs s1) (execute_each-Goes n cs s1 h)
            (λ os s2 k. k))

  execute_by-Goes :
      (n : ℕ) (batch : Option (List ToolCall → W → Reply (List ToolObservation) × W))
      (calls : List ToolCall) (s : Loop W)
      → Goes n s
      → Ends
          (λ (os : List ToolObservation) s'. Goes n s')
          (Goes n)
          (execute_by agent limits batch calls s)
  unfolding execute_by
  execute_by-Goes n none calls s g = execute_each-Goes n calls s g
  execute_by-Goes n (some f) calls s g = outside-Goes n (f calls) s g

  pub append_step-Goes :
      (n step_number : ℕ) (response : ProviderResponse) (os : List ToolObservation) (s : Loop W)
      → Goes (suc n) s
      → Ends
          (λ (step : StepResult) s'. Goes n s')
          (Goes n)
          (append_step agent limits step_number response os s)
  unfolding append_step
  append_step-Goes n step_number response os s g =
      Ends-bind (λ (step : StepResult) s'. Goes (suc n) s') _ (Goes n) _
        (lift (new_step_result step_number response os) s)
        (Ends-lift _ (Goes n) (new_step_result step_number response os) s less (λ step e. g))
        (λ step s1 h. record {
          formed = h.formed;
          going = h.going;
          room = omega (arith, h.room, length-append s1.steps (step ∷ []));
        })
    where
      less : Goes n s
      less = record { formed = g.formed; going = g.going; room = omega (arith, g.room) }

  stop-Rounded :
      (n : ℕ) (reason : String) (s : Loop W)
      → Goes n s
      → has_text reason ≡ true
      → Rounded n (stop agent limits reason s)
  unfolding stop
  stop-Rounded n reason s g h =
      let f = fail_run-Ended limit n s.run s.steps reason g h in
      rw (f.1) (record { ended = f.3; cleared = failed_run agent f.0 f.2 })

  pub over_budget-Rounded :
      (n step_number : ℕ) (response : ProviderResponse) (reason : String) (s : Loop W)
      → Goes (suc n) s
      → has_text reason ≡ true
      → Rounded n (over_budget agent limits step_number response reason s)
  unfolding over_budget
  over_budget-Rounded n step_number response reason s g h =
      Ends-bind _ (RoundEnds n) (Goes n) _ (append_step agent limits step_number response [] s)
        (append_step-Goes n step_number response [] s g) (λ step s1 k. stop-Rounded n reason s1 k h)

  pub run_tools-Rounded :
      (n step_number : ℕ) (response : ProviderResponse) (s : Loop W)
      → Goes (suc n) s
      → Rounded n (run_tools agent limits step_number response s)
  unfolding run_tools
  run_tools-Rounded n step_number response s g =
      Ends-bind _ (RoundEnds n) (Goes n) _
        (execute_by agent limits agent.execute_batch response.tool_calls s)
        (Ends-mono (λ (os : List ToolObservation) s1. Goes (suc n) s1)
          (λ (os : List ToolObservation) s1. Goes (suc n) s1) (Goes (suc n)) (Goes n)
          (execute_by agent limits agent.execute_batch response.tool_calls s) (λ os s1 k. k) less
          (execute_by-Goes (suc n) agent.execute_batch response.tool_calls s g))
        (λ os s1 k.
          Ends-bind _ (RoundEnds n) (Goes n) _
            (append_step agent limits step_number response os (counted s1))
            (append_step-Goes n step_number response os (counted s1) k) (λ step s2 j. j))
    where
      less : (s' : Loop W) → Goes (suc n) s' → Goes n s'
      less s' k = record { formed = k.formed; going = k.going; room = omega (arith, k.room) }

      counted : Loop W → Loop W
      counted l = record l { tool_call_count = l.tool_call_count + length response.tool_calls }
