-- ===== src/Agents/React/Tokens.antt =====
-- The tokens that a run of incident_guard/agents/react_runtime.py has counted, and its steps.
use incident_guard.Prelude.{
  ℕ, ◌+◌, ◌≤◌, String, ◌≡◌, refl, sym, ap, ◌∙◌, Option, none, some, List, [], ◌∷◌, ◌++◌, ok, arith,
}
use incident_guard.Agents.Effects.{Reply, gives, throws, Ends, Ends-bind, Ends-lift, lift}
use incident_guard.Agents.Provider.{ToolCall, ProviderUsage, ProviderResponse}
use incident_guard.Agents.RunModels.{
  RunStatus, failed, completed, ToolObservation, StepResult, new_step_result, AgentRun, TurnResult,
  new_turn_result, append_turn, transition, new_agent_run, total_tokens, turns_tokens, step_tokens,
  usage_tokens,
}
use incident_guard.Agents.React.{RunLimits, Agent, Loop, fail_run}
use incident_guard.Agents.React.Rounds.{
  outside, execute_each, execute_by, append_step, stop, over_budget, usage_of, run,
}

pub turns_tokens-append :
    (ts us : List TurnResult) → turns_tokens (ts ++ us) ≡ turns_tokens ts + turns_tokens us
turns_tokens-append [] us = omega arith
turns_tokens-append (t ∷ ts) us = omega (arith, turns_tokens-append ts us)

step_tokens-append :
    (ss ts : List StepResult) → step_tokens (ss ++ ts) ≡ step_tokens ss + step_tokens ts
step_tokens-append [] ts = omega arith
step_tokens-append (s ∷ ss) ts = omega (arith, step_tokens-append ss ts)

new_step_result-response :
    (n : ℕ) (response : ProviderResponse) (os : List ToolObservation) (step : StepResult)
    → new_step_result n response os ≡ ok step
    → step.response ≡ response
unfolding new_step_result
new_step_result-response n response os step h = ground arith

pub new_turn_result-steps :
    (n : ℕ) (steps : List StepResult) (turn : TurnResult)
    → new_turn_result n steps ≡ ok turn
    → turn.steps ≡ steps
unfolding new_turn_result
new_turn_result-steps n steps turn h = ground arith

pub append_turn-turns :
    (run run' : AgentRun) (turn : TurnResult)
    → append_turn run turn ≡ ok run'
    → run'.turns ≡ run.turns ++ turn ∷ []
unfolding append_turn new_agent_run
append_turn-turns run run' turn h = ground arith

pub transition-keeps :
    (run run' : AgentRun) (status : RunStatus) (reason : Option String)
    → transition run status reason ≡ ok run'
    → (run'.turns ≡ run.turns) × (run'.status ≡ status)
unfolding transition new_agent_run
transition-keeps run run' status reason h = ground arith

pub fail_run-failed :
    (run run' : AgentRun) (steps : List StepResult) (reason : String)
    → fail_run run steps reason ≡ ok run'
    → run'.status ≡ failed
unfolding fail_run transition new_agent_run
fail_run-failed run run' steps reason h = ground arith

-- What a completed run spent is within the budget.
abbrev pub WithinBudget : RunLimits → AgentRun → Type 0
WithinBudget limits run = run.status ≡ completed → total_tokens run ≤ limits.max_tokens

pub failed-WithinBudget :
    (limits : RunLimits) (run : AgentRun) → run.status ≡ failed → WithinBudget limits run
failed-WithinBudget limits run f c = absurd (differ (sym f ∙ c))
  where
    differ : failed ≡ completed → ⊥
    differ e = cc

module _ {W : Type 0} (agent : Agent W) (limits : RunLimits) where
  pub usage_of-usage_tokens : (u : Option ProviderUsage) → usage_of agent limits u ≡ usage_tokens u
  usage_of-usage_tokens none = refl
  usage_of-usage_tokens (some u) = refl

  -- The count covers the turns, the steps at hand and `k` tokens more.
  abbrev pub Covers : ℕ → Loop W → Type 0
  Covers k s = turns_tokens s.run.turns + step_tokens s.steps + k ≤ s.token_count

  abbrev pub Fits : ℕ → Loop W → Type 0
  Fits k s = Covers k s × (s.token_count ≤ limits.max_tokens)

  abbrev pub Raised : Loop W → Type 0
  Raised s = Unit {0}

  abbrev pub Kept : {A : Type 0} → ℕ → Reply A × Loop W → Type 0
  Kept {A = A} k = Ends (λ (a : A) s. Fits k s) Raised

  abbrev pub RoundEnds : Option AgentRun → Loop W → Type 0
  RoundEnds none s = Fits 0 s
  RoundEnds (some run) s = WithinBudget limits run

  abbrev pub Rounded : Reply (Option AgentRun) × Loop W → Type 0
  Rounded = Ends RoundEnds Raised

  pub outside-Kept :
      {A : Type 0} (k : ℕ) (f : W → Reply A × W) (s : Loop W)
      → Fits k s
      → Kept k (outside agent limits f s)
  outside-Kept {A = A} k f s g = either (f s.world)
    where
      either : (r : Reply A × W) → Kept k (r.0, record s { world = r.1 })
      either (gives a, w) = g
      either (throws x, w) = tt

  execute_each-Kept :
      (k : ℕ) (calls : List ToolCall) (s : Loop W)
      → Fits k s
      → Kept k (execute_each agent limits calls s)
  unfolding execute_each
  execute_each-Kept k [] s g = g
  execute_each-Kept k (c ∷ cs) s g =
      Ends-bind (λ o s1. Fits k s1) _ Raised _ (outside agent limits (agent.execute c) s)
        (outside-Kept k (agent.execute c) s g)
        (λ o s1 h.
          Ends-bind (λ os s2. Fits k s2) _ Raised _ (execute_each agent limits cs s1)
            (execute_each-Kept k cs s1 h) (λ os s2 j. j))

  pub execute_by-Kept :
      (k : ℕ) (batch : Option (List ToolCall → W → Reply (List ToolObservation) × W))
      (calls : List ToolCall) (s : Loop W)
      → Fits k s
      → Kept k (execute_by agent limits batch calls s)
  unfolding execute_by
  execute_by-Kept k none calls s g = execute_each-Kept k calls s g
  execute_by-Kept k (some f) calls s g = outside-Kept k (f calls) s g

  pub append_step-Kept :
      (n : ℕ) (response : ProviderResponse) (os : List ToolObservation) (s : Loop W)
      → Fits (usage_tokens response.usage) s
      → Kept 0 (append_step agent limits n response os s)
  unfolding append_step
  append_step-Kept n response os s g =
      Ends-bind
        (λ (step : StepResult) s1.
          (step.response ≡ response) × Fits (usage_tokens response.usage) s1)
        (λ (step : StepResult) s1. Fits 0 s1) Raised _ (lift (new_step_result n response os) s)
        (Ends-lift _ Raised (new_step_result n response os) s tt
          (λ step e. (new_step_result-response n response os step e, g)))
        (λ step s1 h. (added step s1 h.0 h.1.0, h.1.1))
    where
      added :
          (step : StepResult) (s1 : Loop W)
          → step.response ≡ response
          → Covers (usage_tokens response.usage) s1
          → Covers 0 (record s1 { steps = s1.steps ++ step ∷ [] })
      added step s1 e c = omega (
        arith,
        c,
        step_tokens-append s1.steps (step ∷ []),
        ap (λ (r : ProviderResponse). usage_tokens r.usage) e,
      )

  stop-Rounded : (reason : String) (s : Loop W) → Rounded (stop agent limits reason s)
  unfolding stop
  stop-Rounded reason s =
      Ends-bind (λ (run : AgentRun) s1. WithinBudget limits run) RoundEnds Raised _
        (lift (fail_run s.run s.steps reason) s)
        (Ends-lift _ Raised (fail_run s.run s.steps reason) s tt
          (λ run e. failed-WithinBudget limits run (fail_run-failed s.run run s.steps reason e)))
        (λ run s1 h. h)

  pub over_budget-Rounded :
      (n : ℕ) (response : ProviderResponse) (reason : String) (s : Loop W)
      → Rounded (over_budget agent limits n response reason s)
  unfolding over_budget
  over_budget-Rounded n response reason s =
      Ends-bind (λ (step : StepResult) s1. Unit {0}) RoundEnds Raised _
        (append_step agent limits n response [] s)
        (whatever (append_step agent limits n response [] s)) (λ step s1 u. stop-Rounded reason s1)
    where
      whatever :
          (r : Reply StepResult × Loop W) → Ends (λ (step : StepResult) s1. Unit {0}) Raised r
      whatever (gives step, s1) = tt
      whatever (throws x, s1) = tt
