-- ===== src/Agents/React/Budget.antt =====
-- The budget of tokens of a run of incident_guard/agents/react_runtime.py.
use incident_guard.Prelude.{
  ℕ, zero, suc, ◌+◌, ◌≤◌, String, ◌≡◌, refl, sym, ap, ◌∙◌, Option, none, some, List, [], ok, Result,
  err, Error, arith, length, subst,
}
use incident_guard.Json.{Fields}
use incident_guard.Agents.Effects.{
  timed_out, failed_with, crashed, Reply, gives, throws, Act, Ends, Ends-bind, Ends-lift,
}
use incident_guard.Agents.Provider.{ProviderResponse}
use incident_guard.Agents.RunModels.{
  completed, AgentRun, transition, new_agent_run, total_tokens, turns_tokens,
}
use incident_guard.Agents.React.{RunLimits, Agent, Loop, fail_run}
use incident_guard.Agents.React.Rounds.{
  generate_response, round, unless_done, rounds, caught, start, started, run,
}
use incident_guard.Agents.React.Tokens.{
  Fits, Raised, RoundEnds, Rounded, usage_of-usage_tokens, failed-WithinBudget, fail_run-failed,
  WithinBudget,
}
use incident_guard.Agents.React.Answers.{spend-Rounded}

module _ {W : Type 0} (agent : Agent W) (limits : RunLimits) where
  round-Rounded : (s : Loop W) → Fits agent limits 0 s → Rounded agent limits (round agent limits s)
  unfolding round
  round-Rounded s g =
      Ends-bind (λ (response : ProviderResponse) s1. Fits agent limits 0 s1)
        (RoundEnds agent limits) (Raised agent limits) _ (generate_response agent limits s)
        (generated (generate_response agent limits s).0)
        (λ response s1 h.
          spend-Rounded agent limits (length s.steps + 1) response _
            (omega (arith, h.0, usage_of-usage_tokens agent limits response.usage)))
    where
      generated :
          (r : Reply ProviderResponse)
          → Ends
              (λ (response : ProviderResponse) s1. Fits agent limits 0 s1)
              (Raised agent limits)
              (r, (generate_response agent limits s).1)
      generated (gives response) = g
      generated (throws x) = tt

  unless_done-WithinBudget :
      (rest : Act (Loop W) AgentRun) (o : Option AgentRun) (s : Loop W)
      → (Fits agent limits 0 s
          → Ends (λ (run : AgentRun) s1. WithinBudget limits run) (Raised agent limits) (rest s))
      → RoundEnds agent limits o s
      → Ends
          (λ (run : AgentRun) s1. WithinBudget limits run)
          (Raised agent limits)
          (unless_done agent limits rest o s)
  unless_done-WithinBudget rest none s k h = k h
  unless_done-WithinBudget rest (some run) s k h = h

  rounds-WithinBudget :
      (n : ℕ) (s : Loop W)
      → Fits agent limits 0 s
      → Ends
          (λ (run : AgentRun) s1. WithinBudget limits run)
          (Raised agent limits)
          (rounds agent limits n s)
  unfolding rounds
  rounds-WithinBudget zero s g =
      Ends-lift _ (Raised agent limits)
        (fail_run s.run s.steps "step budget exhausted after {max_steps} steps") s tt
        (λ run e. failed-WithinBudget limits run (fail_run-failed s.run run s.steps _ e))
  rounds-WithinBudget (suc n) s g =
      Ends-bind (RoundEnds agent limits) (λ (run : AgentRun) s1. WithinBudget limits run)
        (Raised agent limits) _ (round agent limits s) (round-Rounded s g)
        (λ o s1 h.
          unless_done-WithinBudget (rounds agent limits n) o s1 (rounds-WithinBudget n s1) h)

  caught-WithinBudget :
      (q : Reply AgentRun × Loop W) (r : AgentRun)
      → Ends (λ (run : AgentRun) s1. WithinBudget limits run) (Raised agent limits) q
      → (caught agent limits q).0 ≡ ok r
      → WithinBudget limits r
  unfolding caught
  caught-WithinBudget (gives run, s) r h e = subst (WithinBudget limits) (same e) h
    where
      same : {a b : AgentRun} → ok a ≡ ok b → a ≡ b
      same e = cc
  caught-WithinBudget (throws timed_out, s) r h e =
      failed-WithinBudget limits r (fail_run-failed s.run r s.steps _ e)
  caught-WithinBudget (throws (crashed message), s) r h e =
      failed-WithinBudget limits r (fail_run-failed s.run r s.steps _ e)
  caught-WithinBudget (throws (failed_with message), s) r h e =
      failed-WithinBudget limits r (fail_run-failed s.run r s.steps _ e)

  started-turns :
      (run_id : String) (fresh : AgentRun)
      → started agent limits run_id ≡ ok fresh
      → fresh.turns ≡ []
  unfolding new_agent_run transition
  started-turns run_id fresh h = ground arith

  -- A run that is returned as completed has spent at most `max_tokens`: that is the total, in
  -- `AgentRun.total_tokens`, of the input and output tokens of all steps of its turns.
  pub run_within_budget :
      (run_id : String) (messages : List Fields) (w : W) (r : AgentRun)
      → (run agent limits run_id messages w).0 ≡ ok r
      → r.status ≡ completed
      → total_tokens r ≤ limits.max_tokens
  unfolding run start
  run_within_budget run_id messages w r h c = by_start (started agent limits run_id) refl
    where
      looped :
          (fresh : AgentRun)
          → started agent limits run_id ≡ ok fresh
          → (caught agent limits
              (rounds agent limits limits.max_steps (start agent limits fresh messages w))).0
            ≡ ok r
      looped fresh s = sym (rw (run, s) refl) ∙ h

      refused :
          (e : Error)
          → started agent limits run_id ≡ err e
          → (run agent limits run_id messages w).0 ≡ err e
      refused e s = rw (run, s) refl

      by_start :
          (q : Result AgentRun)
          → started agent limits run_id ≡ q
          → total_tokens r ≤ limits.max_tokens
      by_start (err e) s = absurd (differ (sym (refused e s) ∙ h))
        where
          differ : err e ≡ ok r → ⊥
          differ x = cc
      by_start (ok fresh) s =
          caught-WithinBudget
            (rounds agent limits limits.max_steps (start agent limits fresh messages w)) r
            (rounds-WithinBudget limits.max_steps (start agent limits fresh messages w)
              (omega (arith, ap turns_tokens (started-turns run_id fresh s)), omega arith))
            (looped fresh s) c
