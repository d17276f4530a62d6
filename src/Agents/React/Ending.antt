-- ===== src/Agents/React/Ending.antt =====
-- How every run of incident_guard/agents/react_runtime.py ends.
use incident_guard.Prelude.{
  ℕ, zero, suc, ◌+◌, String, ◌≡◌, refl, sym, ◌∙◌, subst, true, Option, none, some, List, [], ok,
  arith, length, has_text, is_blank, Bool-cases, inl, inr, ltb, str_append, is_space,
}
use incident_guard.Json.{Fields}
use incident_guard.Agents.Effects.{
  timed_out, failed_with, crashed, Reply, gives, throws, Act, Ends, Ends-bind, Ends-mono, next,
}
use incident_guard.Agents.Provider.{StopReason, end_turn, tool_use, max_tokens, ProviderResponse}
use incident_guard.Agents.RunModels.{RunStatus, running, AgentRun, new_agent_run, transition}
use incident_guard.Agents.React.{RunLimits, Agent, Loop}
use incident_guard.Agents.React.Rounds.{
  generate_response, append_step, after_step, answer, spend, unless_done, round, rounds, caught,
  start, started, run,
}
use incident_guard.Agents.React.Closing.{Going, fail_run-Ended}
use incident_guard.Agents.React.Steps.{
  failed_run, Cleared, Final, Goes, RoundEnds, Rounded, append_step-Goes, over_budget-Rounded,
}
use incident_guard.Agents.Tools.Binding.{has_text-append}
use incident_guard.Agents.React.Gate.{use_tools-Rounded, max_tokens-Rounded, ask_gate-Rounded}

module _ {W : Type 0} (agent : Agent W) (limits : RunLimits) (limit : ℕ) where
  after_step-Rounded :
      (n : ℕ) (response : ProviderResponse) (reason : StopReason) (s : Loop W)
      → Goes agent limits limit n s
      → Rounded agent limits limit n (after_step agent limits response reason s)
  unfolding after_step
  after_step-Rounded n response end_turn s g = ask_gate-Rounded agent limits limit n response s g
  after_step-Rounded n response max_tokens s g = max_tokens-Rounded agent limits limit n s g
  after_step-Rounded n response tool_use s g = max_tokens-Rounded agent limits limit n s g

  stepped-Rounded :
      (n step_number : ℕ) (response : ProviderResponse) (reason : StopReason) (s : Loop W)
      → Goes agent limits limit (suc n) s
      → Rounded agent limits limit n (
          next
            (λ step. after_step agent limits response reason)
            (append_step agent limits step_number response [] s))
  stepped-Rounded n step_number response reason s g =
      Ends-bind _ (RoundEnds agent limits limit n) (Goes agent limits limit n) _
        (append_step agent limits step_number response [] s)
        (append_step-Goes agent limits limit n step_number response [] s g)
        (λ step s1 h. after_step-Rounded n response reason s1 h)

  answer-Rounded :
      (n step_number : ℕ) (response : ProviderResponse) (reason : StopReason) (s : Loop W)
      → Goes agent limits limit (suc n) s
      → Rounded agent limits limit n (answer agent limits step_number response reason s)
  unfolding answer
  answer-Rounded n k response tool_use s g = use_tools-Rounded agent limits limit n k response s g
  answer-Rounded n k response end_turn s g = stepped-Rounded n k response end_turn s g
  answer-Rounded n k response max_tokens s g = stepped-Rounded n k response max_tokens s g

  spend-Rounded :
      (n step_number : ℕ) (response : ProviderResponse) (s : Loop W)
      → Goes agent limits limit (suc n) s
      → Rounded agent limits limit n (spend agent limits step_number response s)
  unfolding spend has_text is_blank is_space
  spend-Rounded n k response s g = elim (Bool-cases (ltb limits.max_tokens s.token_count)) [
    | inl over ↦ rw over (over_budget-Rounded agent limits limit n k response _ s g refl)
    | inr within ↦ rw within (answer-Rounded n k response response.stop_reason s g)
  ]

  round-Rounded :
      (n : ℕ) (s : Loop W)
      → Goes agent limits limit (suc n) s
      → Rounded agent limits limit n (round agent limits s)
  unfolding round
  round-Rounded n s g =
      Ends-bind (λ (response : ProviderResponse). Goes agent limits limit (suc n))
        (RoundEnds agent limits limit n) (Goes agent limits limit n) _
        (generate_response agent limits s) (generated (generate_response agent limits s).0)
        (λ response s1 h. spend-Rounded n (length s.steps + 1) response _ h)
    where
      generated :
          (r : Reply ProviderResponse)
          → Ends
              (λ (response : ProviderResponse). Goes agent limits limit (suc n))
              (Goes agent limits limit n)
              (r, (generate_response agent limits s).1)
      generated (gives response) = g
      generated (throws x) = record {
        formed = g.formed;
        going = g.going;
        room = omega (arith, g.room);
      }

  -- A final run, or an exception in a state from which the run can fail.
  abbrev Finishes : Reply AgentRun × Loop W → Type 0
  Finishes =
      Ends (λ (run : AgentRun) (s' : Loop W). Final agent limit run) (Goes agent limits limit 0)

  unless_done-Final :
      (rest : Act (Loop W) AgentRun) (o : Option AgentRun) (s : Loop W) (n : ℕ)
      → (Goes agent limits limit n s → Finishes (rest s))
      → RoundEnds agent limits limit n o s
      → Finishes (unless_done agent limits rest o s)
  unless_done-Final rest none s n k h = k h
  unless_done-Final rest (some run) s n k h = h

  -- With `n` rounds left the loop gives a final run, or raises in a state from which the run can fail.
  rounds-Final :
      (n : ℕ) (s : Loop W) → Goes agent limits limit n s → Finishes (rounds agent limits n s)
  unfolding rounds has_text is_blank is_space
  rounds-Final zero s g =
      let f =
        fail_run-Ended limit 0 s.run s.steps "step budget exhausted after {max_steps} steps" g
          refl in
      rw (f.1) (record { ended = f.3; cleared = failed_run agent f.0 f.2 })
  rounds-Final (suc n) s g =
      Ends-bind (RoundEnds agent limits limit n) _ (Goes agent limits limit 0) _
        (round agent limits s)
        (Ends-mono (RoundEnds agent limits limit n) (RoundEnds agent limits limit n)
          (Goes agent limits limit n) (Goes agent limits limit 0) (round agent limits s)
          (λ o s1 h. h)
          (λ s1 h. record { formed = h.formed; going = h.going; room = omega (arith, h.room) })
          (round-Rounded n s g))
        (λ o s1 h. unless_done-Final (rounds agent limits n) o s1 n (rounds-Final n s1) h)

module _ {W : Type 0} (agent : Agent W) (limits : RunLimits) where
  caught-Final :
      (limit : ℕ) (r : Reply AgentRun × Loop W)
      → Finishes agent limits limit r
      → (run : AgentRun) × ((caught agent limits r).0 ≡ ok run) × Final agent limit run
  unfolding caught has_text is_blank is_space
  caught-Final limit (gives run, s) f = (run, refl, f)
  caught-Final limit (throws timed_out, s) g =
      let f =
        fail_run-Ended limit 0 s.run s.steps "run timeout exceeded after {timeout_seconds} seconds"
          g refl in
      (f.0, f.1, record { ended = f.3; cleared = failed_run agent f.0 f.2 })
  caught-Final limit (throws (failed_with message), s) g =
      let f =
        fail_run-Ended limit 0 s.run s.steps (str_append "runtime failure: " message) g
          (has_text-append "r" "untime failure: " message refl) in
      (f.0, f.1, record { ended = f.3; cleared = failed_run agent f.0 f.2 })
  caught-Final limit (throws (crashed message), s) g =
      let f =
        fail_run-Ended limit 0 s.run s.steps (str_append "runtime failure: " message) g
          (has_text-append "r" "untime failure: " message refl) in
      (f.0, f.1, record { ended = f.3; cleared = failed_run agent f.0 f.2 })

  started-Going :
      (run_id : String)
      → has_text run_id ≡ true
      → (fresh : AgentRun) × (started agent limits run_id ≡ ok fresh)
        × Going limits.max_steps limits.max_steps fresh []
  unfolding new_agent_run transition
  started-Going run_id h = (
    record { run_id = run_id; status = running; turns = []; failure_reason = none },
    ground arith,
    record {
      formed = record { valid = record { named = h; reason = refl }; numbered = tt };
      going = refl;
      room = omega arith;
    },
  )

  run-Final :
      (run_id : String) (messages : List Fields) (w : W)
      → has_text run_id ≡ true
      → (r : AgentRun) × ((run agent limits run_id messages w).0 ≡ ok r)
        × Final agent limits.max_steps r
  unfolding run start
  run-Final run_id messages w h =
      let s = started-Going run_id h in
      rw (run, s.1)
        (caught-Final limits.max_steps
          (rounds agent limits limits.max_steps (start agent limits s.0 messages w))
          (rounds-Final agent limits limits.max_steps limits.max_steps
            (start agent limits s.0 messages w) s.2))

  -- A run that is returned as completed has passed the goal gate, if there is one: the gate was asked
  -- about the steps of the last turn and its decision allowed the end.
  pub run-Cleared :
      (run_id : String) (messages : List Fields) (w : W) (r : AgentRun)
      → has_text run_id ≡ true
      → (run agent limits run_id messages w).0 ≡ ok r
      → r.status ≡ RunStatus.completed
      → Cleared agent r
  run-Cleared run_id messages w r h e c =
      let f = run-Final run_id messages w h in
      subst (λ (x : AgentRun). x.status ≡ RunStatus.completed → Cleared agent x)
        (same f.0 (sym f.1 ∙ e)) f.2.cleared c
    where
      same : (x : AgentRun) → ok x ≡ ok r → x ≡ r
      same x q = cc
