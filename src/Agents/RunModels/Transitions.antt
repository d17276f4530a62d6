-- ===== src/Agents/RunModels/Transitions.antt =====
-- `AgentRun.transition` of incident_guard/agents/run_models.py as a state machine.
use incident_guard.Prelude.{
  String, ◌≡◌, sym, ap, ◌∙◌, ◌↔◌, true, false, Option, none, some, ok, arith, has_text,
}
use incident_guard.Agents.RunModels.{
  RunStatus, AgentRun, is_failure, allowed_transition, transition,
}

-- What `__post_init__` accepts as a reason: a text that is not blank for a failed run, and else none.
abbrev pub ReasonFits : RunStatus → Option String → Type 0
ReasonFits status none = is_failure status ≡ false
ReasonFits status (some reason) = (is_failure status ≡ true) × (has_text reason ≡ true)

pub record IsValid (run : AgentRun) : Type 0 where
  pub named : has_text run.run_id ≡ true
  pub reason : ReasonFits run.status run.failure_reason

abbrev moved : AgentRun → RunStatus → Option String → AgentRun
moved run target reason = record run { status = target; failure_reason = reason }

transition-to :
    (run : AgentRun) (target : RunStatus) (reason : Option String)
    → IsValid run
    → allowed_transition run.status target ≡ true
    → ReasonFits target reason
    → transition run target reason ≡ ok (moved run target reason)
unfolding transition
transition-to run target none v a f = ground arith
transition-to run target (some r) v a f = ground arith

transition-from :
    (run run' : AgentRun) (target : RunStatus) (reason : Option String)
    → transition run target reason ≡ ok run'
    → (allowed_transition run.status target ≡ true)
      × ReasonFits target reason
      × (run' ≡ moved run target reason)
unfolding transition
transition-from run run' target none h = ground arith
transition-from run run' target (some r) h = ground arith

-- On a valid run `transition` succeeds exactly when the table of allowed transitions has the pair and
-- the reason fits the target; the result has the new status and reason, and all else as before.
pub transition_iff :
    (run run' : AgentRun) (target : RunStatus) (reason : Option String)
    → IsValid run
    → (transition run target reason ≡ ok run') ↔ (
        (allowed_transition run.status target ≡ true)
        × ReasonFits target reason
        × (run' ≡ record run { status = target; failure_reason = reason }))
transition_iff run run' target reason v = (
  transition-from run run' target reason,
  λ h. transition-to run target reason v h.0 h.1 ∙ ap ok (sym h.2),
)

pub transition-IsValid :
    (run run' : AgentRun) (target : RunStatus) (reason : Option String)
    → IsValid run
    → transition run target reason ≡ ok run'
    → IsValid run'
transition-IsValid run run' target reason v h =
    let facts = transition-from run run' target reason h in
    rw (facts.2) (record { named = v.named; reason = facts.1 })
