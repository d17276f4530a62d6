-- ===== src/Agents/GoalGate.antt =====
-- incident_guard/agents/goal_gate.py: the conditions under which an incident may be closed. The
-- projection that supplies the state is a parameter of the program; `check` is what it decides.
use incident_guard.Prelude.{
  String, ◌≡◌, refl, ◌↔◌, ◌≢◌, Bool, true, not, ◌&&◌, ◌||◌, List, [], ◌∷◌, ◌++◌, Result, ok,
  value_error, ◌>>◌, raise_if, if◌then◌else◌, has_text, all_of, str_append, arith,
}
use incident_guard.Agents.Provider.{is_empty}

pub record IncidentGoalState : Type 0 where
  pub evidence_refs : List String
  pub mutation_performed : Bool
  pub mutation_approved : Bool
  pub recovery_verified : Bool
  pub service_healthy : Bool
  pub escalation_justified : Bool

-- `IncidentGoalState.__post_init__`
unfoldable pub check_goal_state : IncidentGoalState → Result IncidentGoalState
check_goal_state state = do
  raise_if (not (all_of has_text state.evidence_refs))
      (value_error "evidence_refs must contain non-empty strings")
  ok state

pub record GoalGateDecision : Type 0 where
  pub allowed : Bool
  pub missing_conditions : List String

unfoldable pub new_goal_gate_decision : Bool → List String → Result GoalGateDecision
new_goal_gate_decision allowed missing = do
  raise_if (allowed && not (is_empty missing))
      (value_error "Allowed GoalGateDecision cannot have missing conditions")
  raise_if (not allowed && is_empty missing)
      (value_error "Blocked GoalGateDecision requires missing conditions")
  ok (record { allowed = allowed; missing_conditions = missing })

-- `", ".join(names)`
abbrev join_names : List String → String
join_names [] = ""
join_names (n ∷ []) = n
join_names (n ∷ m ∷ ms) = str_append n (str_append ", " (join_names (m ∷ ms)))

-- `GoalGateDecision.feedback`
unfoldable pub feedback : GoalGateDecision → String
feedback decision =
    if decision.allowed
    then "Incident goal conditions satisfied."
    else str_append "Incident cannot be completed. Continue work and satisfy: "
        (join_names decision.missing_conditions)

-- `missing.append(name)` under a test
abbrev pub when_missing : Bool → String → List String
when_missing test name = if test then name ∷ [] else []

unfoldable pub missing_conditions_of : IncidentGoalState → List String
missing_conditions_of state =
    when_missing (is_empty state.evidence_refs) "evidence"
    ++ when_missing (state.mutation_performed && not state.mutation_approved) "mutation_approval"
    ++ when_missing (not state.recovery_verified) "recovery_verification"
    ++ when_missing (not (state.service_healthy || state.escalation_justified))
        "healthy_service_or_justified_escalation"

pub check : IncidentGoalState → Result GoalGateDecision
check state =
    let missing = missing_conditions_of state in new_goal_gate_decision (is_empty missing) missing

-- What the project's documentation asks before an incident is closed.
pub record MayClose (state : IncidentGoalState) : Type 0 where
  pub evidence : state.evidence_refs ≢ []
  pub approval : state.mutation_performed ≡ true → state.mutation_approved ≡ true
  pub recovery : state.recovery_verified ≡ true
  pub outcome : (state.service_healthy || state.escalation_justified) ≡ true

new_goal_gate_decision-of :
    (missing : List String)
    → new_goal_gate_decision (is_empty missing) missing
      ≡ ok (record { allowed = is_empty missing; missing_conditions = missing })
unfolding new_goal_gate_decision
new_goal_gate_decision-of [] = refl
new_goal_gate_decision-of (m ∷ ms) = refl

MayClose-iff :
    (state : IncidentGoalState) → (is_empty (missing_conditions_of state) ≡ true) ↔ MayClose state
unfolding missing_conditions_of
MayClose-iff state = (λ h. ground arith, λ h. ground (arith, h.approval, h.evidence))

-- `check` always returns a decision: the decision's own constructor never rejects it. The decision
-- allows the incident to be closed exactly when the documented conditions hold.
pub check-iff-MayClose :
    (state : IncidentGoalState)
    → (d : GoalGateDecision) × (check state ≡ ok d) × ((d.allowed ≡ true) ↔ MayClose state)
unfolding check
check-iff-MayClose state =
    let missing : List String = missing_conditions_of state in
    (
      record { allowed = is_empty missing; missing_conditions = missing },
      new_goal_gate_decision-of missing,
      MayClose-iff state,
    )
