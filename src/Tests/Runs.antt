-- ===== src/Tests/Runs.antt =====
-- Runs of an agent, and decisions of the goal gate.
use incident_guard.Prelude.{
  ◌≡◌, refl, ◌↔◌, ◌+◌, true, false, none, some, [], ◌∷◌, ◌++◌, ok, has_text,
}
use incident_guard.Agents.RunModels.{
  running, completed, failed, AgentRun, TurnResult, allowed_transition, transition, append_turn,
}
use incident_guard.Agents.RunModels.Transitions.{ReasonFits, IsValid, transition_iff}
use incident_guard.Agents.RunModels.Turns.{
  Reaches, here, transitioned, appended, IsWellFormed, append_turn_iff, Reaches-IsWellFormed,
}
use incident_guard.Agents.GoalGate.{
  IncidentGoalState, GoalGateDecision, MayClose, check, check-iff-MayClose,
}

abbrev run : AgentRun
run = record { run_id = "run-1"; status = running; turns = []; failure_reason = none }

abbrev turn : TurnResult
turn = record { turn_number = 1; steps = [] }

run-IsValid : IsValid run
unfolding has_text
run-IsValid = record { named = refl; reason = refl }

transition_iff_example :
    (transition run failed (some "timeout")
      ≡ ok (record run { status = failed; failure_reason = some "timeout" }))
    ↔ ((allowed_transition running failed ≡ true)
        × ReasonFits failed (some "timeout")
        × (record run { status = failed; failure_reason = some "timeout" }
            ≡ record run { status = failed; failure_reason = some "timeout" }))
transition_iff_example =
    transition_iff run (record run { status = failed; failure_reason = some "timeout" }) failed
      (some "timeout") run-IsValid

abbrev longer : AgentRun
longer = record run { turns = turn ∷ [] }

append_turn_iff_example : (append_turn run turn ≡ ok longer) ↔ (
    (run.status ≡ running)
    × (turn.turn_number ≡ 0 + 1)
    × (longer ≡ record run { turns = [] ++ turn ∷ [] }))
append_turn_iff_example = append_turn_iff run longer turn run-IsValid

ends : Reaches run (record longer { status = completed })
unfolding transition append_turn has_text
ends = transitioned completed none (appended turn here refl) refl

run-IsWellFormed : IsWellFormed run
run-IsWellFormed = record { valid = run-IsValid; numbered = tt }

Reaches-IsWellFormed_example : IsWellFormed (record longer { status = completed })
Reaches-IsWellFormed_example = Reaches-IsWellFormed ends run-IsWellFormed

abbrev over : AgentRun
over = record run { status = completed }

abbrev verified : IncidentGoalState
verified = record {
  evidence_refs = "metrics" ∷ [];
  mutation_performed = true;
  mutation_approved = true;
  recovery_verified = true;
  service_healthy = true;
  escalation_justified = false;
}

check-iff-MayClose_example :
    (d : GoalGateDecision) × (check verified ≡ ok d) × ((d.allowed ≡ true) ↔ MayClose verified)
check-iff-MayClose_example = check-iff-MayClose verified
