-- ===== src/Tests/Histories.antt =====
-- The projection of a recorded run.
use incident_guard.Prelude.{
  ◌≡◌, refl, ◌⊎◌, true, false, List, [], ◌∷◌, ok, ◌++◌, lookup, insert, has_text, length, All,
  count_if, some,
}
use incident_guard.Json.{get, is_truthy, str, end, field}
use incident_guard.Agents.RunModels
use incident_guard.Agents.RunModels.{RunStatus, cancelling, allowed_transition}
use incident_guard.Agents.RunModels.Transitions.{ReasonFits}
use incident_guard.Events.Store.{RunEvent}
use incident_guard.Events.Store.Table.{SequencedFrom}
use incident_guard.Events.Kinds.{event_kind}
use incident_guard.Events.Payload.{
  text, positive_int, non_negative_int, optional_non_negative_int, tuple_of, object_of,
}
use incident_guard.Events.Locals.{Locals, initial, require_step_identity}
use incident_guard.Events.Handlers.{is_ended}
use incident_guard.Events.Projected
use incident_guard.Events.Projected.{ToolProjection, RunProjection, Key, is_completed}
use incident_guard.Events.Projection.{apply_event, project_event, project_events, project}
use incident_guard.Events.Projection.Induction.{project_event-Accepts}
use incident_guard.Events.Projection.Sequence.{IsOf, project_ordered}
use incident_guard.Events.Projection.Messages.{speaks, length-messages}
use incident_guard.Events.Projection.Status.{
  extra_transition, project_event_moves, project-ReasonFits, project_end_is_last,
}
use incident_guard.Events.Projection.Tools.{project-IsSettled}
use incident_guard.Events.Projection.Final.{project_keeps_ended}
use incident_guard.Events.Projection.Steps.{records_of, IsNumbered, project-StepsFit}
use incident_guard.Tests.Samples.{event, opening, acting, closing, run_of}

abbrev whole : List RunEvent
whole = opening ++ (acting ++ closing)

whole-projects : project "run-1" whole ≡ ok (run_of whole)
unfolding project project_events project_event apply_event event_kind text positive_int
    non_negative_int optional_non_negative_int tuple_of object_of require_step_identity lookup
    insert has_text get is_truthy
whole-projects = refl

acting-projects : project "run-1" (opening ++ acting) ≡ ok (run_of (opening ++ acting))
unfolding project project_events project_event apply_event event_kind text positive_int
    non_negative_int optional_non_negative_int tuple_of object_of require_step_identity lookup
    insert has_text get is_truthy
acting-projects = refl

project_ordered_example :
    SequencedFrom 1 whole × All (IsOf "run-1") whole × ((run_of whole).last_sequence ≡ length whole)
project_ordered_example = project_ordered "run-1" whole whole-projects

length-messages_example : length (run_of whole).messages ≡ count_if speaks whole
length-messages_example = length-messages "run-1" whole whole-projects

project-ReasonFits_example : ReasonFits (run_of whole).status (run_of whole).failure_reason
project-ReasonFits_example = project-ReasonFits "run-1" whole whole-projects

project_end_is_last_example : ◌≡◌ {A = List RunEvent} [] []
unfolding project project_events project_event apply_event event_kind text positive_int
    non_negative_int optional_non_negative_int tuple_of object_of require_step_identity lookup
    insert has_text get is_truthy
project_end_is_last_example =
    project_end_is_last "run-1" (event 1 "e1" "run.started" end ∷ [])
      (event 2 "e2" "run.failed" (field "reason" (str "timeout") end)) []
      {p = run_of (
        event 1 "e1" "run.started" end
        ∷ event 2 "e2" "run.failed" (field "reason" (str "timeout") end)
        ∷ [])}
      refl refl

abbrev restarted : ToolProjection
restarted = record {
  call_id = "c1";
  name = "restart_service";
  arguments = end;
  effect = "mutate";
  turn_number = 1;
  step_number = 1;
  call_index = 0;
  state = Projected.completed;
  content = some "restarted";
  is_error = false;
}

project-IsSettled_example : is_ended restarted.state ≡ true
unfolding project project_events project_event apply_event event_kind text positive_int
    non_negative_int optional_non_negative_int tuple_of object_of require_step_identity lookup
    insert has_text get is_truthy
project-IsSettled_example = project-IsSettled "run-1" "c1" whole restarted whole-projects refl refl

project_keeps_ended_example :
    lookup "c1" (run_of ((opening ++ acting) ++ closing)).tools ≡ some restarted
unfolding project project_events project_event apply_event event_kind text positive_int
    non_negative_int optional_non_negative_int tuple_of object_of require_step_identity lookup
    insert has_text get is_truthy
project_keeps_ended_example =
    project_keeps_ended "run-1" "c1" (opening ++ acting) closing restarted acting-projects
      whole-projects refl refl

project-StepsFit_example :
    All
      (λ (key : Key). records_of key.0 key.1 (run_of whole).assistant_records ≡ 1)
      (run_of whole).completed_steps
    × IsNumbered [] (run_of whole).completed_steps
project-StepsFit_example = project-StepsFit "run-1" whole whole-projects

abbrev started : Locals
started = record initial { status = RunModels.running; expected_sequence = 2 }

project_event_moves_example :
    (RunModels.running ≡ RunStatus.created)
    ⊎ (allowed_transition RunStatus.created RunModels.running ≡ true)
    ⊎ (extra_transition RunStatus.created RunModels.running ≡ true)
unfolding project project_events project_event apply_event event_kind text positive_int
    non_negative_int optional_non_negative_int tuple_of object_of require_step_identity lookup
    insert has_text get is_truthy
project_event_moves_example =
    project_event_moves "run-1" (event 1 "e1" "run.started" end) initial started
      (project_event-Accepts "run-1" (event 1 "e1" "run.started" end) initial started refl)
