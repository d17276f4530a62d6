-- ===== src/Tests/Incidents.antt =====
-- The incident state of a concrete run, in which a fact cites recorded evidence.
use incident_guard.Prelude.{
  ◌≡◌, refl, true, List, [], ◌∷◌, Result, ok, err, All, has_text, lookup, insert,
}
use incident_guard.Json.{str, arr, nil, cons, field, end, get, is_truthy}
use incident_guard.Events.Store.{RunEvent}
use incident_guard.Events.Kinds.{event_kind}
use incident_guard.Events.Payload.{
  text, positive_int, non_negative_int, optional_non_negative_int, tuple_of, object_of,
}
use incident_guard.Events.Locals.{require_step_identity}
use incident_guard.Events.Projection.{apply_event, project_event, project_events, project}
use incident_guard.Context.Incident.{
  ConfirmedFact, IncidentStateSnapshot, nothing_known, require_text, optional_text, evidence_ids_of,
}
use incident_guard.Context.Incident.Handlers.{on_evidence, on_fact, on_hypothesis}
use incident_guard.Context.Incident.Fold.{learn_by, learn, learn_all, snapshot_of, project_incident}
use incident_guard.Context.Incident.Grounds.{IsConsistent}
use incident_guard.Context.Incident.Sources.{cites, cited_by}
use incident_guard.Context.Incident.Snapshots.{project_incident-Grounded}
use incident_guard.Tests.Samples.{event, no_projection}

abbrev investigation : List RunEvent
investigation =
    event 1 "e1" "run.started" end
    ∷ event 2 "e2" "evidence.recorded" (
        field "evidence_id" (str "m1")
          (field "role" (str "system") (field "content" (str "error rate 12%") end)))
    ∷ event 3 "e3" "fact.confirmed" (
        field "fact_id" (str "f1") (
          field "statement" (str "requests fail")
            (field "evidence_ids" (arr (cons (str "m1") nil)) end)))
    ∷ event 4 "e4" "hypothesis.updated" (
        field "statement" (str "the last release broke checkout")
          (field "evidence_ids" (arr (cons (str "m1") nil)) end))
    ∷ []

abbrev shown : Result IncidentStateSnapshot → IncidentStateSnapshot
shown (ok s) = s
shown (err e) = snapshot_of "" no_projection nothing_known

abbrev snapshot : IncidentStateSnapshot
snapshot = shown (project_incident "run-1" investigation)

investigation-projects : project_incident "run-1" investigation ≡ ok snapshot
unfolding project_incident learn_all learn learn_by on_evidence on_fact on_hypothesis require_text
    optional_text evidence_ids_of project project_events project_event apply_event event_kind text
    positive_int non_negative_int optional_non_negative_int tuple_of object_of require_step_identity
    lookup insert has_text get is_truthy
investigation-projects = refl

project_incident-Grounded_example :
    All
      (λ (fact : ConfirmedFact). cites snapshot.evidence fact.evidence_ids ≡ true)
      snapshot.confirmed_facts
    × (cites snapshot.evidence (cited_by snapshot.current_hypothesis) ≡ true)
    × All IsConsistent snapshot.approvals
project_incident-Grounded_example =
    project_incident-Grounded "run-1" investigation investigation-projects
