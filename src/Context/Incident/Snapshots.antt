-- ===== src/Context/Incident/Snapshots.antt =====
-- What holds of every snapshot of incident_guard/context/incident_state.py.
use incident_guard.Prelude.{
  String, ◌≡◌, refl, subst, true, List, [], ◌∷◌, ok, Leads, Leads-ok, Leads-bind, Ensures-ok,
  >>=-eq-ok, ok-injective, All,
}
use incident_guard.Context.Incident.{
  ConfirmedFact, completed, failed, Known, nothing_known, IncidentStateSnapshot,
}
use incident_guard.Context.Incident.Fold.{learn_by, learn, learn_all, project_incident}
use incident_guard.Context.Incident.Sources.{cites, cited_by}
use incident_guard.Events.Kinds
use incident_guard.Events.Kinds.{EventKind, event_kind}
use incident_guard.Events.Projection.{project}
use incident_guard.Events.Store.{RunEvent}
use incident_guard.Context.Incident.Grounds.{IsConsistent, Grounded}
use incident_guard.Context.Incident.Handled.{
  on_evidence-Grounded, on_fact-Grounded, on_hypothesis-Grounded, on_action_requested-Grounded,
  on_action_started-Grounded, on_action_ended-Grounded, on_approval_asked-Grounded,
  on_approval_decided-Grounded, on_item_added-Grounded, on_item_completed-Grounded,
}

learn_by-Grounded :
    (kind : EventKind) (event : RunEvent) (k : Known)
    → Grounded k
    → Leads Grounded (learn_by kind event k)
unfolding learn_by
learn_by-Grounded Kinds.evidence_recorded event k g = on_evidence-Grounded event k g
learn_by-Grounded Kinds.fact_confirmed event k g = on_fact-Grounded event k g
learn_by-Grounded Kinds.hypothesis_updated event k g = on_hypothesis-Grounded event k g
learn_by-Grounded Kinds.tool_requested event k g = on_action_requested-Grounded event k g
learn_by-Grounded Kinds.tool_started event k g = on_action_started-Grounded event k g
learn_by-Grounded Kinds.tool_completed event k g = on_action_ended-Grounded completed event k g
learn_by-Grounded Kinds.tool_failed event k g = on_action_ended-Grounded failed event k g
learn_by-Grounded Kinds.approval_requested event k g = on_approval_asked-Grounded event k g
learn_by-Grounded Kinds.approval_decided event k g = on_approval_decided-Grounded event k g
learn_by-Grounded Kinds.work_item_added event k g = on_item_added-Grounded event k g
learn_by-Grounded Kinds.work_item_completed event k g = on_item_completed-Grounded event k g
learn_by-Grounded Kinds.run_started event k g = Leads-ok Grounded k g
learn_by-Grounded Kinds.turn_started event k g = Leads-ok Grounded k g
learn_by-Grounded Kinds.operator_message event k g = Leads-ok Grounded k g
learn_by-Grounded Kinds.context_injected event k g = Leads-ok Grounded k g
learn_by-Grounded Kinds.alert_received event k g = Leads-ok Grounded k g
learn_by-Grounded Kinds.goal_set event k g = Leads-ok Grounded k g
learn_by-Grounded Kinds.step_started event k g = Leads-ok Grounded k g
learn_by-Grounded Kinds.assistant_message event k g = Leads-ok Grounded k g
learn_by-Grounded Kinds.step_completed event k g = Leads-ok Grounded k g
learn_by-Grounded Kinds.inbox_message event k g = Leads-ok Grounded k g
learn_by-Grounded Kinds.inbox_consumed event k g = Leads-ok Grounded k g
learn_by-Grounded Kinds.run_cancelling event k g = Leads-ok Grounded k g
learn_by-Grounded Kinds.run_completed event k g = Leads-ok Grounded k g
learn_by-Grounded Kinds.run_cancelled event k g = Leads-ok Grounded k g
learn_by-Grounded Kinds.run_failed event k g = Leads-ok Grounded k g
learn_by-Grounded Kinds.run_failed_uncertain event k g = Leads-ok Grounded k g
learn_by-Grounded Kinds.unsupported event k g = Leads-ok Grounded k g

learn_all-Grounded :
    (events : List RunEvent) (k : Known) → Grounded k → Leads Grounded (learn_all events k)
unfolding learn_all learn
learn_all-Grounded [] k g = Leads-ok Grounded k g
learn_all-Grounded (event ∷ events) k g =
    Leads-bind Grounded (learn_by (event_kind event.event_type) event k) _ (λ k' e.
      learn_all-Grounded events k'
        (Ensures-ok Grounded _ k' e (learn_by-Grounded (event_kind event.event_type) event k g).at))

nothing_known-Grounded : Grounded nothing_known
nothing_known-Grounded = record { keyed = tt; facts = tt; hypothesis = refl; approvals = tt }

-- In a snapshot that `project` returns, every confirmed fact and the hypothesis cite only evidence that
-- the snapshot has, and an approval has a decision exactly when it is not pending.
pub project_incident-Grounded :
    (run_id : String) (events : List RunEvent) {snapshot : IncidentStateSnapshot}
    → project_incident run_id events ≡ ok snapshot
    → All
        (λ (fact : ConfirmedFact). cites snapshot.evidence fact.evidence_ids ≡ true)
        snapshot.confirmed_facts
      × (cites snapshot.evidence (cited_by snapshot.current_hypothesis) ≡ true)
      × All IsConsistent snapshot.approvals
unfolding project_incident
project_incident-Grounded run_id events {snapshot} h =
    let ran = >>=-eq-ok (project run_id events) _ h in
    let learned = >>=-eq-ok (learn_all events nothing_known) _ ran.2 in
    let g =
      Ensures-ok Grounded _ learned.0 learned.1
        (learn_all-Grounded events nothing_known nothing_known-Grounded).at in
    subst
      (λ (s : IncidentStateSnapshot).
        All (λ (fact : ConfirmedFact). cites s.evidence fact.evidence_ids ≡ true) s.confirmed_facts
        × (cites s.evidence (cited_by s.current_hypothesis) ≡ true)
        × All IsConsistent s.approvals)
      (ok-injective learned.2) (g.facts, g.hypothesis, g.approvals)
