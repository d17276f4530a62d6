-- ===== src/Context/Incident/Fold.antt =====
-- incident_guard/context/incident_state.py: `IncidentStateProjector.project`.
use incident_guard.Prelude.{String, List, [], ◌∷◌, values, Result, ok, ◌>>=◌}
use incident_guard.Context.Incident.{completed, failed, Known, nothing_known, IncidentStateSnapshot}
use incident_guard.Context.Incident.Handlers.{
  on_evidence, on_fact, on_hypothesis, on_action_requested, on_action_started, on_action_ended,
  on_approval_asked, on_approval_decided, on_item_added, on_item_completed,
}
use incident_guard.Events.Kinds
use incident_guard.Events.Kinds.{EventKind, event_kind}
use incident_guard.Events.Store.{RunEvent}
use incident_guard.Events.Projected.{RunProjection}
use incident_guard.Events.Projection.{project}

-- The branches on the type of the event.
unfoldable pub learn_by : EventKind → RunEvent → Known → Result Known
learn_by Kinds.evidence_recorded event k = on_evidence event k
learn_by Kinds.fact_confirmed event k = on_fact event k
learn_by Kinds.hypothesis_updated event k = on_hypothesis event k
learn_by Kinds.tool_requested event k = on_action_requested event k
learn_by Kinds.tool_started event k = on_action_started event k
learn_by Kinds.tool_completed event k = on_action_ended completed event k
learn_by Kinds.tool_failed event k = on_action_ended failed event k
learn_by Kinds.approval_requested event k = on_approval_asked event k
learn_by Kinds.approval_decided event k = on_approval_decided event k
learn_by Kinds.work_item_added event k = on_item_added event k
learn_by Kinds.work_item_completed event k = on_item_completed event k
learn_by _ event k = ok k

unfoldable pub learn : RunEvent → Known → Result Known
learn event k = learn_by (event_kind event.event_type) event k

unfoldable pub learn_all : List RunEvent → Known → Result Known
learn_all [] k = ok k
learn_all (event ∷ events) k = do k' ← learn event k; learn_all events k'

abbrev pub snapshot_of : String → RunProjection → Known → IncidentStateSnapshot
snapshot_of run_id run k = record {
  run_id = run_id;
  status = run.status;
  confirmed_facts = values k.facts;
  current_hypothesis = k.hypothesis;
  evidence = values k.evidence;
  executed_actions = values k.actions;
  approvals = values k.approvals;
  unfinished_items = values k.unfinished;
  last_sequence = run.last_sequence;
}

-- `IncidentStateProjector.project`
unfoldable pub project_incident : String → List RunEvent → Result IncidentStateSnapshot
project_incident run_id events = do
  run ← project run_id events
  k ← learn_all events nothing_known
  ok (snapshot_of run_id run k)
