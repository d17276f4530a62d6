-- ===== src/Tests/Decisions.antt =====
-- A decision about a call that waits for approval, at a concrete store.
use incident_guard.Prelude.{◌≡◌, refl, false, some, none, [], ◌∷◌, Result, ok, has_text, arith}
use incident_guard.Json.{str, end, field, pos, dyadic, get, is_truthy}
use incident_guard.Json.Canonical.{canonical_fields, insert_field, text_le}
use incident_guard.Context.Groups.{has_string}
use incident_guard.Agents.Runtime.Approvals.{
  find_approval, durable_approval, check_pending, record_decision, decide_durable_approval,
}
use incident_guard.Agents.Runtime.Decisions.{durable_approval-decide_durable_approval}
use incident_guard.Events.Inbox.{Stamp, stamped, projection_of}
use incident_guard.Events.Kinds.{event_kind}
use incident_guard.Events.Payload.{text}
use incident_guard.Events.Projected.{RunProjection}
use incident_guard.Events.Projection.{apply_event, project_event, project_events, project}
use incident_guard.Events.Store.{
  Store, run_event, new_run_event, append, append_batch, insert_batch, insert_row, max_sequence,
  sql_has_text, fits_integer, replay, rows_to_events,
}
use incident_guard.Events.Store.Table.{IsWellFormed}
use incident_guard.Tests.Samples.{event, projected}

abbrev waiting : Store
waiting = record {
  rows =
      event 1 "e1" "run.started" end
      ∷ event 2 "e2" "approval.requested" (
          field "call_id" (str "c1")
            (field "reason" (str "policy") (field "request_id" (str "approval:c1") end)))
      ∷ [];
  closed = false;
}

waiting-IsWellFormed : IsWellFormed waiting.rows
unfolding run_event canonical_fields insert_field text_le has_text
waiting-IsWellFormed = record {
  numbered = λ run_id. ground arith;
  distinct = (refl, (refl, tt));
  events = (refl, (refl, tt));
}

abbrev stamp : Stamp
stamp = record { event_id = "n1"; occurred_at = dyadic (pos 0) (pos 0) }

abbrev later : Stamp
later = record { event_id = "n2"; occurred_at = dyadic (pos 0) (pos 0) }

abbrev rejected : Result RunProjection × Store
rejected = decide_durable_approval "run-1" "c1" false "too risky" stamp later waiting

undecided : durable_approval "run-1" "c1" waiting ≡ ok none
unfolding durable_approval replay fits_integer rows_to_events run_event canonical_fields
    insert_field text_le has_text find_approval has_string get
undecided = refl

decides :
    decide_durable_approval "run-1" "c1" false "too risky" stamp later waiting
    ≡ (ok (projected rejected.0), rejected.1)
unfolding decide_durable_approval record_decision check_pending replay rows_to_events run_event
    canonical_fields insert_field text_le has_text has_string get project project_events
    project_event apply_event event_kind text stamped new_run_event append append_batch insert_batch
    insert_row max_sequence sql_has_text fits_integer is_truthy projection_of
decides = refl

durable_approval-decide_durable_approval_example :
    durable_approval "run-1" "c1" rejected.1 ≡ ok (some false)
durable_approval-decide_durable_approval_example =
    durable_approval-decide_durable_approval "run-1" "c1" false "too risky" stamp later waiting
      waiting-IsWellFormed undecided decides
