-- ===== src/Agents/Runtime/Approvals.antt =====
-- incident_guard/agents/event_runtime.py: the decisions of operators in the events of a run.
use incident_guard.Prelude.{
  String, Bool, true, false, not, ◌&&◌, Option, none, some, List, [], ◌∷◌, Result, ok, err,
  value_error, runtime_error, projection_error, ◌>>=◌, ◌>>◌, raise_if, str_eq, lookup, any_of,
  if◌then◌else◌, str_append,
}
use incident_guard.Json.{Fields, Value, bool, str, field, end, get}
use incident_guard.Json.Canonical.{canonical_fields}
use incident_guard.Json.Equality.{same_fields}
use incident_guard.Agents.Provider.{is_empty}
use incident_guard.Agents.Tools.{ApprovalRequest, ApprovalDecision}
use incident_guard.Context.Groups.{has_string}
use incident_guard.Events.Store.{NewRunEvent, RunEvent, Store, append, replay}
use incident_guard.Events.Locals.{is_waiting}
use incident_guard.Events.Projected.{ToolProjection, RunProjection}
use incident_guard.Events.Projection.{project}
use incident_guard.Events.Inbox.{Stamp, stamped, projection_of}

-- The id under which the approval of a call is asked for.
abbrev pub approval_id : String → String
approval_id call_id = str_append "approval:" call_id

abbrev pub is_request_of : String → String → RunEvent → Bool
is_request_of request_id call_id event =
    str_eq event.event_type "approval.requested"
    && has_string event.payload "request_id" request_id
    && has_string event.payload "call_id" call_id

abbrev pub is_decision_of : String → RunEvent → Bool
is_decision_of request_id event =
    str_eq event.event_type "approval.decided" && has_string event.payload "request_id" request_id

abbrev pub approved_of : Option Value → Result Bool
approved_of (some (bool b)) = ok b
approved_of _ = err (projection_error "approval decision must contain a bool")

-- The loop of `_durable_approval`: the first decision behind a request.
unfoldable pub find_approval : String → String → Bool → List RunEvent → Result (Option Bool)
find_approval request_id call_id requested [] = ok none
find_approval request_id call_id requested (event ∷ events) =
    let rest = find_approval request_id call_id requested events in
    let asked = find_approval request_id call_id true events in
    if is_request_of request_id call_id event
    then asked
    else if requested && is_decision_of request_id event
    then (do ok (some (← approved_of (get event.payload "approved"))))
    else rest

-- `_durable_approval`
unfoldable pub durable_approval : String → String → Store → Result (Option Bool)
durable_approval run_id call_id store = do
  events ← replay run_id 0 store
  find_approval (approval_id call_id) call_id false events

-- The loop of `DurableApprovalProvider.request_approval`: whether the call has been asked about, and the
-- payload of the last decision.
unfoldable pub scan_decisions :
    String → String → Bool × Option Fields → List RunEvent → Bool × Option Fields
scan_decisions request_id call_id found [] = found
scan_decisions request_id call_id (requested, decision) (event ∷ events) =
    if is_request_of request_id call_id event
    then scan_decisions request_id call_id (true, decision) events
    else if is_decision_of request_id event
    then scan_decisions request_id call_id (requested, some event.payload) events
    else scan_decisions request_id call_id (requested, decision) events

abbrev matches_call : ApprovalRequest → Option ToolProjection → Bool
matches_call request none = false
matches_call request (some tool) =
    str_eq tool.name request.call.name
    && same_fields (canonical_fields tool.arguments) (canonical_fields request.call.arguments)

abbrev approved_bool : Option Value → Result Bool
approved_bool (some (bool b)) = ok b
approved_bool _ = err (value_error "durable approval decision must contain a bool")

-- `str(payload.get("reason", ""))`; `format` stands for `str` of a JSON value.
abbrev reason_of : (Value → String) → Option Value → String
reason_of format none = ""
reason_of format (some (str s)) = s
reason_of format (some v) = format v

abbrev decision_of :
    (Value → String) → ApprovalRequest → Bool × Option Fields → Result ApprovalDecision
decision_of format request (true, some payload) = do
  approved ← approved_bool (get payload "approved")
  ok (record {
    request_id = request.request_id;
    approved = approved;
    reason = reason_of format (get payload "reason");
  })
decision_of format request _ = err (runtime_error "tool call has no durable approval decision")

-- `DurableApprovalProvider.request_approval`
unfoldable pub request_durable_approval :
    (Value → String) → String → ApprovalRequest → Store → Result ApprovalDecision
request_durable_approval format run_id request store = do
  projection ← projection_of run_id store
  raise_if (not (matches_call request (lookup request.call.id projection.tools)))
      (value_error "durable approval does not match the requested tool call")
  raise_if (not (str_eq request.request_id (approval_id request.call.id)))
      (value_error "durable approval request id does not match the tool call")
  events ← replay run_id 0 store
  decision_of format request
      (scan_decisions request.request_id request.call.id (false, none) events)

abbrev pub then_project : String → Result RunEvent × Store → Result RunProjection × Store
then_project run_id (ok event, store) = (projection_of run_id store, store)
then_project run_id (err e, store) = (err e, store)

-- The second append of `decide_durable_approval`, of a decision that refuses.
abbrev pub record_refused : String → Result NewRunEvent → Store → Result RunProjection × Store
record_refused run_id (err e) store = (err e, store)
record_refused run_id (ok failure) store = then_project run_id (append run_id failure store)

abbrev pub rejected_payload : String → Fields
rejected_payload call_id = field "reason" (str (str_append "operator rejected " call_id)) end

abbrev pub then_fail :
    String → String → Stamp → Result RunEvent × Store → Result RunProjection × Store
then_fail run_id call_id stamp (err e, store) = (err e, store)
then_fail run_id call_id stamp (ok event, store) =
    record_refused run_id (stamped "run.failed" (rejected_payload call_id) stamp) store

-- `decide_durable_approval` up to the first append
unfoldable pub check_pending : String → String → Store → Result (Unit {0})
check_pending run_id call_id store = do
  events ← replay run_id 0 store
  raise_if (is_empty events) (value_error "run does not exist: {run_id}")
  projection ← project run_id events
  raise_if (not (is_waiting projection.status)) (value_error "run is not waiting for approval")
  raise_if (not (any_of (is_request_of (approval_id call_id) call_id) events))
      (value_error "no pending approval for call: {call_id}")

abbrev pub decision_payload : String → Bool → String → Fields
decision_payload call_id approved reason =
    field "request_id" (str (approval_id call_id))
      (field "approved" (bool approved) (field "reason" (str reason) end))

-- `decide_durable_approval` from the first append on
unfoldable pub record_decision :
    String → String → Bool → Stamp → Result NewRunEvent → Store → Result RunProjection × Store
record_decision run_id call_id approved second (err e) store = (err e, store)
record_decision run_id call_id true second (ok decision) store =
    then_project run_id (append run_id decision store)
record_decision run_id call_id false second (ok decision) store =
    then_fail run_id call_id second (append run_id decision store)

unfoldable pub decide_durable_approval :
    String → String → Bool → String → Stamp → Stamp → Store → Result RunProjection × Store
decide_durable_approval run_id call_id approved reason stamp second store =
    record_decision run_id call_id approved second
      (check_pending run_id call_id store
        >> stamped "approval.decided" (decision_payload call_id approved reason) stamp)
      store
