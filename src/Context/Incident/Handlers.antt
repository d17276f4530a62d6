-- ===== src/Context/Incident/Handlers.antt =====
-- incident_guard/context/incident_state.py: the branches of `project` on the type of an event.
use incident_guard.Prelude.{
  String, Bool, true, false, not, Option, none, some, lookup, insert, without, contains, Result, ok,
  err, value_error, ◌>>=◌, ◌>>◌, raise_if, if◌then◌else◌,
}
use incident_guard.Json.{Value, bool, get}
use incident_guard.Context.Groups.{has_string}
use incident_guard.Context.Incident.{
  ActionStatus, requested, started, ExecutedAction, ApprovalStatus, pending, approved, rejected,
  ApprovalState, Known, require_text, optional_text, evidence_ids_of, arguments_of,
}
use incident_guard.Events.Store.{RunEvent}

unfoldable pub on_evidence : RunEvent → Known → Result Known
on_evidence event k = do
  evidence_id ← require_text event.payload "evidence_id" false
  raise_if (contains evidence_id k.evidence) (value_error "duplicate evidence_id: {evidence_id}")
  summary ← require_text event.payload "content" true
  content_ref ← optional_text event.payload "content_ref"
  content_sha256 ← optional_text event.payload "content_sha256"
  ok (record k {
    evidence =
        insert evidence_id
          (record {
            evidence_id = evidence_id;
            summary = summary;
            source_sequence = event.sequence;
            content_ref = content_ref;
            content_sha256 = content_sha256;
          })
          k.evidence;
  })

unfoldable pub on_fact : RunEvent → Known → Result Known
on_fact event k = do
  fact_id ← require_text event.payload "fact_id" false
  evidence_ids ← evidence_ids_of event.payload k.evidence
  statement ← require_text event.payload "statement" false
  ok (record k {
    facts =
        insert fact_id
          (record {
            fact_id = fact_id;
            statement = statement;
            source_sequence = event.sequence;
            evidence_ids = evidence_ids;
          })
          k.facts;
  })

unfoldable pub on_hypothesis : RunEvent → Known → Result Known
on_hypothesis event k = do
  statement ← require_text event.payload "statement" false
  evidence_ids ← evidence_ids_of event.payload k.evidence
  ok (record k {
    hypothesis = some (record {
      statement = statement;
      source_sequence = event.sequence;
      evidence_ids = evidence_ids;
    });
  })

unfoldable pub on_action_requested : RunEvent → Known → Result Known
on_action_requested event k = if not (has_string event.payload "effect" "mutate") then ok k else (do
  call_id ← require_text event.payload "call_id" false
  name ← require_text event.payload "name" false
  arguments ← arguments_of (get event.payload "arguments")
  ok (record k {
    actions =
        insert call_id
          (record {
            call_id = call_id;
            name = name;
            arguments = arguments;
            status = requested;
            requested_sequence = event.sequence;
            terminal_sequence = none;
            result = none;
          })
          k.actions;
  }))

-- `actions[call_id] = self._replace_action(action, status=STARTED)`
abbrev pub start_action : String → Option ExecutedAction → Known → Known
start_action call_id none k = k
start_action call_id (some action) k = record k {
  actions = insert call_id (record action { status = started }) k.actions;
}

unfoldable pub on_action_started : RunEvent → Known → Result Known
on_action_started event k = do
  call_id ← require_text event.payload "call_id" false
  ok (start_action call_id (lookup call_id k.actions) k)

abbrev pub end_action :
    ActionStatus → RunEvent → String → Option ExecutedAction → Known → Result Known
end_action status event call_id none k = ok k
end_action status event call_id (some action) k = do
  content ← require_text event.payload "content" true
  ok (record k {
    actions =
        insert call_id
          (record action {
            status = status;
            terminal_sequence = some event.sequence;
            result = some content;
          })
          k.actions;
  })

unfoldable pub on_action_ended : ActionStatus → RunEvent → Known → Result Known
on_action_ended status event k = do
  call_id ← require_text event.payload "call_id" false
  end_action status event call_id (lookup call_id k.actions) k

unfoldable pub on_approval_asked : RunEvent → Known → Result Known
on_approval_asked event k = do
  request_id ← require_text event.payload "request_id" false
  raise_if (contains request_id k.approvals)
      (value_error "duplicate approval request: {request_id}")
  call_id ← require_text event.payload "call_id" false
  reason ← require_text event.payload "reason" true
  ok (record k {
    approvals =
        insert request_id
          (record {
            request_id = request_id;
            call_id = call_id;
            status = pending;
            requested_sequence = event.sequence;
            decision_sequence = none;
            reason = reason;
          })
          k.approvals;
  })

abbrev pub is_decided : ApprovalState → Bool
is_decided approval = elim approval.decision_sequence [ none ↦ false | some _ ↦ true ]

abbrev pub verdict : Option Value → Result ApprovalStatus
verdict (some (bool true)) = ok approved
verdict (some (bool false)) = ok rejected
verdict _ = err (value_error "approval approved must be a bool")

unfoldable pub decide_approval : RunEvent → String → Option ApprovalState → Known → Result Known
decide_approval event request_id none k =
    err (value_error "approval decision has no pending request")
decide_approval event request_id (some approval) k = do
  raise_if (is_decided approval) (value_error "approval decision has no pending request")
  status ← verdict (get event.payload "approved")
  reason ← require_text event.payload "reason" true
  ok (record k {
    approvals =
        insert request_id
          (record approval {
            status = status;
            decision_sequence = some event.sequence;
            reason = reason;
          })
          k.approvals;
  })

unfoldable pub on_approval_decided : RunEvent → Known → Result Known
on_approval_decided event k = do
  request_id ← require_text event.payload "request_id" false
  decide_approval event request_id (lookup request_id k.approvals) k

unfoldable pub on_item_added : RunEvent → Known → Result Known
on_item_added event k = do
  item_id ← require_text event.payload "item_id" false
  description ← require_text event.payload "description" false
  ok (record k {
    unfinished =
        insert item_id
          (record {
            item_id = item_id;
            description = description;
            source_sequence = event.sequence;
          })
          k.unfinished;
  })

unfoldable pub on_item_completed : RunEvent → Known → Result Known
on_item_completed event k = do
  item_id ← require_text event.payload "item_id" false
  raise_if (not (contains item_id k.unfinished)) (value_error "unknown work item: {item_id}")
  ok (record k { unfinished = without item_id k.unfinished })
