-- ===== src/Context/Incident/Handled.antt =====
-- How the branches of `project` in incident_guard/context/incident_state.py keep its invariant.
use incident_guard.Prelude.{
  String, ◌≡◌, refl, ap, sym, true, false, not, Option, none, some, lookup, values, contains, ok,
  value_error, Leads, inl, inr, Leads-ok, Leads-bind, Leads-raise_if, ok-injective, All-insert,
  Bool-cases,
}
use incident_guard.Json.{Value, str, int, float, bool, null, obj, arr, get}
use incident_guard.Context.Groups.{has_string}
use incident_guard.Context.Incident.{
  ConfirmedFact, ActionStatus, ExecutedAction, ApprovalStatus, ApprovalState, Known, require_text,
  optional_text, evidence_ids_of, arguments_of,
}
use incident_guard.Context.Incident.Handlers.{
  on_evidence, on_fact, on_hypothesis, on_action_requested, start_action, on_action_started,
  end_action, on_action_ended, on_approval_asked, is_decided, verdict, decide_approval,
  on_approval_decided, on_item_added, on_item_completed,
}
use incident_guard.Context.Incident.Sources.{cites, evidence_ids_of-cites}
use incident_guard.Events.Store.{RunEvent}
use incident_guard.Context.Incident.Grounds.{
  is_pending, Grounded, with_evidence-Grounded, with_actions-Grounded, with_approval-Grounded,
  with_items-Grounded,
}

pub on_evidence-Grounded :
    (event : RunEvent) (k : Known) → Grounded k → Leads Grounded (on_evidence event k)
unfolding on_evidence
on_evidence-Grounded event k g =
    Leads-bind Grounded (require_text event.payload "evidence_id" false) _ (λ evidence_id e1.
      Leads-raise_if Grounded (contains evidence_id k.evidence)
        (value_error "duplicate evidence_id: {evidence_id}") _
        (λ fresh. Leads-bind Grounded (require_text event.payload "content" true) _ (λ summary e2.
          Leads-bind Grounded (optional_text event.payload "content_ref") _ (λ content_ref e3.
            Leads-bind Grounded (optional_text event.payload "content_sha256") _
              (λ content_sha256 e4.
                Leads-ok Grounded _ (with_evidence-Grounded k evidence_id _ refl fresh g))))))

pub on_fact-Grounded :
    (event : RunEvent) (k : Known) → Grounded k → Leads Grounded (on_fact event k)
unfolding on_fact
on_fact-Grounded event k g =
    Leads-bind Grounded (require_text event.payload "fact_id" false) _ (λ fact_id e1.
      Leads-bind Grounded (evidence_ids_of event.payload k.evidence) _ (λ evidence_ids e2.
        Leads-bind Grounded (require_text event.payload "statement" false) _ (λ statement e3.
          Leads-ok Grounded _ (record {
            keyed = g.keyed;
            facts =
                All-insert
                  (λ (fact : ConfirmedFact). cites (values k.evidence) fact.evidence_ids ≡ true)
                  fact_id _ k.facts
                  (evidence_ids_of-cites event.payload k.evidence evidence_ids g.keyed e2) g.facts;
            hypothesis = g.hypothesis;
            approvals = g.approvals;
          }))))

pub on_hypothesis-Grounded :
    (event : RunEvent) (k : Known) → Grounded k → Leads Grounded (on_hypothesis event k)
unfolding on_hypothesis
on_hypothesis-Grounded event k g =
    Leads-bind Grounded (require_text event.payload "statement" false) _ (λ statement e1.
      Leads-bind Grounded (evidence_ids_of event.payload k.evidence) _ (λ evidence_ids e2.
        Leads-ok Grounded _ (record {
          keyed = g.keyed;
          facts = g.facts;
          hypothesis = evidence_ids_of-cites event.payload k.evidence evidence_ids g.keyed e2;
          approvals = g.approvals;
        })))

pub on_action_requested-Grounded :
    (event : RunEvent) (k : Known) → Grounded k → Leads Grounded (on_action_requested event k)
unfolding on_action_requested
on_action_requested-Grounded event k g =
    elim (Bool-cases (has_string event.payload "effect" "mutate")) [
      | inr reads ↦ rw reads (Leads-ok Grounded k g)
      | inl mutates ↦ rw mutates (
          Leads-bind Grounded (require_text event.payload "call_id" false) _ (λ call_id e1.
            Leads-bind Grounded (require_text event.payload "name" false) _ (λ name e2.
              Leads-bind Grounded (arguments_of (get event.payload "arguments")) _
                (λ arguments e3. Leads-ok Grounded _ (with_actions-Grounded k _ g)))))
    ]

start_action-Grounded :
    (call_id : String) (action : Option ExecutedAction) (k : Known)
    → Grounded k
    → Grounded (start_action call_id action k)
start_action-Grounded call_id none k g = g
start_action-Grounded call_id (some action) k g = with_actions-Grounded k _ g

pub on_action_started-Grounded :
    (event : RunEvent) (k : Known) → Grounded k → Leads Grounded (on_action_started event k)
unfolding on_action_started
on_action_started-Grounded event k g =
    Leads-bind Grounded (require_text event.payload "call_id" false) _ (λ call_id e.
      Leads-ok Grounded _ (start_action-Grounded call_id (lookup call_id k.actions) k g))

end_action-Grounded :
    (status : ActionStatus) (event : RunEvent) (call_id : String) (action : Option ExecutedAction)
    (k : Known)
    → Grounded k
    → Leads Grounded (end_action status event call_id action k)
end_action-Grounded status event call_id none k g = Leads-ok Grounded k g
end_action-Grounded status event call_id (some action) k g =
    Leads-bind Grounded (require_text event.payload "content" true) _
      (λ content e. Leads-ok Grounded _ (with_actions-Grounded k _ g))

pub on_action_ended-Grounded :
    (status : ActionStatus) (event : RunEvent) (k : Known)
    → Grounded k
    → Leads Grounded (on_action_ended status event k)
unfolding on_action_ended
on_action_ended-Grounded status event k g =
    Leads-bind Grounded (require_text event.payload "call_id" false) _
      (λ call_id e. end_action-Grounded status event call_id (lookup call_id k.actions) k g)

pub on_approval_asked-Grounded :
    (event : RunEvent) (k : Known) → Grounded k → Leads Grounded (on_approval_asked event k)
unfolding on_approval_asked
on_approval_asked-Grounded event k g =
    Leads-bind Grounded (require_text event.payload "request_id" false) _ (λ request_id e1.
      Leads-raise_if Grounded (contains request_id k.approvals)
        (value_error "duplicate approval request: {request_id}") _
        (λ fresh. Leads-bind Grounded (require_text event.payload "call_id" false) _ (λ call_id e2.
          Leads-bind Grounded (require_text event.payload "reason" true) _
            (λ reason e3. Leads-ok Grounded _ (with_approval-Grounded k request_id _ refl g)))))

verdict-decides :
    (v : Option Value) (status : ApprovalStatus) → verdict v ≡ ok status → is_pending status ≡ false
verdict-decides none status h = cc
verdict-decides (some (bool true)) status h = ap is_pending (sym (ok-injective h))
verdict-decides (some (bool false)) status h = ap is_pending (sym (ok-injective h))
verdict-decides (some (str s)) status h = cc
verdict-decides (some (int n)) status h = cc
verdict-decides (some (float x)) status h = cc
verdict-decides (some null) status h = cc
verdict-decides (some (obj fs)) status h = cc
verdict-decides (some (arr vs)) status h = cc

decide_approval-Grounded :
    (event : RunEvent) (request_id : String) (approval : Option ApprovalState) (k : Known)
    → Grounded k
    → Leads Grounded (decide_approval event request_id approval k)
unfolding decide_approval
decide_approval-Grounded event request_id none k g = record { at = tt }
decide_approval-Grounded event request_id (some approval) k g =
    Leads-raise_if Grounded (is_decided approval)
      (value_error "approval decision has no pending request") _
      (λ open_still. Leads-bind Grounded (verdict (get event.payload "approved")) _ (λ status e1.
        Leads-bind Grounded (require_text event.payload "reason" true) _ (λ reason e2.
          Leads-ok Grounded _ (
            with_approval-Grounded k request_id _
              (sym (ap not (verdict-decides (get event.payload "approved") status e1))) g))))

pub on_approval_decided-Grounded :
    (event : RunEvent) (k : Known) → Grounded k → Leads Grounded (on_approval_decided event k)
unfolding on_approval_decided
on_approval_decided-Grounded event k g =
    Leads-bind Grounded (require_text event.payload "request_id" false) _ (λ request_id e.
      decide_approval-Grounded event request_id (lookup request_id k.approvals) k g)

pub on_item_added-Grounded :
    (event : RunEvent) (k : Known) → Grounded k → Leads Grounded (on_item_added event k)
unfolding on_item_added
on_item_added-Grounded event k g =
    Leads-bind Grounded (require_text event.payload "item_id" false) _ (λ item_id e1.
      Leads-bind Grounded (require_text event.payload "description" false) _
        (λ description e2. Leads-ok Grounded _ (with_items-Grounded k _ g)))

pub on_item_completed-Grounded :
    (event : RunEvent) (k : Known) → Grounded k → Leads Grounded (on_item_completed event k)
unfolding on_item_completed
on_item_completed-Grounded event k g =
    Leads-bind Grounded (require_text event.payload "item_id" false) _ (λ item_id e1.
      Leads-raise_if Grounded (not (contains item_id k.unfinished))
        (value_error "unknown work item: {item_id}") _
        (λ there. Leads-ok Grounded _ (with_items-Grounded k _ g)))
