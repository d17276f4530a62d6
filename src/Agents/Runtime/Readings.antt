-- ===== src/Agents/Runtime/Readings.antt =====
-- How the events of a decision read in incident_guard/agents/event_runtime.py.
use incident_guard.Prelude.{
  ℕ, ◌+◌, String, ◌≡◌, refl, sym, ap, subst, ◌∙◌, Bool, true, false, ◌||◌, none, some, List, [],
  ◌∷◌, ◌++◌, Result, ok, err, ok-injective, any_of, str_eq_refl, has_text, length, arith,
}
use incident_guard.Json.{Fields, get}
use incident_guard.Json.Canonical.{canonical_fields, insert_field, text_le}
use incident_guard.Context.Groups.{has_string}
use incident_guard.Agents.Runtime.Approvals.{
  approval_id, is_request_of, is_decision_of, approved_of, find_approval, then_project,
  decision_payload,
}
use incident_guard.Events.Inbox.{Stamp, stamped}
use incident_guard.Events.Projected.{RunProjection}
use incident_guard.Events.Store.{
  NewRunEvent, new_run_event, RunEvent, Store, append, append_batch, first_of_batch, replay,
  fits_integer, to_row,
}
use incident_guard.Events.Store.Append.{IsNewEvent}
use incident_guard.Events.Store.Commit.{Outcome, append_batch_atomic, replay-append_batch}
use incident_guard.Events.Store.Table.{IsWellFormed, rows_of, replay-of}

pub find_approval-append :
    (request_id call_id : String) (asked b : Bool) (events more : List RunEvent)
    → find_approval request_id call_id asked events ≡ ok (some b)
    → find_approval request_id call_id asked (events ++ more) ≡ ok (some b)
unfolding find_approval
find_approval-append request_id call_id asked b [] more h = cc
find_approval-append request_id call_id asked b (event ∷ events) more h = ground (
  arith,
  find_approval-append request_id call_id true b events more,
  find_approval-append request_id call_id asked b events more,
)

-- The first decision behind a request is the one that is read.
pub find_approval-decided :
    (request_id call_id : String) (asked b : Bool) (events : List RunEvent) (decision : RunEvent)
    → is_request_of request_id call_id decision ≡ false
    → is_decision_of request_id decision ≡ true
    → approved_of (get decision.payload "approved") ≡ ok b
    → find_approval request_id call_id asked events ≡ ok none
    → asked || any_of (is_request_of request_id call_id) events ≡ true
    → find_approval request_id call_id asked (events ++ decision ∷ []) ≡ ok (some b)
unfolding find_approval
find_approval-decided request_id call_id asked b [] decision q d v h a = ground arith
find_approval-decided request_id call_id asked b (event ∷ events) decision q d v h a = ground (
  arith,
  find_approval-decided request_id call_id true b events decision q d v,
  find_approval-decided request_id call_id asked b events decision q d v,
)

first_of_batch-ok :
    (r : Result (List RunEvent) × Store) {event : RunEvent} {store : Store}
    → first_of_batch r ≡ (ok event, store)
    → (stored : List RunEvent) × (r ≡ (ok stored, store))
first_of_batch-ok (ok [], held) h = cc
first_of_batch-ok (ok (stored ∷ rest), held) h = (
  stored ∷ rest,
  ap (λ (t : Store). (ok (stored ∷ rest), t)) (ap (λ (p : Result RunEvent × Store). p.1) h),
)
first_of_batch-ok (err e, held) h = cc

abbrev pub Stores : String → NewRunEvent → List RunEvent → Store → Type 0
Stores run_id made events store' =
    (n : ℕ) × (replay run_id 0 store' ≡ ok (events ++ to_row run_id n made ∷ []))
    × IsWellFormed store'.rows

pub append-Stores :
    (run_id : String) (made : NewRunEvent) (events : List RunEvent) (store : Store)
    {event : RunEvent} {store' : Store}
    → IsNewEvent made
    → IsWellFormed store.rows
    → replay run_id 0 store ≡ ok events
    → append run_id made store ≡ (ok event, store')
    → Stores run_id made events store'
unfolding append fits_integer
append-Stores run_id made events store {event} {store'} new w read h =
    let batch = first_of_batch-ok (append_batch run_id (made ∷ []) store) h in
    let outcome =
      subst (Outcome run_id (made ∷ []) store) (batch.1)
        (append_batch_atomic run_id (made ∷ []) store (new, tt) w) in
    let able = readable run_id store events read in
    let listed = ok-injective (sym read ∙ replay-of run_id 0 store able.0 able.1 w) in
    (
      length (rows_of run_id store.rows) + 1,
      replay-append_batch run_id run_id 0 (made ∷ []) store (new, tt) w able.1 able.0 able.0 batch.1
          ∙ ap ok (rw (str_eq_refl run_id, outcome.0, listed) refl),
      outcome.2,
    )
  where
    readable :
        (run_id : String) (store : Store) (events : List RunEvent)
        → replay run_id 0 store ≡ ok events
        → (has_text run_id ≡ true) × (store.closed ≡ false)
    readable run_id store events e = unfold replay in ground arith

stamped-reads :
    (event_type : String) (payload : Fields) (stamp : Stamp) (made : NewRunEvent)
    → stamped event_type payload stamp ≡ ok made
    → (made.event_type ≡ event_type) × (made.payload ≡ canonical_fields payload)
unfolding stamped new_run_event
stamped-reads event_type payload stamp made h = ground arith

-- What the decision's event says, once its payload is in canonical form.
pub decision-reads :
    (run_id call_id reason : String) (b : Bool) (stamp : Stamp) (made : NewRunEvent) (n : ℕ)
    → stamped "approval.decided" (decision_payload call_id b reason) stamp ≡ ok made
    → (is_request_of (approval_id call_id) call_id (to_row run_id n made) ≡ false)
      × (is_decision_of (approval_id call_id) (to_row run_id n made) ≡ true)
      × (approved_of (get made.payload "approved") ≡ ok b)
unfolding canonical_fields insert_field text_le get has_string
decision-reads run_id call_id reason b stamp made n h =
    let read = stamped-reads "approval.decided" (decision_payload call_id b reason) stamp made h in
    rw (read.0, read.1, str_eq_refl (approval_id call_id)) (refl, refl, refl)

pub then_project-ok :
    (run_id : String) (r : Result RunEvent × Store) {p : RunProjection} {store : Store}
    → then_project run_id r ≡ (ok p, store)
    → (event : RunEvent) × (r ≡ (ok event, store))
then_project-ok run_id (ok event, held) h =
    (event, ap (λ (t : Store). (ok event, t)) (ap (λ (p : Result RunProjection × Store). p.1) h))
then_project-ok run_id (err e, held) h = cc
