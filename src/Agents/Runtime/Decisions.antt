-- ===== src/Agents/Runtime/Decisions.antt =====
-- What `decide_durable_approval` of incident_guard/agents/event_runtime.py records, the runtime reads.
use incident_guard.Prelude.{
  String, ◌≡◌, refl, sym, ap, ◌∙◌, Bool, true, false, not, Option, none, some, List, [], ◌∷◌, ◌++◌,
  Result, ok, err, ◌>>=◌, ◌>>◌, >>=-eq-ok, raise_if-eq-ok, any_of, arith, Error, raise_if,
}
use incident_guard.Agents.Runtime.Approvals.{
  approval_id, is_request_of, find_approval, durable_approval, then_fail, check_pending,
  decision_payload, record_refused, rejected_payload, record_decision, decide_durable_approval,
}
use incident_guard.Events.Inbox.{Stamp, stamped}
use incident_guard.Events.Inbox.Atomicity.{stamped-IsNewEvent}
use incident_guard.Events.Locals.{is_waiting}
use incident_guard.Events.Projected.{RunProjection}
use incident_guard.Events.Projection.{project}
use incident_guard.Events.Store.{NewRunEvent, RunEvent, Store, append, replay, to_row}
use incident_guard.Events.Store.Table.{IsWellFormed}
use incident_guard.Agents.Runtime.Readings.{
  find_approval-append, find_approval-decided, Stores, append-Stores, decision-reads,
  then_project-ok,
}

-- Whoever decides a pending approval for the first time, `_durable_approval` then reads this decision.
module _ (run_id call_id : String) where
  abbrev Asked : List RunEvent → Type 0
  Asked events = any_of (is_request_of (approval_id call_id) call_id) events ≡ true

  check_pending-Asked :
      (store : Store) (u : Unit {0})
      → check_pending run_id call_id store ≡ ok u
      → (events : List RunEvent) × (replay run_id 0 store ≡ ok events) × Asked events
  unfolding check_pending
  check_pending-Asked store u h =
      let read = >>=-eq-ok (replay run_id 0 store) _ h in
      let stored = raise_if-eq-ok _ _ _ read.2 in
      let projected = >>=-eq-ok (project run_id read.0) _ stored.1 in
      (
        read.0,
        read.1,
        passes (not (is_waiting projected.0.status))
            (any_of (is_request_of (approval_id call_id) call_id) read.0) _ _ projected.2,
      )
    where
      passes :
          (late there : Bool) (e e' : Error)
          → (raise_if late e >> raise_if (not there) e') ≡ ok u
          → there ≡ true
      passes late there e e' q = ground arith

  -- The log after a decision that reads as none before.
  decided-reads :
      (b : Bool) (reason : String) (stamp : Stamp) (made : NewRunEvent) (events : List RunEvent)
      (store' : Store)
      → stamped "approval.decided" (decision_payload call_id b reason) stamp ≡ ok made
      → Asked events
      → find_approval (approval_id call_id) call_id false events ≡ ok none
      → Stores run_id made events store'
      → (events' : List RunEvent) × (replay run_id 0 store' ≡ ok events')
        × (find_approval (approval_id call_id) call_id false events' ≡ ok (some b))
  decided-reads b reason stamp made events store' m asked undecided stored =
      let reads = decision-reads run_id call_id reason b stamp made stored.0 m in
      (
        events ++ to_row run_id stored.0 made ∷ [],
        stored.1,
        find_approval-decided (approval_id call_id) call_id false b events
            (to_row run_id stored.0 made) reads.0 reads.1 reads.2 undecided asked,
      )

  durable_approval-of :
      (store : Store) (events : List RunEvent) {found : Option Bool}
      → replay run_id 0 store ≡ ok events
      → find_approval (approval_id call_id) call_id false events ≡ ok found
      → durable_approval run_id call_id store ≡ ok found
  unfolding durable_approval
  durable_approval-of store events read found = rw (read, found) refl

  undecided-of :
      (store : Store) (events : List RunEvent)
      → replay run_id 0 store ≡ ok events
      → durable_approval run_id call_id store ≡ ok none
      → find_approval (approval_id call_id) call_id false events ≡ ok none
  unfolding durable_approval
  undecided-of store events read h =
      sym (ap (λ r. r >>= find_approval (approval_id call_id) call_id false) read) ∙ h

  record_refused-reads :
      (r : Result NewRunEvent) (second : Stamp) (before store' : Store) (events : List RunEvent)
      {p : RunProjection}
      → stamped "run.failed" (rejected_payload call_id) second ≡ r
      → IsWellFormed before.rows
      → replay run_id 0 before ≡ ok events
      → find_approval (approval_id call_id) call_id false events ≡ ok (some false)
      → record_refused run_id r before ≡ (ok p, store')
      → durable_approval run_id call_id store' ≡ ok (some false)
  record_refused-reads (err e) second before store' events m w read found h = cc
  record_refused-reads (ok failure) second before store' events m w read found h =
      let added = then_project-ok run_id (append run_id failure before) h in
      let stored =
        append-Stores run_id failure events before (stamped-IsNewEvent _ _ _ _ m) w read added.1 in
      durable_approval-of store' _ stored.1
        (find_approval-append (approval_id call_id) call_id false false events _ found)

  then_fail-reads :
      (r : Result RunEvent × Store) (second : Stamp) (store' : Store) (events : List RunEvent)
      {p : RunProjection}
      → IsWellFormed r.1.rows
      → replay run_id 0 r.1 ≡ ok events
      → find_approval (approval_id call_id) call_id false events ≡ ok (some false)
      → then_fail run_id call_id second r ≡ (ok p, store')
      → durable_approval run_id call_id store' ≡ ok (some false)
  then_fail-reads (err e, before) second store' events w read found h = cc
  then_fail-reads (ok event, before) second store' events w read found h =
      record_refused-reads (stamped "run.failed" (rejected_payload call_id) second) second before
        store' events refl w read found h

  then_fail-ok :
      (r : Result RunEvent × Store) (second : Stamp) (store' : Store) {p : RunProjection}
      → then_fail run_id call_id second r ≡ (ok p, store')
      → (event : RunEvent) × (r ≡ (ok event, r.1))
  then_fail-ok (err e, before) second store' h = cc
  then_fail-ok (ok event, before) second store' h = (event, refl)

  record_decision-reads :
      (b : Bool) (reason : String) (stamp second : Stamp) (made : NewRunEvent)
      (store store' : Store) (events : List RunEvent) {p : RunProjection}
      → IsWellFormed store.rows
      → replay run_id 0 store ≡ ok events
      → Asked events
      → find_approval (approval_id call_id) call_id false events ≡ ok none
      → stamped "approval.decided" (decision_payload call_id b reason) stamp ≡ ok made
      → record_decision run_id call_id b second (ok made) store ≡ (ok p, store')
      → durable_approval run_id call_id store' ≡ ok (some b)
  unfolding record_decision
  record_decision-reads true reason stamp second made store store' events w read asked undecided m
        h =
      let added = then_project-ok run_id (append run_id made store) h in
      let stored =
        append-Stores run_id made events store (stamped-IsNewEvent _ _ _ _ m) w read added.1 in
      let found = decided-reads true reason stamp made events store' m asked undecided stored in
      durable_approval-of store' found.0 found.1 found.2
  record_decision-reads false reason stamp second made store store' events w read asked undecided m
        h =
      let added = then_fail-ok (append run_id made store) second store' h in
      let stored =
        append-Stores run_id made events store (stamped-IsNewEvent _ _ _ _ m) w read added.1 in
      let found = decided-reads false reason stamp made events _ m asked undecided stored in
      then_fail-reads (append run_id made store) second store' found.0 stored.2 found.1 found.2 h

-- A decision that `decide_durable_approval` has recorded without an error, where the log of a well-formed
-- store held none for the call, is the one that the runtime's `_durable_approval` then reads, whether
-- it approves or rejects.
pub durable_approval-decide_durable_approval :
    (run_id call_id : String) (approved : Bool) (reason : String) (stamp second : Stamp)
    (store : Store) {p : RunProjection} {store' : Store}
    → IsWellFormed store.rows
    → durable_approval run_id call_id store ≡ ok none
    → decide_durable_approval run_id call_id approved reason stamp second store ≡ (ok p, store')
    → durable_approval run_id call_id store' ≡ ok (some approved)
unfolding decide_durable_approval
durable_approval-decide_durable_approval run_id call_id approved reason stamp second store {p}
      {store'} w undecided h =
    checked (check_pending run_id call_id store) refl h
  where
    decision : Result NewRunEvent
    decision = stamped "approval.decided" (decision_payload call_id approved reason) stamp

    made_of :
        (r : Result NewRunEvent) (u : Unit {0})
        → decision ≡ r
        → check_pending run_id call_id store ≡ ok u
        → record_decision run_id call_id approved second r store ≡ (ok p, store')
        → durable_approval run_id call_id store' ≡ ok (some approved)
    made_of (err e) u m c k = unfold record_decision in cc
    made_of (ok made) u m c k =
        let pending = check_pending-Asked run_id call_id store u c in
        record_decision-reads run_id call_id approved reason stamp second made store store'
          pending.0 w pending.1 pending.2
          (undecided-of run_id call_id store pending.0 pending.1 undecided) m k

    checked :
        (r : Result (Unit {0}))
        → check_pending run_id call_id store ≡ r
        → record_decision run_id call_id approved second (r >> decision) store ≡ (ok p, store')
        → durable_approval run_id call_id store' ≡ ok (some approved)
    checked (err e) c k = unfold record_decision in cc
    checked (ok u) c k = made_of decision u refl c k
