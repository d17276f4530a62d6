-- ===== src/Events/Inbox/Atomicity.antt =====
-- What the methods of incident_guard/events/inbox.py do to the store.
use incident_guard.Prelude.{
  ℕ, suc, String, ◌≡◌, refl, ap, subst, ◌∙◌, true, List, [], ◌∷◌, ◌++◌, Result, ok, err, >>=-eq-ok,
  length, All, arith, has_text,
}
use incident_guard.Json.{Fields, field, str, end}
use incident_guard.Json.Canonical.{canonical_fields_idem}
use incident_guard.Events.Store.{NewRunEvent, new_run_event, RunEvent, Store, append_batch}
use incident_guard.Events.Store.Table.{IsWellFormed}
use incident_guard.Events.Store.Append.{IsNewEvent, to_rows}
use incident_guard.Events.Store.Commit.{Outcome, append_batch_atomic, next_sequence}
use incident_guard.Events.Inbox.{
  InboxTarget, InboxMessage, Stamp, stamped, answer_with, target_value, consumed_events,
  plan_consume, consume_plan, consume,
}

new_run_event-IsNewEvent :
    (event made : NewRunEvent) → new_run_event event ≡ ok made → IsNewEvent made
unfolding new_run_event
new_run_event-IsNewEvent event made h = ground (arith, canonical_fields_idem event.payload)

pub stamped-IsNewEvent :
    (event_type : String) (payload : Fields) (stamp : Stamp) (made : NewRunEvent)
    → stamped event_type payload stamp ≡ ok made
    → IsNewEvent made
unfolding stamped
stamped-IsNewEvent event_type payload stamp made h = new_run_event-IsNewEvent _ made h

pub consumed_events-of :
    (target : InboxTarget) (stamps : ℕ → Stamp) (n : ℕ) (messages : List InboxMessage)
    (events : List NewRunEvent)
    → consumed_events target stamps n messages ≡ ok events
    → All IsNewEvent events × (length events ≡ length messages)
unfolding consumed_events
consumed_events-of target stamps n [] [] h = (tt, refl)
consumed_events-of target stamps n [] (e ∷ es) h = cc
consumed_events-of target stamps n (m ∷ ms) events h =
    let first =
      >>=-eq-ok
        (stamped "inbox.consumed"
          (field "message_id" (str m.message_id) (field "boundary" (str (target_value target)) end))
          (stamps n))
        _ h in
    let others = >>=-eq-ok (consumed_events target stamps (suc n) ms) _ first.2 in
    let rest = consumed_events-of target stamps (suc n) ms others.0 others.1 in
    subst (λ (es : List NewRunEvent). All IsNewEvent es × (length es ≡ suc (length ms)))
      (the_events others.2) ((stamped-IsNewEvent _ _ _ first.0 first.1, rest.0), ap suc rest.1)
  where
    the_events : {es fs : List NewRunEvent} → ok es ≡ ok fs → es ≡ fs
    the_events e = cc

pub plan_consume-of :
    (run_id : String) (target : InboxTarget) (stamps : ℕ → Stamp) (store : Store)
    (pending : List InboxMessage) (events : List NewRunEvent)
    → plan_consume run_id target stamps store ≡ ok (pending, events)
    → consumed_events target stamps 0 pending ≡ ok events
unfolding plan_consume
plan_consume-of run_id target stamps store pending events h = ground arith

-- By the result of `consume`: an error leaves the store as it was; success stores one event for each
-- message that it returns, and these alone.
abbrev pub ConsumeOutcome :
    String → InboxTarget → (ℕ → Stamp) → Store → Result (List InboxMessage) × Store → Type 0
ConsumeOutcome run_id target stamps store (err e, store') = store' ≡ store
ConsumeOutcome run_id target stamps store (ok pending, store') =
    (events : List NewRunEvent) × (plan_consume run_id target stamps store ≡ ok (pending, events))
    × (length events ≡ length pending)
    × (store'
        ≡ record store { rows = store.rows ++ to_rows run_id (next_sequence run_id store) events })
    × IsWellFormed store'.rows

-- On a well-formed store `consume` is all or nothing: with an error the store is as it was; else the
-- events of its plan, one for each message that it returns, are stored behind the rows with the run's
-- next sequences, and the table stays well formed.
pub consume_atomic :
    (run_id : String) (target : InboxTarget) (stamps : ℕ → Stamp) (store : Store)
    → IsWellFormed store.rows
    → ConsumeOutcome run_id target stamps store (consume run_id target stamps store)
unfolding consume consume_plan
consume_atomic run_id target stamps store w = planned (plan_consume run_id target stamps store) refl
  where
    planned :
        (plan : Result (List InboxMessage × List NewRunEvent))
        → plan_consume run_id target stamps store ≡ plan
        → ConsumeOutcome run_id target stamps store (consume_plan run_id plan store)
    planned (err e) h = refl
    planned (ok (pending, events)) h =
        appended (append_batch run_id events store)
          (append_batch_atomic run_id events store made.0 w)
      where
        made : All IsNewEvent events × (length events ≡ length pending)
        made =
            consumed_events-of target stamps 0 pending events
              (plan_consume-of run_id target stamps store pending events h)

        appended :
            (r : Result (List RunEvent) × Store)
            → Outcome run_id events store r
            → ConsumeOutcome run_id target stamps store (answer_with pending r)
        appended (err e, store') o = o
        appended (ok stored, store') o = (
          events,
          h,
          made.1,
          o.1 ∙ ap (λ (t : List RunEvent). record store { rows = store.rows ++ t }) o.0,
          o.2,
        )

-- By the result of `submit`: an error leaves the store as it was; success stores the event of the
-- message that it returns, and nothing else.
abbrev pub SubmitOutcome :
    String
    → Result (InboxMessage × NewRunEvent)
    → String
    → Store
    → Result InboxMessage × Store
    → Type 0
SubmitOutcome run_id plan content store (err e, store') = store' ≡ store
SubmitOutcome run_id plan content store (ok message, store') =
    (event : NewRunEvent) × (plan ≡ ok (message, event))
    × (message.content ≡ content)
    × (has_text message.message_id ≡ true)
    × (store' ≡ record store {
      rows = store.rows ++ to_rows run_id (next_sequence run_id store) (event ∷ []);
    })
    × IsWellFormed store'.rows
