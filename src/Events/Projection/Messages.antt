-- ===== src/Events/Projection/Messages.antt =====
-- The messages that `project` of incident_guard/events/projection.py collects, one for each event that
-- speaks to the model provider.
use incident_guard.Prelude.{
  ℕ, ◌+◌, String, ◌≡◌, Bool, List, [], ◌∷◌, ok, arith, length, length-append, count_if,
  if◌then◌else◌,
}
use incident_guard.Events.Store.{RunEvent}
use incident_guard.Events.Kinds.{EventKind, event_kind, is_message_event}
use incident_guard.Events.Locals.{Locals, initial}
use incident_guard.Events.Projected.{RunProjection}
use incident_guard.Events.Projection.{apply_event, project_events, project}
use incident_guard.Events.Projection.Induction.{
  counted, project_events-nil, project_events-cons, project-from,
}

-- `n` more messages.
abbrev Adds : ℕ → Locals → Locals → Type 0
Adds n l l' = length l'.messages ≡ length l.messages + n

abbrev one_if : Bool → ℕ
one_if b = if b then 1 else 0

module _ (event : RunEvent) (l l' : Locals) where
  apply_event-Adds :
      (kind : EventKind)
      → apply_event kind event l ≡ ok l'
      → Adds (one_if (is_message_event kind)) l l'
  unfolding apply_event
  apply_event-Adds EventKind.run_started h = ground arith
  apply_event-Adds _ h = grind (arith, length-append {0})

abbrev pub speaks : RunEvent → Bool
speaks event = is_message_event (event_kind event.event_type)

project_events-Adds :
    (run_id : String) (events : List RunEvent) (l l' : Locals)
    → project_events run_id events l ≡ ok l'
    → Adds (count_if speaks events) l l'
project_events-Adds run_id [] l l' h = rw (project_events-nil run_id l l' h) (omega arith)
project_events-Adds run_id (event ∷ events) l l' h =
    let (mid, first, rest) = project_events-cons run_id event events l l' h in
    omega (
      arith,
      apply_event-Adds event (counted l) mid (event_kind event.event_type) first.applied,
      project_events-Adds run_id events mid l' rest,
    )

-- A projection has exactly one message for each event of the nine types that speak to the provider, so
-- the count that the context engine checks against the events is always met.
pub length-messages :
    (run_id : String) (events : List RunEvent) {p : RunProjection}
    → project run_id events ≡ ok p
    → length p.messages ≡ count_if speaks events
length-messages run_id events h =
    let (l, done, e) = project-from run_id events h in
    rw e (omega (arith, project_events-Adds run_id events initial l done))
