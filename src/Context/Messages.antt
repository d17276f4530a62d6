-- ===== src/Context/Messages.antt =====
-- The messages of a run as JSON objects (incident_guard/events/projection.py) and the choice of those
-- that a provider context must keep (incident_guard/context/context_engine.py).
use incident_guard.Prelude.{
  ℕ, String, ◌||◌, Option, none, some, List, [], ◌∷◌, map, str_eq, leb, ◌==◌, if◌then◌else◌, Dict,
  lookup, insert,
}
use incident_guard.Json.{Fields, field, str, bool, arr, nil, cons, end, Items}
use incident_guard.Events.Store.{RunEvent}
use incident_guard.Events.Projected.{AgentMessage, RunProjection}
use incident_guard.Context.Snapshot.{PinReason, alert, goal, latest_operator_input, evidence}

abbrev tool_calls_field : Items → Fields → Fields
tool_calls_field nil rest = rest
tool_calls_field (cons c cs) rest = field "tool_calls" (arr (cons c cs)) rest

abbrev optional_field : String → Option String → Fields → Fields
optional_field key none rest = rest
optional_field key (some s) rest = field key (str s) rest

unfoldable pub to_provider_message : AgentMessage → Fields
to_provider_message m = field "role" (str m.role) (
    field "content" (str m.content) (
      tool_calls_field m.tool_calls (
        optional_field "tool_call_id" m.tool_call_id (
          optional_field "name" m.name
            (if str_eq m.role "tool" then field "is_error" (bool m.is_error) end else end)))))

unfoldable pub provider_messages : RunProjection → List Fields
provider_messages run = map to_provider_message run.messages

-- The category under which an event replaces the one before it.
unfoldable pub category_of : String → Option String
category_of event_type =
    if str_eq event_type "operator.message" || str_eq event_type "inbox.consumed"
    then some "operator"
    else if str_eq event_type "alert.received" || str_eq event_type "goal.set"
    then some event_type
    else none

-- `pinned[sequence] = reason`
unfoldable pub pin : ℕ → PinReason → List (ℕ × PinReason) → List (ℕ × PinReason)
pin n reason [] = (n, reason) ∷ []
pin n reason ((m, r) ∷ pins) =
    let rest = pin n reason pins in if m == n then (n, reason) ∷ pins else (m, r) ∷ rest

-- One round of the loop of `_select_pins`.
unfoldable pub note_event :
    RunEvent → Dict RunEvent × List (ℕ × PinReason) → Dict RunEvent × List (ℕ × PinReason)
note_event event (latest, pinned) = elim (category_of event.event_type) [
  | some category ↦ (insert category event latest, pinned)
  | none ↦
      if str_eq event.event_type "evidence.recorded"
      then (latest, pin event.sequence evidence pinned)
      else (latest, pinned)
]

unfoldable pub note_events :
    List RunEvent → Dict RunEvent × List (ℕ × PinReason) → Dict RunEvent × List (ℕ × PinReason)
note_events [] notes = notes
note_events (event ∷ events) notes = note_events events (note_event event notes)

-- One round of the loop over `reasons`.
unfoldable pub pin_latest :
    Dict RunEvent → String × PinReason → List (ℕ × PinReason) → List (ℕ × PinReason)
pin_latest latest (category, reason) pinned = elim (lookup category latest) [
  | none ↦ pinned
  | some event ↦ pin event.sequence reason pinned
]

abbrev insert_by_key : ℕ × PinReason → List (ℕ × PinReason) → List (ℕ × PinReason)
insert_by_key (n, r) [] = (n, r) ∷ []
insert_by_key (n, r) ((m, s) ∷ pins) =
    let rest = insert_by_key (n, r) pins in
    if leb n m then (n, r) ∷ (m, s) ∷ pins else (m, s) ∷ rest

-- `dict(sorted(pinned.items()))`
abbrev sort_pins : List (ℕ × PinReason) → List (ℕ × PinReason)
sort_pins [] = []
sort_pins (p ∷ pins) = insert_by_key p (sort_pins pins)

unfoldable pub select_pins : List RunEvent → List (ℕ × PinReason)
select_pins events =
    let (latest, pinned) = note_events events ([], []) in
    sort_pins (
      pin_latest latest ("operator", latest_operator_input)
        (pin_latest latest ("goal.set", goal) (pin_latest latest ("alert.received", alert) pinned)))
