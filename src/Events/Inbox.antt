-- ===== src/Events/Inbox.antt =====
-- incident_guard/events/inbox.py: messages for a run, kept as its events. Every method holds the lock
-- from the projection to the append, so a method is one step on the store. The identifiers and times
-- that `uuid4` and the clock give are arguments.
pub mod Atomicity
use incident_guard.Prelude.{
  ℕ, suc, String, Bool, true, false, not, ◌&&◌, Option, none, some, List, [], ◌∷◌, Result, ok, err,
  value_error, ◌>>=◌, ◌>>◌, raise_if, has_text, non_empty, str_eq, if◌then◌else◌, keep_if,
}
use incident_guard.Json.{Float, Fields, field, str, end}
use incident_guard.Agents.RunModels.{RunStatus, is_running}
use incident_guard.Events.Store.{
  NewRunEvent, new_run_event, RunEvent, Store, append, append_batch, replay,
  current_event_schema_version,
}
use incident_guard.Events.Projected.{InboxItemProjection, RunProjection}
use incident_guard.Events.Projection.{project}

pub data InboxKind : Type 0 where
  steering follow_up injected_context : InboxKind

pub data InboxTarget : Type 0 where
  next_step next_turn : InboxTarget

abbrev pub kind_value : InboxKind → String
kind_value steering = "steering"
kind_value follow_up = "follow_up"
kind_value injected_context = "injected_context"

abbrev pub target_value : InboxTarget → String
target_value next_step = "next_step"
target_value next_turn = "next_turn"

-- `InboxKind(text)`
unfoldable pub kind_of : String → Result InboxKind
kind_of s =
    if str_eq s "steering"
    then ok steering
    else if str_eq s "follow_up"
    then ok follow_up
    else if str_eq s "injected_context"
    then ok injected_context
    else err (value_error "{text} is not a valid InboxKind")

pub record InboxMessage : Type 0 where
  pub message_id : String
  pub kind : InboxKind
  pub target : InboxTarget
  pub content : String
  pub role : String

-- What the constructor of a new event draws: its id and its time.
pub record Stamp : Type 0 where
  pub event_id : String
  pub occurred_at : Float

unfoldable pub stamped : String → Fields → Stamp → Result NewRunEvent
stamped event_type payload stamp = new_run_event (record {
  event_type = event_type;
  payload = payload;
  schema_version = current_event_schema_version;
  event_id = stamp.event_id;
  occurred_at = stamp.occurred_at;
})

-- `projection`
unfoldable pub projection_of : String → Store → Result RunProjection
projection_of run_id store = do events ← replay run_id 0 store; project run_id events

abbrev default_role : InboxKind → String
default_role follow_up = "user"
default_role _ = "system"

-- `value or default` of a text that may be missing
abbrev given_or : Option String → String → String
given_or none default = default
given_or (some s) default = if non_empty s then s else default

-- `submit` up to the append: the message and the event that stores it.
unfoldable pub plan_submit :
    String
    → String
    → InboxKind
    → InboxTarget
    → Option String
    → Option String
    → String
    → Stamp
    → Store
    → Result (InboxMessage × NewRunEvent)
plan_submit run_id content kind target role message_id new_id stamp store = do
  raise_if (not (has_text content)) (value_error "inbox content must be non-empty")
  let normalized_role : String = given_or role (default_role kind)
  raise_if (not (has_text normalized_role)) (value_error "inbox role must be non-empty")
  let normalized_id : String = given_or message_id new_id
  raise_if (not (has_text normalized_id)) (value_error "message_id must be non-empty")
  projection ← projection_of run_id store
  raise_if (not (is_running projection.status)) (value_error "inbox input requires a running run")
  event ←
      stamped "inbox.message"
        (field "message_id" (str normalized_id) (
          field "kind" (str (kind_value kind)) (
            field "target" (str (target_value target))
              (field "role" (str normalized_role) (field "content" (str content) end)))))
        stamp
  ok (
    record {
      message_id = normalized_id;
      kind = kind;
      target = target;
      content = content;
      role = normalized_role;
    },
    event,
  )

abbrev pub answer_with {ℓ κ} : {A : Type ℓ} {B : Type κ} → A → Result B × Store → Result A × Store
answer_with a (ok b, store) = (ok a, store)
answer_with a (err e, store) = (err e, store)

-- The append of a plan; a plan that raised leaves the store.
unfoldable pub submit_plan :
    String → Result (InboxMessage × NewRunEvent) → Store → Result InboxMessage × Store
submit_plan run_id (err e) store = (err e, store)
submit_plan run_id (ok (message, event)) store = answer_with message (append run_id event store)

unfoldable pub submit :
    String
    → String
    → InboxKind
    → InboxTarget
    → Option String
    → Option String
    → String
    → Stamp
    → Store
    → Result InboxMessage × Store
submit run_id content kind target role message_id new_id stamp store =
    submit_plan run_id (plan_submit run_id content kind target role message_id new_id stamp store)
      store

unfoldable pub is_pending : InboxTarget → InboxItemProjection → Bool
is_pending target item = not item.consumed && str_eq item.target (target_value target)

unfoldable pub to_messages : InboxTarget → List InboxItemProjection → Result (List InboxMessage)
to_messages target [] = ok []
to_messages target (item ∷ items) = do
  kind ← kind_of item.kind
  rest ← to_messages target items
  ok (
      record {
        message_id = item.message_id;
        kind = kind;
        target = target;
        content = item.content;
        role = item.role;
      }
      ∷ rest)

-- The events of `consume`; the n-th draws the n-th stamp.
unfoldable pub consumed_events :
    InboxTarget → (ℕ → Stamp) → ℕ → List InboxMessage → Result (List NewRunEvent)
consumed_events target stamps n [] = ok []
consumed_events target stamps n (message ∷ messages) = do
  event ←
      stamped "inbox.consumed"
        (field "message_id" (str message.message_id)
          (field "boundary" (str (target_value target)) end))
        (stamps n)
  rest ← consumed_events target stamps (suc n) messages
  ok (event ∷ rest)

-- `consume` up to the append: the pending messages and the events that consume them.
unfoldable pub plan_consume :
    String → InboxTarget → (ℕ → Stamp) → Store → Result (List InboxMessage × List NewRunEvent)
plan_consume run_id target stamps store = do
  projection ← projection_of run_id store
  raise_if (not (is_running projection.status))
      (value_error "inbox consumption requires a running run")
  pending ← to_messages target (keep_if (is_pending target) projection.inbox_items)
  events ← consumed_events target stamps 0 pending
  ok (pending, events)

unfoldable pub consume_plan :
    String
    → Result (List InboxMessage × List NewRunEvent)
    → Store
    → Result (List InboxMessage) × Store
consume_plan run_id (err e) store = (err e, store)
consume_plan run_id (ok (pending, events)) store =
    answer_with pending (append_batch run_id events store)

unfoldable pub consume :
    String → InboxTarget → (ℕ → Stamp) → Store → Result (List InboxMessage) × Store
consume run_id target stamps store =
    consume_plan run_id (plan_consume run_id target stamps store) store
