-- ===== src/Context/Policy.antt =====
-- incident_guard/context/context_engine.py: `EventContextProjector` and `ContextBudgetPolicy`.

pub mod Bounds
use incident_guard.Prelude.{
  ℕ, zero, suc, ◌+◌, String, Bool, true, false, not, ◌&&◌, ◌||◌, Option, none, some, List, [], ◌∷◌,
  ◌++◌, Result, ok, err, value_error, ◌>>=◌, ◌>>◌, raise_if, str_eq, any_of, all_of, keep_if,
  length, leb, ltb, ◌==◌, if◌then◌else◌, map, reverse,
}
use incident_guard.Json.{
  Value, Items, Fields, ℤ, Float, pos, negsuc, dyadic, null, bool, int, float, str, arr, obj, nil,
  cons, field, end, get,
}
use incident_guard.Json.Equality.{same_value}
use incident_guard.Events.Store.{RunEvent}
use incident_guard.Events.Projection.{project}
use incident_guard.Context.Snapshot.{
  TokenEstimator, estimate_messages, PinReason, ContextSnapshot, new_context_snapshot, is_pinned,
  is_member,
}
use incident_guard.Context.Messages.{provider_messages, select_pins}
use incident_guard.Context.Groups.{MessageGroup, same_group, has_string, group_messages}

abbrev is_context_type : String → Bool
is_context_type t =
    str_eq t "operator.message"
    || str_eq t "context.injected"
    || str_eq t "alert.received"
    || str_eq t "goal.set"
    || str_eq t "evidence.recorded"
    || str_eq t "assistant.message"
    || str_eq t "tool.completed"
    || str_eq t "tool.failed"
    || str_eq t "inbox.consumed"

-- `EventContextProjector.project`
unfoldable pub project_context :
    (Fields → String) → TokenEstimator → String → List RunEvent → Result ContextSnapshot
project_context dumps e run_id events = do
  run ← project run_id events
  let messages : List Fields = provider_messages run
  let message_events : List RunEvent =
      keep_if (λ (event : RunEvent). is_context_type event.event_type) events
  let message_sources : List ℕ = map (λ (event : RunEvent). event.sequence) message_events
  raise_if (not (length message_sources == length messages))
      (value_error "message source projection is not aligned")
  new_context_snapshot (record {
    run_id = run_id;
    messages = messages;
    estimated_tokens = estimate_messages dumps e messages;
    message_sources = message_sources;
    pinned = select_pins message_events;
    source_sequences = message_sources;
    last_sequence = run.last_sequence;
  })

-- `xs[index]`: the indexes of a group are in range
unfoldable pub item_at {ℓ} : {A : Type ℓ} → List A → ℕ → List A
item_at [] i = []
item_at (x ∷ xs) zero = x ∷ []
item_at (x ∷ xs) (suc i) = item_at xs i

unfoldable pub items_at {ℓ} : {A : Type ℓ} → List A → List ℕ → List A
items_at xs [] = []
items_at xs (i ∷ is) = item_at xs i ++ items_at xs is

-- `group in selected`
abbrev pub in_groups : List MessageGroup → MessageGroup → Bool
in_groups selected g = any_of (same_group g) selected

-- The indexes of the groups that are selected, in the order of the messages.
unfoldable pub selected_indexes : List MessageGroup → List MessageGroup → List ℕ
selected_indexes selected [] = []
selected_indexes selected (g ∷ gs) =
    let rest = selected_indexes selected gs in
    if in_groups selected g then g.indexes ++ rest else rest

-- `_estimate_selection`
unfoldable pub estimate_selection :
    (Fields → String) → TokenEstimator → List Fields → List MessageGroup → List MessageGroup → ℕ
estimate_selection dumps e messages groups selected =
    estimate_messages dumps e (items_at messages (selected_indexes selected groups))

-- A pair of `(message.get("name"), message.get("content"))`; a missing field reads as `None`.
abbrev pub Part : Type 0
Part = Value × Value

abbrev or_null : Option Value → Value
or_null none = null
or_null (some v) = v

abbrev pub parts_of : List Fields → List Part
parts_of [] = []
parts_of (m ∷ ms) =
    let rest = parts_of ms in
    if has_string m "role" "tool"
    then (or_null (get m "name"), or_null (get m "content")) ∷ rest
    else rest

-- `_tool_result_signature`
unfoldable pub signature : List Fields → MessageGroup → List Part
signature messages g = parts_of (items_at messages g.indexes)

abbrev same_signature : List Part → List Part → Bool
same_signature [] [] = true
same_signature ((n, c) ∷ ps) ((m, d) ∷ qs) =
    same_value n m && same_value c d && same_signature ps qs
same_signature _ _ = false

abbrev pub seen_before : List (List Part) → List Part → Bool
seen_before seen s = any_of (same_signature s) seen

abbrev and_signature : List Part → List (List Part) → List (List Part)
and_signature [] seen = seen
and_signature (p ∷ ps) seen = (p ∷ ps) ∷ seen

abbrev signatures : List Fields → List MessageGroup → List (List Part)
signatures messages [] = []
signatures messages (g ∷ gs) = and_signature (signature messages g) (signatures messages gs)

abbrev is_repeated : List (List Part) → List Part → Bool
is_repeated seen [] = false
is_repeated seen (p ∷ ps) = seen_before seen (p ∷ ps)

-- The local variables of the second loop of `apply`.
pub record Selection : Type 0 where
  pub selected : List MessageGroup
  pub seen : List (List Part)

module _ (dumps : Fields → String) (e : TokenEstimator) (messages : List Fields)
    (groups : List MessageGroup) (token_budget : ℕ) where
  abbrev pub fits : List MessageGroup → Bool
  fits selected = leb (estimate_selection dumps e messages groups selected) token_budget

  -- One round of the second loop.
  unfoldable pub consider : MessageGroup → Selection → Selection
  consider g s =
      if in_groups s.selected g || not g.complete
      then s
      else if is_repeated s.seen (signature messages g)
      then s
      else if fits (g ∷ s.selected)
      then record { selected = g ∷ s.selected; seen = and_signature (signature messages g) s.seen }
      else s

  -- The second loop, over the groups from the newest on.
  unfoldable pub consider_all : List MessageGroup → Selection → Selection
  consider_all [] s = s
  consider_all (g ∷ gs) s = consider_all gs (consider g s)

abbrev pub is_mandatory : ContextSnapshot → MessageGroup → Bool
is_mandatory s g = any_of (is_pinned s.pinned) (items_at s.message_sources g.indexes)

unfoldable pub selection_of :
    (Fields → String) → TokenEstimator → ContextSnapshot → ℕ → List MessageGroup → Selection
selection_of dumps e s token_budget groups =
    let mandatory = keep_if (is_mandatory s) groups in
    consider_all dumps e s.messages groups token_budget (reverse groups)
      (record { selected = mandatory; seen = signatures s.messages mandatory })

abbrev pins_in : List ℕ → List (ℕ × PinReason) → List (ℕ × PinReason)
pins_in sources pins = keep_if (λ (pin : ℕ × PinReason). is_member (pin.0) sources) pins

-- The snapshot of a selection.
unfoldable pub trimmed :
    (Fields → String)
    → TokenEstimator
    → ContextSnapshot
    → List MessageGroup
    → List MessageGroup
    → ContextSnapshot
trimmed dumps e s groups selected =
    let indexes = selected_indexes selected groups in
    let sources = items_at s.message_sources indexes in
    record {
      run_id = s.run_id;
      messages = items_at s.messages indexes;
      estimated_tokens = estimate_selection dumps e s.messages groups selected;
      message_sources = sources;
      pinned = pins_in sources s.pinned;
      source_sequences = sources;
      last_sequence = s.last_sequence;
    }

-- `apply` from the groups on.
unfoldable pub trim :
    (Fields → String)
    → TokenEstimator
    → ContextSnapshot
    → ℕ
    → List MessageGroup
    → Result ContextSnapshot
trim dumps e s token_budget groups = do
  raise_if (not (fits dumps e s.messages groups token_budget (keep_if (is_mandatory s) groups)))
      (value_error "required context exceeds token budget: {mandatory_tokens} > {token_budget}")
  let selected : List MessageGroup = (selection_of dumps e s token_budget groups).selected
  raise_if (not (fits dumps e s.messages groups token_budget selected))
      (value_error "unable to satisfy context token budget")
  new_context_snapshot (trimmed dumps e s groups selected)

-- `ContextBudgetPolicy.apply`
unfoldable pub apply_budget :
    (Fields → String) → TokenEstimator → ContextSnapshot → ℕ → Result ContextSnapshot
apply_budget dumps e s token_budget = do
  raise_if (not (leb 1 token_budget)) (value_error "token_budget must be a positive int")
  (if leb s.estimated_tokens token_budget
      then ok s
      else (do groups ← group_messages s.messages; trim dumps e s token_budget groups))
