-- ===== src/Context/Groups.antt =====
-- incident_guard/context/context_engine.py: the messages of a snapshot in groups that stay together, an
-- answer that asks for tools with the results of these tools.
pub mod Partition
use incident_guard.Prelude.{
  ℕ, zero, suc, ◌+◌, String, Bool, true, false, not, ◌&&◌, ◌||◌, Option, none, some, List, [], ◌∷◌,
  ◌++◌, Result, ok, err, value_error, type_error, ◌>>=◌, ◌>>◌, str_eq, any_of, all_of, length, ◌==◌,
  if◌then◌else◌,
}
use incident_guard.Json.{
  Value, Items, Fields, ℤ, Float, pos, negsuc, dyadic, null, bool, int, float, str, arr, obj, nil,
  cons, field, end, get,
}

pub record MessageGroup : Type 0 where
  pub indexes : List ℕ
  pub complete : Bool

abbrev pub same_indexes : List ℕ → List ℕ → Bool
same_indexes [] [] = true
same_indexes (m ∷ ms) (n ∷ ns) = m == n && same_indexes ms ns
same_indexes _ _ = false

abbrev pub same_bool : Bool → Bool → Bool
same_bool true b = b
same_bool false b = not b

-- Equality of the frozen dataclass.
unfoldable pub same_group : MessageGroup → MessageGroup → Bool
same_group g h = same_indexes g.indexes h.indexes && same_bool g.complete h.complete

-- `message.get(key) == text`
unfoldable pub has_string : Fields → String → String → Bool
has_string message key text = is_string (get message key)
  where
    is_string : Option Value → Bool
    is_string (some (str s)) = str_eq s text
    is_string _ = false

-- The calls of a message whose `tool_calls` is a list that is not empty.
abbrev pub calls_of : Option Value → Option Items
calls_of (some (arr (cons c cs))) = some (cons c cs)
calls_of _ = none

abbrev id_of : Value → Option String
id_of (obj fs) = elim (get fs "id") [ some (str s) ↦ some s | _ ↦ none ]
id_of _ = none

abbrev and_id : Option String → List String → List String
and_id none ids = ids
and_id (some s) ids = s ∷ ids

-- `{call.get("id") for call in tool_calls if ...}`
unfoldable pub expected_ids : Items → List String
expected_ids nil = []
expected_ids (cons c cs) = and_id (id_of c) (expected_ids cs)

abbrev pub is_one_of : List String → String → Bool
is_one_of ids s = any_of (λ i. str_eq i s) ids

-- `call_id in expected`: a set of texts, in which a list or an object cannot be looked up.
abbrev pub expected_call : List String → Option Value → Result (Option String)
expected_call ids (some (str s)) = if is_one_of ids s then ok (some s) else ok none
expected_call ids (some (arr xs)) = err (type_error "unhashable type: 'list'")
expected_call ids (some (obj fs)) = err (type_error "unhashable type: 'dict'")
expected_call ids _ = ok none

-- The group that the inner loop of `_group_messages` extends.
pub record OpenGroup : Type 0 where
  pub expected : List String
  pub members : List ℕ
  pub observed : List String

-- The group when the inner loop ends: `complete=observed == expected`, where all observed are expected
abbrev pub close_group : OpenGroup → MessageGroup
close_group g = record {
  indexes = g.members;
  complete = all_of (λ i. is_one_of g.observed i) g.expected;
}

abbrev pub closed_first : Option OpenGroup → List MessageGroup → List MessageGroup
closed_first none gs = gs
closed_first (some g) gs = close_group g ∷ gs

-- The groups that a message ends, and the group that it leaves open.
abbrev pub Grouped : Type 0
Grouped = List MessageGroup × Option OpenGroup

abbrev pub after_closing : Option OpenGroup → Grouped → Grouped
after_closing opened (groups, next) = (closed_first opened groups, next)

abbrev pub start_assistant : Option Items → ℕ → Grouped
start_assistant (some calls) index =
    ([], some (record { expected = expected_ids calls; members = index ∷ []; observed = [] }))
start_assistant none index = (record { indexes = index ∷ []; complete = true } ∷ [], none)

-- A message at the head of a group, which the outer loop reads.
unfoldable pub start_group : ℕ → Fields → Result Grouped
start_group index m =
    if has_string m "role" "assistant"
    then ok (start_assistant (calls_of (get m "tool_calls")) index)
    else if has_string m "role" "tool"
    then err (value_error "orphan tool result in ContextSnapshot")
    else ok (start_assistant none index)

-- The outer loop reads the message after the group has been closed.
abbrev pub restart : OpenGroup → Result Grouped → Result Grouped
restart g (ok grouped) = ok (after_closing (some g) grouped)
restart g (err e) = err e

abbrev pub extend_group : OpenGroup → Option String → ℕ → Fields → Result Grouped
extend_group g (some call_id) index m = ok (
  [],
  some (record {
    expected = g.expected;
    members = g.members ++ index ∷ [];
    observed = g.observed ++ call_id ∷ [];
  }),
)
extend_group g none index m = restart g (start_group index m)

-- A message, read by the inner loop while a group is open and the message has the role of a tool.
unfoldable pub group_message : Option OpenGroup → ℕ → Fields → Result Grouped
group_message none index m = start_group index m
group_message (some g) index m =
    if has_string m "role" "tool"
    then (do found ← expected_call g.expected (get m "tool_call_id"); extend_group g found index m)
    else restart g (start_group index m)

-- `_group_messages` from the message with the given index on
unfoldable pub group_from : Option OpenGroup → ℕ → List Fields → Result (List MessageGroup)
group_from opened index [] = ok (closed_first opened [])
group_from opened index (m ∷ ms) = do
  grouped ← group_message opened index m
  groups ← group_from grouped.1 (suc index) ms
  ok (grouped.0 ++ groups)

unfoldable pub group_messages : List Fields → Result (List MessageGroup)
group_messages messages = group_from none 0 messages
