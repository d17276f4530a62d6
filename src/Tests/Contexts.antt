-- ===== src/Tests/Contexts.antt =====
-- A provider context of two messages, one of them pinned.
use incident_guard.Prelude.{ℕ, ◌≤◌, String, ◌≡◌, refl, [], ◌∷◌, ok, All, List, true, has_text}
use incident_guard.Json.{Fields, field, str, end, arr, obj, cons, nil, get}
use incident_guard.Json.Canonical.{canonical_fields, insert_field}
use incident_guard.Context.Snapshot.{
  TokenEstimator, ContextSnapshot, alert, new_context_snapshot, estimate_messages, sum_estimates,
  estimate_message, estimate_text, utf8_length, is_ordered, last_exceeds, is_member, is_pinned,
}
use incident_guard.Context.Groups.{
  MessageGroup, same_group, has_string, expected_ids, start_group, group_message, group_from,
  group_messages,
}
use incident_guard.Context.Groups.Partition.{indexes_of, count_up, group_messages-partition}
use incident_guard.Context.Policy.{
  item_at, items_at, in_groups, selected_indexes, estimate_selection, fits, selection_of,
}
use incident_guard.Context.Policy.Bounds.{selection_of_pinned}
use incident_guard.Context.Snapshot.Bounds.{new_context_snapshot_bounded}

abbrev estimator : TokenEstimator
estimator = record { bytes_per_token = 4; message_overhead = 4; conversation_overhead = 2 }

abbrev dumps : Fields → String
dumps message = "0123456789"

abbrev snapshot : ContextSnapshot
snapshot = record {
  run_id = "run-1";
  messages = field "role" (str "user") end ∷ field "role" (str "system") end ∷ [];
  estimated_tokens = 16;
  message_sources = 2 ∷ 5 ∷ [];
  pinned = (2, alert) ∷ [];
  source_sequences = 2 ∷ 5 ∷ [];
  last_sequence = 6;
}

-- Ten bytes are three tokens, rounded up.
estimated : estimate_messages dumps estimator snapshot.messages ≡ 16
unfolding estimate_messages sum_estimates estimate_message estimate_text utf8_length
estimated = refl

new_context_snapshot_bounded_example : All (λ (n : ℕ). n ≤ 6) (2 ∷ 5 ∷ [])
unfolding new_context_snapshot has_text is_ordered last_exceeds is_member canonical_fields
    insert_field
new_context_snapshot_bounded_example = new_context_snapshot_bounded snapshot snapshot refl

-- An alert, an answer that asks for a tool with its result, and a question: 7 tokens each.
abbrev conversation : List Fields
conversation =
    field "role" (str "user") end
    ∷ field "role" (str "assistant")
        (field "tool_calls" (arr (cons (obj (field "id" (str "c1") end)) nil)) end)
    ∷ field "role" (str "tool") (field "tool_call_id" (str "c1") end)
    ∷ field "role" (str "user") end
    ∷ []

abbrev long : ContextSnapshot
long = record snapshot {
  messages = conversation;
  estimated_tokens = 30;
  message_sources = 1 ∷ 2 ∷ 3 ∷ 4 ∷ [];
  pinned = (1, alert) ∷ [];
  source_sequences = 1 ∷ 2 ∷ 3 ∷ 4 ∷ [];
}

abbrev groups : List MessageGroup
groups =
    record { indexes = 0 ∷ []; complete = true }
    ∷ record { indexes = 1 ∷ 2 ∷ []; complete = true }
    ∷ record { indexes = 3 ∷ []; complete = true }
    ∷ []

grouped : group_messages conversation ≡ ok groups
unfolding group_messages group_from group_message start_group has_string get expected_ids
grouped = refl

group_messages-partition_example : indexes_of groups ≡ count_up 0 conversation
group_messages-partition_example = group_messages-partition conversation groups grouped

-- The tool call and its result do not fit any more; they go together.
abbrev short : ContextSnapshot
short = record long {
  messages = field "role" (str "user") end ∷ field "role" (str "user") end ∷ [];
  estimated_tokens = 16;
  message_sources = 1 ∷ 4 ∷ [];
  source_sequences = 1 ∷ 4 ∷ [];
}

selection_of_pinned_example :
    (fits dumps estimator conversation groups 20
        (selection_of dumps estimator long 20 groups).selected
      ≡ true)
    × (in_groups
          (selection_of dumps estimator long 20 groups).selected
          (record { indexes = 0 ∷ []; complete = true })
        ≡ true)
unfolding estimate_selection estimate_messages sum_estimates estimate_message estimate_text
    utf8_length item_at items_at selected_indexes same_group is_pinned
selection_of_pinned_example =
    selection_of_pinned dumps estimator long 20 groups
      (record { indexes = 0 ∷ []; complete = true }) refl refl
