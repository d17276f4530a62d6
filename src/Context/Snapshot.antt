-- ===== src/Context/Snapshot.antt =====
-- incident_guard/context/context_engine.py: the estimate of tokens and the snapshot of the provider's
-- context. A message is a JSON object; `dumps` stands for `json.dumps`, a library function.
pub mod Bounds
use Prim.Native.Char.{code}
use incident_guard.Prelude.{
  ℕ, zero, suc, ◌+◌, ◌-◌, ◌/◌, String, Bool, true, false, not, ◌&&◌, ◌||◌, Option, none, some, List,
  [], ◌∷◌, Result, ok, value_error, ◌>>=◌, ◌>>◌, raise_if, has_text, length, any_of, all_of, leb,
  ltb, ◌==◌, if◌then◌else◌,
}
use incident_guard.Json.{Fields}
use incident_guard.Json.Canonical.{canonical_fields}

pub record TokenEstimator : Type 0 where
  pub bytes_per_token : ℕ
  pub message_overhead : ℕ
  pub conversation_overhead : ℕ

-- `DeterministicTokenEstimator.__post_init__`
unfoldable pub new_token_estimator : TokenEstimator → Result TokenEstimator
new_token_estimator e = do
  raise_if (not (leb 1 e.bytes_per_token)) (value_error "bytes_per_token must be a positive int")
  raise_if (not (leb 1 e.message_overhead)) (value_error "message_overhead must be a positive int")
  raise_if (not (leb 1 e.conversation_overhead))
      (value_error "conversation_overhead must be a positive int")
  ok e

-- The bytes of a character in UTF-8.
abbrev char_bytes : ℕ → ℕ
char_bytes c = if ltb c 128 then 1 else if ltb c 2048 then 2 else if ltb c 65536 then 3 else 4

-- `len(text.encode("utf-8"))`
unfoldable pub utf8_length : String → ℕ
utf8_length String.[] = 0
utf8_length (String.◌∷◌ c s) = char_bytes (code c) + utf8_length s

unfoldable pub estimate_text : TokenEstimator → String → ℕ
estimate_text e text =
    let byte_count = utf8_length text in
    if byte_count == 0 then 0 else (byte_count + e.bytes_per_token - 1) / e.bytes_per_token

unfoldable pub estimate_message : (Fields → String) → TokenEstimator → Fields → ℕ
estimate_message dumps e message =
    e.message_overhead + estimate_text e (dumps (canonical_fields message))

unfoldable pub sum_estimates : (Fields → String) → TokenEstimator → List Fields → ℕ
sum_estimates dumps e [] = 0
sum_estimates dumps e (m ∷ ms) = estimate_message dumps e m + sum_estimates dumps e ms

unfoldable pub estimate_messages : (Fields → String) → TokenEstimator → List Fields → ℕ
estimate_messages dumps e messages = e.conversation_overhead + sum_estimates dumps e messages

pub data PinReason : Type 0 where
  alert goal latest_operator_input evidence : PinReason

pub record ContextSnapshot : Type 0 where
  pub run_id : String
  pub messages : List Fields
  pub estimated_tokens : ℕ
  pub message_sources : List ℕ
  pub pinned : List (ℕ × PinReason)
  pub source_sequences : List ℕ
  pub last_sequence : ℕ

abbrev pub not_positive : ℕ → Bool
not_positive n = not (leb 1 n)

-- `tuple(sorted(set(xs))) == xs`
unfoldable pub is_ordered : List ℕ → Bool
is_ordered [] = true
is_ordered (x ∷ []) = true
is_ordered (x ∷ y ∷ ys) = ltb x y && is_ordered (y ∷ ys)

-- `xs and xs[-1] > last`
unfoldable pub last_exceeds : ℕ → List ℕ → Bool
last_exceeds last [] = false
last_exceeds last (x ∷ []) = ltb last x
last_exceeds last (x ∷ y ∷ ys) = last_exceeds last (y ∷ ys)

unfoldable pub is_member : ℕ → List ℕ → Bool
is_member n xs = any_of (λ x. x == n) xs

unfoldable pub is_pinned : List (ℕ × PinReason) → ℕ → Bool
is_pinned pins n = any_of (λ (pin : ℕ × PinReason). pin.0 == n) pins

abbrev copy_all : List Fields → List Fields
copy_all [] = []
copy_all (m ∷ ms) = canonical_fields m ∷ copy_all ms

-- `ContextSnapshot.__post_init__`
unfoldable pub new_context_snapshot : ContextSnapshot → Result ContextSnapshot
new_context_snapshot s = do
  raise_if (not (has_text s.run_id)) (value_error "ContextSnapshot run_id must be non-empty")
  raise_if (not (length s.message_sources == length s.messages))
      (value_error "message_sources must align with messages")
  raise_if (any_of not_positive s.message_sources)
      (value_error "message_sources must contain positive ints")
  raise_if (any_of (λ (pin : ℕ × PinReason). not_positive (pin.0)) s.pinned)
      (value_error "pinned sequence must be a positive int")
  raise_if (not (all_of (λ (pin : ℕ × PinReason). is_member (pin.0) s.message_sources) s.pinned))
      (value_error "pinned sequences must refer to projected messages")
  raise_if (any_of not_positive s.source_sequences)
      (value_error "source_sequences must contain positive ints")
  raise_if (not (is_ordered s.source_sequences))
      (value_error "source_sequences must be unique and ordered")
  raise_if (last_exceeds s.last_sequence s.source_sequences)
      (value_error "source sequence exceeds last_sequence")
  ok (record s { messages = copy_all s.messages })

-- The comprehension of `pinned_messages`, over the messages with their sources.
unfoldable pub select_pinned : List (ℕ × PinReason) → List Fields → List ℕ → List Fields
select_pinned pins (m ∷ ms) (n ∷ ns) =
    let rest = select_pinned pins ms ns in if is_pinned pins n then m ∷ rest else rest
select_pinned pins _ _ = []

unfoldable pub pinned_messages : ContextSnapshot → List Fields
pinned_messages s = select_pinned s.pinned s.messages s.message_sources

unfoldable pub require_pinned_within :
    (Fields → String) → TokenEstimator → ContextSnapshot → ℕ → Result (Unit {0})
require_pinned_within dumps e s token_budget = do
  raise_if (not (leb 1 token_budget)) (value_error "token_budget must be a positive int")
  raise_if (ltb token_budget (estimate_messages dumps e (pinned_messages s)))
      (value_error "pinned context exceeds token budget: {pinned_tokens} > {token_budget}")
  ok tt
