-- ===== src/Agents/Provider.antt =====
-- incident_guard/agents/provider.py: the values that a model provider returns. Field types are fixed
-- by the records, so of each `__post_init__` the checks on values remain.
use incident_guard.Prelude.{
  none, some, err, non_empty, ◌==◌, ℕ, ◌+◌, String, Bool, true, false, not, ◌&&◌, Option, List, [],
  ◌∷◌, Result, ok, value_error, ◌>>◌, raise_if, has_text, any_of, str_eq,
}
use incident_guard.Json.{Fields}

pub data StopReason : Type 0 where
  end_turn tool_use max_tokens : StopReason

abbrev pub stop_reason_value : StopReason → String
stop_reason_value end_turn = "end_turn"
stop_reason_value tool_use = "tool_use"
stop_reason_value max_tokens = "max_tokens"

pub record ToolCall : Type 0 where
  pub id : String
  pub name : String
  pub arguments : Fields

unfoldable pub new_tool_call : String → String → Fields → Result ToolCall
new_tool_call id name arguments = do
  raise_if (not (has_text id)) (value_error "ToolCall id must be a non-empty string")
  raise_if (not (has_text name)) (value_error "ToolCall name must be a non-empty string")
  ok (record { id = id; name = name; arguments = arguments })

pub record ProviderUsage : Type 0 where
  pub input_tokens : ℕ
  pub output_tokens : ℕ

abbrev pub total_tokens_of : ProviderUsage → ℕ
total_tokens_of usage = usage.input_tokens + usage.output_tokens

pub record ProviderResponse : Type 0 where
  pub text : String
  pub stop_reason : StopReason
  pub tool_calls : List ToolCall
  pub usage : Option ProviderUsage

-- `len({call.id for call in calls}) == len(calls)`
unfoldable pub has_unique_ids : List ToolCall → Bool
has_unique_ids [] = true
has_unique_ids (c ∷ cs) = not (any_of (λ d. str_eq d.id c.id) cs) && has_unique_ids cs

abbrev pub is_tool_use : StopReason → Bool
is_tool_use tool_use = true
is_tool_use _ = false

abbrev pub is_empty {ℓ} : {A : Type ℓ} → List A → Bool
is_empty [] = true
is_empty (x ∷ xs) = false

unfoldable pub new_provider_response :
    String → StopReason → List ToolCall → Option ProviderUsage → Result ProviderResponse
unfolding has_unique_ids
new_provider_response text reason calls usage = do
  raise_if (not (has_unique_ids calls))
      (value_error "ProviderResponse tool call ids must be unique")
  raise_if (is_tool_use reason && is_empty calls)
      (value_error "tool_use stop reason requires at least one ToolCall")
  raise_if (not (is_tool_use reason) && not (is_empty calls))
      (value_error "ToolCall values require the tool_use stop reason")
  ok (record { text = text; stop_reason = reason; tool_calls = calls; usage = usage })

pub data ProviderEventType : Type 0 where
  text_delta_type tool_call_type completed_type : ProviderEventType

-- An event of a stream: of the three payloads it has the one of its type.
pub data ProviderEvent : Type 0 where
  text_delta : String → ProviderEvent
  tool_call : ToolCall → ProviderEvent
  completed : ProviderResponse → ProviderEvent

abbrev is_given {ℓ} : {A : Type ℓ} → Option A → ℕ
is_given none = 0
is_given (some a) = 1

abbrev event_of :
    ProviderEventType
    → Option String
    → Option ToolCall
    → Option ProviderResponse
    → Result ProviderEvent
event_of text_delta_type (some text) call response = do
  raise_if (not (non_empty text)) (value_error "text_delta event requires non-empty text")
  ok (text_delta text)
event_of text_delta_type none call response =
    err (value_error "text_delta event requires non-empty text")
event_of tool_call_type text (some call) response = ok (tool_call call)
event_of tool_call_type text none response = err (value_error "tool_call event requires a ToolCall")
event_of completed_type text call (some response) = ok (completed response)
event_of completed_type text call none =
    err (value_error "completed event requires a ProviderResponse")

-- `ProviderEvent.__post_init__`
unfoldable pub new_provider_event :
    ProviderEventType
    → Option String
    → Option ToolCall
    → Option ProviderResponse
    → Result ProviderEvent
new_provider_event event_type text call response = do
  raise_if (not (is_given text + is_given call + is_given response == 1))
      (value_error "ProviderEvent requires exactly one payload")
  event_of event_type text call response
