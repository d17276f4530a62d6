-- ===== src/Agents/Runtime/Serialization.antt =====
-- incident_guard/agents/event_runtime.py: tool calls and answers as the JSON of events.
use incident_guard.Prelude.{
  ◌>>=◌, ℕ, String, Option, none, some, List, [], ◌∷◌, Result, ok, err, value_error, if◌then◌else◌,
  type_error, str_eq,
}
use incident_guard.Json.{Fields, Value, Items, obj, nil, cons, null, str, field, end, get, int, pos}
use incident_guard.Agents.Provider.{
  ToolCall, new_tool_call, ProviderUsage, ProviderResponse, new_provider_response, StopReason,
  end_turn, tool_use, max_tokens,
}
use incident_guard.Events.Projected.{AssistantRecord}

-- `{"id": ..., "name": ..., "arguments": ...}` of `_serialize_call`
abbrev pub serialize_call : ToolCall → Value
serialize_call call = obj (
    field "id" (str call.id)
      (field "name" (str call.name) (field "arguments" (obj call.arguments) end)))

abbrev pub serialize_calls : List ToolCall → Items
serialize_calls [] = nil
serialize_calls (c ∷ cs) = cons (serialize_call c) (serialize_calls cs)

abbrev call_from : Option Value → Option Value → Option Value → Result ToolCall
call_from (some (str id)) (some (str name)) (some (obj arguments)) = new_tool_call id name arguments
call_from (some (str id)) (some (str name)) _ =
    err (value_error "ToolCall arguments must be a mapping")
call_from (some (str id)) _ arguments = err (value_error "ToolCall name must be a non-empty string")
call_from _ name arguments = err (value_error "ToolCall id must be a non-empty string")

-- `_deserialize_call`
unfoldable pub deserialize_call : Value → Result ToolCall
deserialize_call (obj fs) = call_from (get fs "id") (get fs "name") (get fs "arguments")
deserialize_call _ = err (type_error "object has no attribute 'get'")

abbrev pub optional_number : Option ℕ → Value
optional_number none = null
optional_number (some n) = int (pos n)

abbrev pub input_of : Option ProviderUsage → Option ℕ
input_of none = none
input_of (some usage) = some usage.input_tokens

abbrev pub output_of : Option ProviderUsage → Option ℕ
output_of none = none
output_of (some usage) = some usage.output_tokens

abbrev pub step_payload : ℕ → Option ℕ → Fields → Fields
step_payload turn step rest =
    field "turn_number" (int (pos turn)) (field "step_number" (optional_number step) rest)

abbrev stop_reason_of : String → Result StopReason
stop_reason_of s =
    if str_eq s "end_turn"
    then ok end_turn
    else if str_eq s "tool_use"
    then ok tool_use
    else if str_eq s "max_tokens"
    then ok max_tokens
    else err (value_error "{text} is not a valid StopReason")

abbrev usage_from : Option ℕ → Option ℕ → Option ProviderUsage
usage_from (some i) (some o) = some (record { input_tokens = i; output_tokens = o })
usage_from _ _ = none

unfoldable pub deserialize_calls : Items → Result (List ToolCall)
deserialize_calls nil = ok []
deserialize_calls (cons v vs) = do ok ((← deserialize_call v) ∷ (← deserialize_calls vs))

-- `response_from_projection` of the current record
unfoldable pub response_from_record : AssistantRecord → Result ProviderResponse
response_from_record r = do
  reason ← stop_reason_of r.stop_reason
  calls ← deserialize_calls r.tool_calls
  new_provider_response r.text reason calls (usage_from r.input_tokens r.output_tokens)
