-- ===== src/Agents/Runtime/Steps.antt =====
-- incident_guard/agents/event_runtime.py: the answer of the provider in a step, and its tool requests.
use incident_guard.Prelude.{
  ℕ, suc, String, Bool, true, false, Option, none, some, List, [], ◌∷◌, contains, Dict,
}
use incident_guard.Json.{Fields, Value, Items, arr, obj, nil, cons, str, field, end, get, int, pos}
use incident_guard.Agents.Effects.{failed_with, Act, give, throw, lift, ◌>>=◌, ◌>>◌}
use incident_guard.Agents.Provider.{
  ProviderResponse, ProviderEvent, text_delta, tool_call, completed, stop_reason_value,
}
use incident_guard.Agents.Runtime.{Session, Environment, tool_effect}
use incident_guard.Agents.Runtime.Log.{append_event, stored_events}
use incident_guard.Context.Messages.{provider_messages}
use incident_guard.Context.Policy.{project_context, apply_budget}
use incident_guard.Events.Store.{RunEvent}
use incident_guard.Events.Projected.{ToolProjection, AssistantRecord, RunProjection}
use incident_guard.Agents.Runtime.Serialization.{
  serialize_calls, deserialize_call, optional_number, input_of, output_of, step_payload,
}

module _ {W : Type 0} (env : Environment W) where
  abbrev pub context_from : String → RunProjection → Option ℕ → Act (Session W) (List Fields)
  context_from run_id p none = give (provider_messages p)
  context_from run_id p (some budget) = do
    events ← stored_events env run_id
    snapshot ← lift (project_context env.dumps env.estimator run_id events)
    budgeted ← lift (apply_budget env.dumps env.estimator snapshot budget)
    give budgeted.messages

  -- `_provider_context`
  unfoldable pub provider_context : String → RunProjection → Act (Session W) (List Fields)
  provider_context run_id p = context_from run_id p env.context_token_budget

  abbrev pub ended_with : Option ProviderResponse → Act (Session W) ProviderResponse
  ended_with (some r) = give r
  ended_with none = throw (failed_with "Provider stream ended without completed event")

  -- The body of the `async for` of `_generate_response`, from the response completed so far; the last
  -- argument is the rest of the loop.
  unfoldable pub read_event :
      String
      → Option ProviderResponse
      → Option ProviderEvent
      → (Option ProviderResponse → Act (Session W) ProviderResponse)
      → Act (Session W) ProviderResponse
  read_event run_id response none rest = ended_with response
  read_event run_id (some r) (some e) rest =
      throw (failed_with "Provider emitted events after completed")
  read_event run_id none (some (completed r)) rest = rest (some r)
  read_event run_id none (some (text_delta t)) rest = do
    env.emit run_id "assistant.delta" (field "text" (str t) end)
    rest none
  read_event run_id none (some (tool_call c)) rest = do
    env.emit run_id "tool.progress" (
        field "phase" (str "requested")
          (field "call_id" (str c.id) (field "name" (str c.name) end)))
    rest none

  -- An event is awaited only when the one before it has been handled.
  unfoldable pub read_events :
      String
      → Option ProviderResponse
      → List (Act (Session W) (Option ProviderEvent))
      → Act (Session W) ProviderResponse
  read_events run_id response [] = ended_with response
  read_events run_id response (pull ∷ pulls) = do
    event ← pull
    read_event run_id response event (λ found. read_events run_id found pulls)

  -- `_generate_response`
  unfoldable pub generate_reply : String → List Fields → Act (Session W) ProviderResponse
  generate_reply run_id context s = let r = env.stream context s in read_events run_id none r.0 r.1

  -- `_persist_response`
  unfoldable pub persist_response :
      String → RunProjection → ProviderResponse → Act (Session W) RunEvent
  persist_response run_id p response = append_event env run_id "assistant.message" (
      step_payload p.turn_number p.current_step_number (
        field "text" (str response.text) (
          field "stop_reason" (str (stop_reason_value response.stop_reason)) (
            field "tool_calls" (arr (serialize_calls response.tool_calls)) (
              field "input_tokens" (optional_number (input_of response.usage))
                (field "output_tokens" (optional_number (output_of response.usage)) end))))))

  -- `serialized.get("id") in existing`
  abbrev is_existing : Dict ToolProjection → Option Value → Bool
  is_existing tools (some (str id)) = contains id tools
  is_existing tools _ = false

  abbrev pub id_value : Value → Act (Session W) (Option Value)
  id_value (obj fs) = give (get fs "id")
  id_value _ = throw (failed_with "object has no attribute 'get'")

  -- `tool.requested` for one call of the answer
  unfoldable pub request_tool : String → ℕ → Value → Act (Session W) (Unit {0})
  request_tool run_id index serialized = do
    call ← lift (deserialize_call serialized)
    event ← append_event env run_id "tool.requested" (
        field "call_id" (str call.id) (
          field "name" (str call.name) (
            field "arguments" (obj call.arguments) (
              field "effect" (str (tool_effect env call))
                (field "call_index" (int (pos index)) end)))))
    give tt

  unfoldable pub request_unless : Bool → String → ℕ → Value → Act (Session W) (Unit {0})
  request_unless true run_id index serialized = give tt
  request_unless false run_id index serialized = request_tool run_id index serialized

  unfoldable pub request_each :
      String → Dict ToolProjection → ℕ → Items → Act (Session W) (Unit {0})
  request_each run_id existing index nil = give tt
  request_each run_id existing index (cons serialized rest) = do
    id ← id_value serialized
    request_unless (is_existing existing id) run_id index serialized
    request_each run_id existing (suc index) rest

  -- `_ensure_tool_requests`
  unfoldable pub ensure_tool_requests :
      String → RunProjection → AssistantRecord → Act (Session W) (Unit {0})
  ensure_tool_requests run_id p assistant = request_each run_id p.tools 0 assistant.tool_calls
