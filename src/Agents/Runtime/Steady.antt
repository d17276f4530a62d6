-- ===== src/Agents/Runtime/Steady.antt =====
-- What a step of incident_guard/agents/event_runtime.py keeps when every call it makes keeps it: the
-- answer of the provider, the tool requests and the execution of the tools.
use incident_guard.Prelude.{
  All, ℕ, suc, String, Bool, true, false, Option, none, some, List, [], ◌∷◌, if◌then◌else◌,
}
use incident_guard.Json.{Fields, Value, Items, nil, cons, arr, obj, null, bool, str, int, float}
use incident_guard.Agents.Effects.{
  timed_out, failed_with, crashed, Reply, gives, throws, Act, lift, next,
}
use incident_guard.Agents.Provider.{
  ToolCall, ProviderResponse, ProviderEvent, text_delta, tool_call, completed,
}
use incident_guard.Agents.RunModels.{ToolObservation}
use incident_guard.Agents.Runtime.{Session, Environment, Preflight, nothing, decided, observed}
use incident_guard.Agents.Runtime.Approvals.{durable_approval}
use incident_guard.Agents.Runtime.Steps.{
  ended_with, read_event, read_events, generate_reply, persist_response, id_value, request_tool,
  request_unless, request_each, ensure_tool_requests,
}
use incident_guard.Agents.Runtime.Calls.{
  current_tools, append_result, stop_uncertain, record_observation, execution_raised,
  settle_execution, execute_started, start_and_execute, by_approval, after_preflight, run_in_state,
  run_unless_cancelling, run_tool, while_true, run_each_tool, execute_current_tools,
}
use incident_guard.Agents.Runtime.Quiet.{
  Keeps, Keeps-bind, Keeps-lift, Keeps-give, Keeps-throw, Keeps-if, Quiet, project_run-Keeps,
  append_event-Keeps, fail_session-Keeps, tool_result_payload-Keeps,
}
use incident_guard.Agents.Runtime.Mutation.{
  append_started-Keeps, record_refusal-Keeps, stop_uncertain-Keeps, ask_operator-Keeps,
}
use incident_guard.Events.Locals.{is_cancelling}
use incident_guard.Events.Projected.{
  ToolState, requested, started, completed as tool_completed, failed, ToolProjection,
  AssistantRecord, RunProjection,
}

-- Every call that the runtime makes keeps the property, the provider and the tools included.
pub record Steady {W : Type 0} (P : Session W → Type 0) (env : Environment W) : Type 0 where
  pub quiet : Quiet P env
  pub stream : (context : List Fields) (s : Session W) → P s → P (env.stream context s).1
  pub pulls :
      (context : List Fields) (s : Session W)
      → All
          (λ (pull : Act (Session W) (Option ProviderEvent)). Keeps P pull)
          (env.stream context s).0
  pub execute : (call : ToolCall) → Keeps P (env.execute call)
  pub close_run : (run_id : String) → Keeps P (env.close_run run_id)

module _ {W : Type 0} (P : Session W → Type 0) (env : Environment W) (steady : Steady P env)
    (run_id : String) where
  ended_with-Keeps : (response : Option ProviderResponse) → Keeps P (ended_with env response)
  ended_with-Keeps (some r) = Keeps-give P r
  ended_with-Keeps none = Keeps-throw P _

  read_event-Keeps :
      (response : Option ProviderResponse) (event : Option ProviderEvent)
      (rest : Option ProviderResponse → Act (Session W) ProviderResponse)
      → ((found : Option ProviderResponse) → Keeps P (rest found))
      → Keeps P (read_event env run_id response event rest)
  unfolding read_event
  read_event-Keeps response none rest k = ended_with-Keeps response
  read_event-Keeps (some r) (some e) rest k = Keeps-throw P _
  read_event-Keeps none (some (completed r)) rest k = k (some r)
  read_event-Keeps none (some (text_delta t)) rest k =
      Keeps-bind P _ _ (steady.quiet.emit run_id _ _) (λ u. k none)
  read_event-Keeps none (some (tool_call c)) rest k =
      Keeps-bind P _ _ (steady.quiet.emit run_id _ _) (λ u. k none)

  read_events-Keeps :
      (response : Option ProviderResponse) (pulls : List (Act (Session W) (Option ProviderEvent)))
      → All (λ (pull : Act (Session W) (Option ProviderEvent)). Keeps P pull) pulls
      → Keeps P (read_events env run_id response pulls)
  unfolding read_events
  read_events-Keeps response [] k = ended_with-Keeps response
  read_events-Keeps response (pull ∷ pulls) k =
      Keeps-bind P _ _ k.0
        (λ event. read_event-Keeps response event _ (λ found. read_events-Keeps found pulls k.1))

  pub generate_reply-Keeps : (context : List Fields) → Keeps P (generate_reply env run_id context)
  unfolding generate_reply
  generate_reply-Keeps context = record {
    at = λ s p.
        (read_events-Keeps none (env.stream context s).0 (steady.pulls context s)).at
          (env.stream context s).1 (steady.stream context s p);
  }

  pub persist_response-Keeps :
      (p : RunProjection) (response : ProviderResponse)
      → Keeps P (persist_response env run_id p response)
  unfolding persist_response
  persist_response-Keeps p response = append_event-Keeps P env steady.quiet run_id _ _

  request_tool-Keeps :
      (index : ℕ) (serialized : Value) → Keeps P (request_tool env run_id index serialized)
  unfolding request_tool
  request_tool-Keeps index serialized = Keeps-bind P _ _ (Keeps-lift P _) (λ (call : ToolCall).
      Keeps-bind P _ _ (append_event-Keeps P env steady.quiet run_id _ _)
        (λ event. Keeps-give P tt))

  request_unless-Keeps :
      (b : Bool) (index : ℕ) (serialized : Value)
      → Keeps P (request_unless env b run_id index serialized)
  unfolding request_unless
  request_unless-Keeps true index serialized = Keeps-give P tt
  request_unless-Keeps false index serialized = request_tool-Keeps index serialized

  id_value-Keeps : (v : Value) → Keeps P (id_value env v)
  id_value-Keeps (obj fs) = Keeps-give P _
  id_value-Keeps (str t) = Keeps-throw P _
  id_value-Keeps (int n) = Keeps-throw P _
  id_value-Keeps (float x) = Keeps-throw P _
  id_value-Keeps (bool b) = Keeps-throw P _
  id_value-Keeps null = Keeps-throw P _
  id_value-Keeps (arr vs) = Keeps-throw P _

  request_each-Keeps :
      (p : RunProjection) (index : ℕ) (calls : Items)
      → Keeps P (request_each env run_id p.tools index calls)
  unfolding request_each
  request_each-Keeps p index nil = Keeps-give P tt
  request_each-Keeps p index (cons serialized rest) =
      Keeps-bind P _ _ (id_value-Keeps serialized) (λ id.
        Keeps-bind P _ _ (request_unless-Keeps _ index serialized)
          (λ u. request_each-Keeps p (suc index) rest))

  pub ensure_tool_requests-Keeps :
      (p : RunProjection) (assistant : AssistantRecord)
      → Keeps P (ensure_tool_requests env run_id p assistant)
  unfolding ensure_tool_requests
  ensure_tool_requests-Keeps p assistant = request_each-Keeps p 0 assistant.tool_calls

  append_result-Keeps :
      (event_type : String) (call : ToolCall) (o : ToolObservation)
      → Keeps P (append_result env run_id event_type call o)
  unfolding append_result
  append_result-Keeps event_type call o =
      Keeps-bind P _ _ (tool_result_payload-Keeps P env steady.quiet o) (λ payload.
        Keeps-bind P _ _ (append_event-Keeps P env steady.quiet run_id _ _)
          (λ event. Keeps-give P tt))

  stopped-Keeps : (call : ToolCall) → Keeps P (stop_uncertain env run_id call)
  stopped-Keeps call = stop_uncertain-Keeps P env steady.quiet run_id call

  record_observation-Keeps :
      (call : ToolCall) (tool : ToolProjection) (o : ToolObservation)
      → Keeps P (record_observation env run_id call tool o)
  unfolding record_observation
  record_observation-Keeps call tool o = Keeps-if P _ _ _ (stopped-Keeps call) (
      Keeps-bind P _ _ (append_result-Keeps _ call o)
        (λ u. Keeps-bind P _ _ (steady.quiet.emit run_id _ _) (λ v. Keeps-give P true)))

  execution_raised-Keeps :
      (message : String) (call : ToolCall) (tool : ToolProjection)
      → Keeps P (execution_raised env run_id message call tool)
  unfolding execution_raised
  execution_raised-Keeps message call tool =
      Keeps-if P _ _ _ (stopped-Keeps call)
        (Keeps-bind P _ _ (Keeps-lift P _) (λ o. record_observation-Keeps call tool o))

  settle_execution-holds :
      (call : ToolCall) (tool : ToolProjection) (r : Reply ToolObservation × Session W)
      → P r.1
      → P (settle_execution env run_id call tool r).1
  unfolding settle_execution
  settle_execution-holds call tool (gives o, s) p = (record_observation-Keeps call tool o).at s p
  settle_execution-holds call tool (throws timed_out, s) p = p
  settle_execution-holds call tool (throws (crashed message), s) p =
      (execution_raised-Keeps message call tool).at s p
  settle_execution-holds call tool (throws (failed_with message), s) p =
      (execution_raised-Keeps message call tool).at s p

  execute_started-Keeps :
      (call : ToolCall) (tool : ToolProjection) → Keeps P (execute_started env run_id call tool)
  unfolding execute_started
  execute_started-Keeps call tool = Keeps-bind P _ _ (steady.quiet.emit run_id _ _) (λ u. record {
    at =
        λ s p. settle_execution-holds call tool (env.execute call s) ((steady.execute call).at s p);
  })

  start_and_execute-Keeps :
      (call : ToolCall) (tool : ToolProjection) → Keeps P (start_and_execute env run_id call tool)
  unfolding start_and_execute
  start_and_execute-Keeps call tool =
      Keeps-bind P _ _ (append_started-Keeps P env steady.quiet run_id call tool)
        (λ u. execute_started-Keeps call tool)

  decided-Keeps :
      (call : ToolCall) (tool : ToolProjection) (checked : Preflight) (approval : Option Bool)
      → Keeps P (by_approval env run_id call tool checked approval)
  unfolding by_approval
  decided-Keeps call tool checked none = ask_operator-Keeps P env steady.quiet run_id call _
  decided-Keeps call tool checked (some true) = start_and_execute-Keeps call tool
  decided-Keeps call tool checked (some false) =
      Keeps-bind P _ _ (fail_session-Keeps P env steady.quiet run_id _) (λ p. Keeps-give P false)

  where_required-holds :
      (b : Bool) (call : ToolCall) (tool : ToolProjection) (checked : Preflight) (s : Session W)
      → P s
      → P
          (if b
            then next
                (by_approval env run_id call tool checked)
                (lift (durable_approval run_id call.id s.store) s)
            else start_and_execute env run_id call tool s).1
  where_required-holds true call tool checked s p =
      (Keeps-bind P _ _ (Keeps-lift P (durable_approval run_id call.id s.store))
          (decided-Keeps call tool checked)).at
        s p
  where_required-holds false call tool checked s p = (start_and_execute-Keeps call tool).at s p

  after_preflight-Keeps :
      (call : ToolCall) (tool : ToolProjection) (checked : Preflight)
      → Keeps P (after_preflight env run_id call tool checked)
  unfolding after_preflight
  after_preflight-Keeps call tool (observed o) = record {
    at = (record_refusal-Keeps P env steady.quiet run_id call tool o).at;
  }
  after_preflight-Keeps call tool nothing = record { at = where_required-holds _ call tool nothing }
  after_preflight-Keeps call tool (decided d) = record {
    at = where_required-holds _ call tool (decided d);
  }

  run_in_state-Keeps :
      (call : ToolCall) (tool : ToolProjection) (state : ToolState)
      → Keeps P (run_in_state env run_id call tool state)
  unfolding run_in_state
  run_in_state-Keeps call tool requested =
      Keeps-bind P _ _ (steady.quiet.preflight call)
        (λ checked. after_preflight-Keeps call tool checked)
  run_in_state-Keeps call tool started =
      Keeps-if P _ _ _ (stopped-Keeps call) (execute_started-Keeps call tool)
  run_in_state-Keeps call tool tool_completed = Keeps-give P true
  run_in_state-Keeps call tool failed = Keeps-give P true

  run_tool-Keeps : (tool : ToolProjection) → Keeps P (run_tool env run_id tool)
  unfolding run_tool run_unless_cancelling
  run_tool-Keeps tool = Keeps-if P _ _ _ (Keeps-give P true) (
      Keeps-bind P _ _ (project_run-Keeps P env steady.quiet run_id) (λ (p : RunProjection).
        Keeps-if P (is_cancelling p.status) _ _ (Keeps-give P false)
          (Keeps-bind P _ _ (Keeps-lift P _) (λ call. run_in_state-Keeps call tool tool.state))))

  while_true-Keeps :
      (rest : Act (Session W) (Unit {0})) (b : Bool)
      → Keeps P rest
      → Keeps P (while_true env run_id rest b)
  while_true-Keeps rest true k = k
  while_true-Keeps rest false k = Keeps-give P tt

  run_each_tool-Keeps : (tools : List ToolProjection) → Keeps P (run_each_tool env run_id tools)
  unfolding run_each_tool
  run_each_tool-Keeps [] = Keeps-give P tt
  run_each_tool-Keeps (t ∷ ts) =
      Keeps-bind P _ _ (run_tool-Keeps t)
        (λ continues. while_true-Keeps _ continues (run_each_tool-Keeps ts))

  pub execute_current_tools-Keeps :
      (p : RunProjection) → Keeps P (execute_current_tools env run_id p)
  unfolding execute_current_tools
  execute_current_tools-Keeps p = run_each_tool-Keeps (current_tools p)
