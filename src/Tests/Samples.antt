-- ===== src/Tests/Samples.antt =====
-- A recorded run of an incident: an alert, a mutating tool call that waits for approval and succeeds,
-- and a step that ends the turn.
use incident_guard.Prelude.{ℕ, String, true, false, none, List, [], ◌∷◌, Result, ok, err}
use incident_guard.Json.{
  pos, dyadic, Value, bool, int, str, arr, obj, nil, cons, Fields, end, field,
}
use incident_guard.Agents.RunModels.{created}
use incident_guard.Events.Store.{RunEvent}
use incident_guard.Events.Projected.{RunProjection}
use incident_guard.Events.Projection.{project}

abbrev pub num : ℕ → Value
num n = int (pos n)

abbrev pub event : ℕ → String → String → Fields → RunEvent
event n id type payload = record {
  event_id = id;
  run_id = "run-1";
  sequence = n;
  event_type = type;
  payload = payload;
  schema_version = 1;
  occurred_at = dyadic (pos n) (pos 0);
}

abbrev pub at_step : ℕ → ℕ → Fields → Fields
at_step turn step rest = field "turn_number" (num turn) (field "step_number" (num step) rest)

abbrev pub call : Fields → Fields
call rest = field "call_id" (str "c1") (field "name" (str "restart_service") rest)

-- Until the tool has been asked for.
abbrev pub opening : List RunEvent
opening =
    event 1 "e1" "run.started" end
    ∷ event 2 "e2" "alert.received" (field "role" (str "user") (field "content" (str "5xx") end))
    ∷ event 3 "e3" "turn.started" (field "turn_number" (num 1) end)
    ∷ event 4 "e4" "step.started" (at_step 1 1 end)
    ∷ event 5 "e5" "assistant.message" (
        at_step 1 1 (
          field "text" (str "restart") (
            field "stop_reason" (str "tool_use") (
              field "tool_calls" (arr (cons (obj (field "id" (str "c1") end)) nil))
                (field "input_tokens" (num 7) (field "output_tokens" (num 5) end))))))
    ∷ event 6 "e6" "tool.requested" (
        call (
          field "effect" (str "mutate")
            (field "arguments" (obj end) (field "call_index" (num 0) end))))
    ∷ []

abbrev pub acting : List RunEvent
acting =
    event 7 "e7" "approval.requested" (
      field "request_id" (str "approval:c1")
        (field "call_id" (str "c1") (field "reason" (str "policy") end)))
    ∷ event 8 "e8" "approval.decided" (
        field "request_id" (str "approval:c1")
          (field "approved" (bool true) (field "reason" (str "") end)))
    ∷ event 9 "e9" "tool.started" (call (field "effect" (str "mutate") end))
    ∷ event 10 "e10" "tool.completed"
        (call (field "is_error" (bool false) (field "content" (str "restarted") end)))
    ∷ event 11 "e11" "step.completed" (at_step 1 1 end)
    ∷ []

abbrev pub closing : List RunEvent
closing =
    event 12 "e12" "step.started" (at_step 1 2 end)
    ∷ event 13 "e13" "assistant.message"
        (at_step 1 2 (field "text" (str "done") (field "stop_reason" (str "end_turn") end)))
    ∷ event 14 "e14" "step.completed" (at_step 1 2 end)
    ∷ event 15 "e15" "run.completed" end
    ∷ []

abbrev pub no_projection : RunProjection
no_projection = record {
  run_id = "";
  status = created;
  messages = [];
  tools = [];
  assistant_records = [];
  inbox_items = [];
  turn_number = 0;
  current_step_number = none;
  completed_steps = [];
  failure_reason = none;
  last_sequence = 0;
}

abbrev pub projected : Result RunProjection → RunProjection
projected (ok p) = p
projected (err e) = no_projection

abbrev pub run_of : List RunEvent → RunProjection
run_of events = projected (project "run-1" events)
