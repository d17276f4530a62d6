-- ===== src/Agents/Runtime/Drive.antt =====
-- incident_guard/agents/event_runtime.py: the loop of `EventDrivenAgentRuntime` and its entry points.
-- The `while True` runs on fuel; `none` means that the fuel ran out.
use incident_guard.Prelude.{
  ℕ, zero, suc, ◌+◌, String, Bool, false, ◌||◌, Option, none, some, List, if◌then◌else◌, str_eq,
  ◌==◌, leb, any_of, length, count_if,
}
use incident_guard.Json.{field, end, int, pos}
use incident_guard.Agents.Effects.{failed_with, Act, give, throw, ◌>>=◌, ◌>>◌}
use incident_guard.Agents.Provider.{ProviderResponse}
use incident_guard.Agents.RunModels.{is_terminal}
use incident_guard.Agents.Runtime.{Session, Environment, uncertain_mutation, budget_failure}
use incident_guard.Agents.Runtime.Log.{
  append_event, project_run, consume_inbox, status_payload, finish_cancellation, fail_session,
  fail_uncertain,
}
use incident_guard.Agents.Runtime.Serialization.{step_payload}
use incident_guard.Agents.Runtime.Steps.{
  provider_context, generate_reply, persist_response, ensure_tool_requests,
}
use incident_guard.Agents.Runtime.Calls.{execute_current_tools}
use incident_guard.Events.Inbox.{next_step, next_turn, is_pending}
use incident_guard.Events.Locals.{is_cancelling, is_waiting}
use incident_guard.Events.Projected.{
  Key, is_completed, ToolProjection, AssistantRecord, InboxItemProjection, RunProjection, open_step,
  current_assistant,
}

abbrev pub step_completed : ℕ → Option ℕ → List Key → Bool
step_completed turn none done = false
step_completed turn (some step) done = is_completed turn step done

abbrev pub is_stop : String → AssistantRecord → Bool
is_stop reason record_ = str_eq record_.stop_reason reason

-- What a round of the loop does next: `return`, or go round again.
pub data Next : Type 0 where
  return : RunProjection → Next
  again : Next

module _ {W : Type 0} (env : Environment W) (run_id : String) where
  abbrev pub returning : Act (Session W) RunProjection → Act (Session W) Next
  returning m = do p ← m; give (return p)

  abbrev pub opens_turn : List InboxItemProjection → Bool
  opens_turn items = any_of (is_pending next_turn) items

  unfoldable pub start_turn : RunProjection → Act (Session W) RunProjection
  start_turn p = do
    event ←
        append_event env run_id "turn.started"
          (field "turn_number" (int (pos (p.turn_number + 1))) end)
    messages ← consume_inbox env run_id next_turn
    project_run env run_id

  unfoldable pub complete_run : Act (Session W) RunProjection
  complete_run = do
    event ← append_event env run_id "run.completed" end
    env.emit run_id "runtime.status" (status_payload "completed" end)
    project_run env run_id

  abbrev pub settle_answer :
      RunProjection → AssistantRecord → Act (Session W) (Option RunProjection)
  settle_answer p assistant =
      if is_stop "tool_use" assistant
      then give none
      else if is_stop "end_turn" assistant
      then (do
        settled ← (if opens_turn p.inbox_items then start_turn p else complete_run)
        give (some settled))
      else (do
        settled ← fail_session env run_id "provider stopped because max_tokens was reached"
        give (some settled))

  abbrev pub settle_record :
      RunProjection → Option AssistantRecord → Act (Session W) (Option RunProjection)
  settle_record p none = throw (failed_with "completed step has no assistant response")
  settle_record p (some assistant) = settle_answer p assistant

  -- `_settle_completed_step`
  unfoldable pub settle_completed_step : RunProjection → Act (Session W) (Option RunProjection)
  settle_completed_step p =
      if step_completed p.turn_number p.current_step_number p.completed_steps
      then settle_record p (current_assistant p)
      else give none

  abbrev pub step_number_of : RunProjection → ℕ
  step_number_of p = 1 + count_if (λ (item : Key). item.0 == p.turn_number) p.completed_steps

  -- Opens the next step, with the messages that wait for it.
  unfoldable pub open_next_step : Act (Session W) RunProjection
  open_next_step = do
    messages ← consume_inbox env run_id next_step
    p ← project_run env run_id
    event ←
        append_event env run_id "step.started"
          (step_payload p.turn_number (some (step_number_of p)) end)
    project_run env run_id

  unfoldable pub complete_step : RunProjection → Act (Session W) Next
  complete_step p = do
    event ←
        append_event env run_id "step.completed"
          (step_payload p.turn_number p.current_step_number end)
    give again

  unfoldable pub after_tools : RunProjection → Act (Session W) Next
  after_tools p =
      if is_terminal p.status || is_waiting p.status
      then give (return p)
      else if is_cancelling p.status
      then give again
      else complete_step p

  unfoldable pub use_tools_of : RunProjection → AssistantRecord → Act (Session W) Next
  use_tools_of p assistant = do
    ensure_tool_requests env run_id p assistant
    requested ← project_run env run_id
    execute_current_tools env run_id requested
    after ← project_run env run_id
    after_tools after

  abbrev pub within_budget : RunProjection → AssistantRecord → Option String → Act (Session W) Next
  within_budget p assistant (some reason) = returning (fail_session env run_id reason)
  within_budget p assistant none =
      if is_stop "tool_use" assistant then use_tools_of p assistant else complete_step p

  -- The rest of a round, once the step has its answer.
  unfoldable pub act_on_answer : RunProjection → AssistantRecord → Act (Session W) Next
  act_on_answer p assistant = within_budget p assistant (budget_failure env.limits p)

  abbrev pub answered : RunProjection → Option AssistantRecord → Act (Session W) Next
  answered p none = throw (failed_with "")
  answered p (some assistant) = act_on_answer p assistant

  unfoldable pub persist_and_act :
      RunProjection → ProviderResponse → RunProjection → Act (Session W) Next
  persist_and_act p response now = if is_cancelling now.status then give again else (do
    event ← persist_response env run_id p response
    after ← project_run env run_id
    answered after (current_assistant after))

  unfoldable pub ask_provider : RunProjection → Act (Session W) Next
  ask_provider p = do
    context ← provider_context env run_id p
    response ← generate_reply env run_id context
    now ← project_run env run_id
    persist_and_act p response now

  abbrev pub answer_step_with : RunProjection → Option AssistantRecord → Act (Session W) Next
  answer_step_with p none = ask_provider p
  answer_step_with p (some assistant) = act_on_answer p assistant

  -- A round from the open step on.
  unfoldable pub answer_step : RunProjection → Act (Session W) Next
  answer_step p = answer_step_with p (current_assistant p)

  abbrev pub in_open_step : RunProjection → Option Key → Act (Session W) Next
  in_open_step p (some key) = answer_step p
  in_open_step p none =
      if leb env.limits.max_steps (length p.completed_steps)
      then returning (fail_session env run_id "step budget exhausted after {max_steps} steps")
      else (do opened ← open_next_step; answer_step opened)

  abbrev pub after_settling : Option RunProjection → Act (Session W) Next
  after_settling (some settled) =
      if is_terminal settled.status then give (return settled) else give again
  after_settling none = do p ← project_run env run_id; in_open_step p (open_step p)

  abbrev pub unless_uncertain : RunProjection → Option ToolProjection → Act (Session W) Next
  unless_uncertain p (some tool) = returning (fail_uncertain env run_id tool.call_id)
  unless_uncertain p none = do settled ← settle_completed_step p; after_settling settled

  unfoldable pub by_status : RunProjection → Act (Session W) Next
  by_status p =
      if is_terminal p.status || is_waiting p.status
      then give (return p)
      else if is_cancelling p.status
      then returning (finish_cancellation env run_id p)
      else unless_uncertain p (uncertain_mutation p)

  -- One round of the `while True`.
  unfoldable pub drive_round : Act (Session W) Next
  drive_round = do p ← project_run env run_id; by_status p

  abbrev pub go_round :
      Act (Session W) (Option RunProjection) → Next → Act (Session W) (Option RunProjection)
  go_round rest (return p) = give (some p)
  go_round rest again = rest

  unfoldable pub drive_rounds : ℕ → Act (Session W) (Option RunProjection)
  drive_rounds zero = give none
  drive_rounds (suc fuel) = do next ← drive_round; go_round (drive_rounds fuel) next
