-- ===== src/Agents/Runtime/Whole.antt =====
-- What the loop and the entry points of incident_guard/agents/event_runtime.py keep when every call
-- that they make keeps it.
use incident_guard.Prelude.{
  ℕ, zero, suc, ◌+◌, String, ◌≡◌, refl, Option, none, some, List, Result, ok, err, length,
}
use incident_guard.Json.{Fields}
use incident_guard.Agents.Effects.{Act, modify}
use incident_guard.Agents.Runtime.{Session, Environment, uncertain_mutation, budget_failure}
use incident_guard.Agents.Runtime.Log.{append_event, project_run, consume_inbox, fail_session}
use incident_guard.Agents.Runtime.Steps.{context_from, provider_context}
use incident_guard.Agents.Runtime.Drive.{
  Next, return, again, returning, opens_turn, start_turn, complete_run, settle_record,
  settle_completed_step, open_next_step, complete_step, after_tools, use_tools_of, within_budget,
  act_on_answer, answered, persist_and_act, ask_provider, answer_step_with, answer_step,
  in_open_step, after_settling, unless_uncertain, by_status, drive_round, go_round, drive_rounds,
}
use incident_guard.Agents.Runtime.Quiet.{
  Keeps, Keeps-bind, Keeps-lift, Keeps-give, Keeps-throw, Keeps-if, on_store-Keeps,
  stored_events-Keeps, project_run-Keeps, append_event-Keeps, fail_uncertain-Keeps,
  finish_cancellation-Keeps, fail_session-Keeps,
}
use incident_guard.Agents.Runtime.Steady.{
  Steady, generate_reply-Keeps, persist_response-Keeps, ensure_tool_requests-Keeps,
  execute_current_tools-Keeps,
}
use incident_guard.Events.Inbox.{
  InboxTarget, InboxMessage, Stamp, next_step, next_turn, plan_consume, consume_plan, consume,
  answer_with,
}
use incident_guard.Events.Inbox.Atomicity.{consumed_events-of, plan_consume-of}
use incident_guard.Events.Locals.{is_cancelling}
use incident_guard.Events.Projected.{
  Key, ToolProjection, AssistantRecord, RunProjection, open_step, current_assistant,
}
use incident_guard.Context.Policy.{project_context, apply_budget}
use incident_guard.Context.Snapshot.{ContextSnapshot}
use incident_guard.Events.Store.{NewRunEvent, RunEvent, Store, append_batch}

answer_with-store :
    (messages : List InboxMessage) (r : Result (List RunEvent) × Store)
    → (answer_with messages r).1 ≡ r.1
answer_with-store messages (ok stored, store) = refl
answer_with-store messages (err e, store) = refl

module _ {W : Type 0} (P : Session W → Type 0) (env : Environment W) (steady : Steady P env)
    (run_id : String) where
  consume-holds :
      (target : InboxTarget) (stamps : ℕ → Stamp) (s : Session W)
      (plan : Result (List InboxMessage × List NewRunEvent))
      → plan_consume run_id target stamps s.store ≡ plan
      → P s
      → P (record s { store = (consume_plan run_id plan s.store).1 })
  unfolding consume_plan
  consume-holds target stamps s (err e) h p = p
  consume-holds target stamps s (ok (pending, events)) h p =
      rw (answer_with-store pending (append_batch run_id events s.store)) (
        steady.quiet.appends run_id events
          (consumed_events-of target stamps 0 pending events
            (plan_consume-of run_id target stamps s.store pending events h)).0
          s p)

  consume_inbox-Keeps : (target : InboxTarget) → Keeps P (consume_inbox env run_id target)
  unfolding consume_inbox consume
  consume_inbox-Keeps target = record {
    at = λ s p.
        (Keeps-bind P _ _
            (on_store-Keeps P env steady.quiet
              (consume run_id target (λ n. env.stamps (s.drawn + n)))
              (λ t q. consume-holds target _ t _ refl q))
            (λ (messages : List InboxMessage).
              Keeps-bind P
                (modify (λ (t : Session W). record t { drawn = t.drawn + length messages })) _
                (record { at = λ t q. steady.quiet.draws (t.drawn + length messages) t q })
                (λ u. Keeps-give P messages))).at
          s p;
  }

  projected-Keeps : Keeps P (project_run env run_id)
  projected-Keeps = project_run-Keeps P env steady.quiet run_id

  appended-Keeps :
      (event_type : String) (payload : Fields)
      → Keeps P (append_event env run_id event_type payload)
  appended-Keeps event_type payload =
      append_event-Keeps P env steady.quiet run_id event_type payload

  session_failed-Keeps : (reason : String) → Keeps P (fail_session env run_id reason)
  session_failed-Keeps reason = fail_session-Keeps P env steady.quiet run_id reason

  start_turn-Keeps : (p : RunProjection) → Keeps P (start_turn env run_id p)
  unfolding start_turn
  start_turn-Keeps p =
      Keeps-bind P _ _ (appended-Keeps _ _)
        (λ event. Keeps-bind P _ _ (consume_inbox-Keeps next_turn) (λ messages. projected-Keeps))

  complete_run-Keeps : Keeps P (complete_run env run_id)
  unfolding complete_run
  complete_run-Keeps =
      Keeps-bind P _ _ (appended-Keeps _ _)
        (λ event. Keeps-bind P _ _ (steady.quiet.emit run_id _ _) (λ u. projected-Keeps))

  settle_record-Keeps :
      (p : RunProjection) (assistant : Option AssistantRecord)
      → Keeps P (settle_record env run_id p assistant)
  settle_record-Keeps p none = Keeps-throw P _
  settle_record-Keeps p (some assistant) = Keeps-if P _ _ _ (Keeps-give P none) (
      Keeps-if P _ _ _
        (Keeps-bind P _ _
          (Keeps-if P (opens_turn env run_id p.inbox_items) _ _ (start_turn-Keeps p)
            complete_run-Keeps)
          (λ settled. Keeps-give P (some settled)))
        (Keeps-bind P _ _ (session_failed-Keeps _) (λ settled. Keeps-give P (some settled))))

  settle_completed_step-Keeps : (p : RunProjection) → Keeps P (settle_completed_step env run_id p)
  unfolding settle_completed_step
  settle_completed_step-Keeps p =
      Keeps-if P _ _ _ (settle_record-Keeps p (current_assistant p)) (Keeps-give P none)

  open_next_step-Keeps : Keeps P (open_next_step env run_id)
  unfolding open_next_step
  open_next_step-Keeps = Keeps-bind P _ _ (consume_inbox-Keeps next_step) (λ messages.
      Keeps-bind P _ _ projected-Keeps
        (λ p. Keeps-bind P _ _ (appended-Keeps _ _) (λ event. projected-Keeps)))

  returning-Keeps :
      (m : Act (Session W) RunProjection) → Keeps P m → Keeps P (returning env run_id m)
  returning-Keeps m k = Keeps-bind P _ _ k (λ p. Keeps-give P (return p))

  complete_step-Keeps : (p : RunProjection) → Keeps P (complete_step env run_id p)
  unfolding complete_step
  complete_step-Keeps p = Keeps-bind P _ _ (appended-Keeps _ _) (λ event. Keeps-give P again)

  use_tools_of-Keeps :
      (p : RunProjection) (assistant : AssistantRecord)
      → Keeps P (use_tools_of env run_id p assistant)
  unfolding use_tools_of after_tools
  use_tools_of-Keeps p assistant =
      Keeps-bind P _ _ (ensure_tool_requests-Keeps P env steady run_id p assistant) (λ u.
        Keeps-bind P _ _ projected-Keeps (λ requested.
          Keeps-bind P _ _ (execute_current_tools-Keeps P env steady run_id requested) (λ v.
            Keeps-bind P _ _ projected-Keeps (λ (after : RunProjection).
              Keeps-if P _ _ _ (Keeps-give P (return after))
                (Keeps-if P _ _ _ (Keeps-give P again) (complete_step-Keeps after))))))

  within_budget-Keeps :
      (p : RunProjection) (assistant : AssistantRecord) (failure : Option String)
      → Keeps P (within_budget env run_id p assistant failure)
  within_budget-Keeps p assistant (some reason) = returning-Keeps _ (session_failed-Keeps reason)
  within_budget-Keeps p assistant none =
      Keeps-if P _ _ _ (use_tools_of-Keeps p assistant) (complete_step-Keeps p)

  act_on_answer-Keeps :
      (p : RunProjection) (assistant : AssistantRecord)
      → Keeps P (act_on_answer env run_id p assistant)
  unfolding act_on_answer
  act_on_answer-Keeps p assistant = within_budget-Keeps p assistant (budget_failure env.limits p)

  answered-Keeps :
      (p : RunProjection) (assistant : Option AssistantRecord)
      → Keeps P (answered env run_id p assistant)
  answered-Keeps p none = Keeps-throw P _
  answered-Keeps p (some assistant) = act_on_answer-Keeps p assistant

  context_from-Keeps :
      (p : RunProjection) (budget : Option ℕ) → Keeps P (context_from env run_id p budget)
  context_from-Keeps p none = Keeps-give P _
  context_from-Keeps p (some budget) =
      Keeps-bind P _ _ (stored_events-Keeps P env steady.quiet run_id) (λ events.
        Keeps-bind P _ _ (Keeps-lift P (project_context env.dumps env.estimator run_id events))
          (λ (snapshot : ContextSnapshot).
            Keeps-bind P _ _ (Keeps-lift P (apply_budget env.dumps env.estimator snapshot budget))
              (λ (budgeted : ContextSnapshot). Keeps-give P budgeted.messages)))

  ask_provider-Keeps : (p : RunProjection) → Keeps P (ask_provider env run_id p)
  unfolding ask_provider provider_context persist_and_act
  ask_provider-Keeps p =
      Keeps-bind P _ _ (context_from-Keeps p env.context_token_budget) (λ context.
        Keeps-bind P _ _ (generate_reply-Keeps P env steady run_id context) (λ response.
          Keeps-bind P _ _ projected-Keeps (λ (now : RunProjection).
            Keeps-if P (is_cancelling now.status) _ _ (Keeps-give P again) (
              Keeps-bind P _ _ (persist_response-Keeps P env steady run_id p response) (λ event.
                Keeps-bind P _ _ projected-Keeps
                  (λ (after : RunProjection). answered-Keeps after (current_assistant after)))))))

  answer_step_with-Keeps :
      (p : RunProjection) (assistant : Option AssistantRecord)
      → Keeps P (answer_step_with env run_id p assistant)
  answer_step_with-Keeps p none = ask_provider-Keeps p
  answer_step_with-Keeps p (some assistant) = act_on_answer-Keeps p assistant

  answer_step-Keeps : (p : RunProjection) → Keeps P (answer_step env run_id p)
  unfolding answer_step
  answer_step-Keeps p = answer_step_with-Keeps p (current_assistant p)

  in_open_step-Keeps :
      (p : RunProjection) (opened : Option Key) → Keeps P (in_open_step env run_id p opened)
  in_open_step-Keeps p (some key) = answer_step-Keeps p
  in_open_step-Keeps p none =
      Keeps-if P _ _ _ (returning-Keeps _ (session_failed-Keeps _))
        (Keeps-bind P _ _ open_next_step-Keeps answer_step-Keeps)

  after_settling-Keeps :
      (settled : Option RunProjection) → Keeps P (after_settling env run_id settled)
  after_settling-Keeps (some settled) = Keeps-if P _ _ _ (Keeps-give P _) (Keeps-give P again)
  after_settling-Keeps none =
      Keeps-bind P _ _ projected-Keeps (λ (p : RunProjection). in_open_step-Keeps p (open_step p))

  unless_uncertain-Keeps :
      (p : RunProjection) (tool : Option ToolProjection)
      → Keeps P (unless_uncertain env run_id p tool)
  unless_uncertain-Keeps p (some tool) =
      returning-Keeps _ (fail_uncertain-Keeps P env steady.quiet run_id tool.call_id)
  unless_uncertain-Keeps p none =
      Keeps-bind P _ _ (settle_completed_step-Keeps p) after_settling-Keeps

  drive_round-Keeps : Keeps P (drive_round env run_id)
  unfolding drive_round by_status
  drive_round-Keeps = Keeps-bind P _ _ projected-Keeps (λ (p : RunProjection).
      Keeps-if P _ _ _ (Keeps-give P (return p)) (
        Keeps-if P _ _ _ (returning-Keeps _ (finish_cancellation-Keeps P env steady.quiet run_id p))
          (unless_uncertain-Keeps p (uncertain_mutation p))))

  go_round-Keeps :
      (rest : Act (Session W) (Option RunProjection)) (next : Next)
      → Keeps P rest
      → Keeps P (go_round env run_id rest next)
  go_round-Keeps rest (return p) k = Keeps-give P (some p)
  go_round-Keeps rest again k = k

  pub drive_rounds-Keeps : (fuel : ℕ) → Keeps P (drive_rounds env run_id fuel)
  unfolding drive_rounds
  drive_rounds-Keeps zero = Keeps-give P none
  drive_rounds-Keeps (suc fuel) =
      Keeps-bind P _ _ drive_round-Keeps (λ next. go_round-Keeps _ next (drive_rounds-Keeps fuel))
