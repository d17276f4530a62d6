-- ===== src/Agents/Runtime/Mutation.antt =====
-- When `_execute_current_tools` of incident_guard/agents/event_runtime.py lets a mutating tool act.
use incident_guard.Prelude.{
  String, ◌≡◌, refl, ap, ◌∙◌, Bool, true, false, Option, none, some, Result, ok, err, ◌⊎◌, inl, inr,
  Bool-cases, arith,
}
use incident_guard.Agents.Effects.{Reply, gives, throws, lift, next}
use incident_guard.Agents.Provider.{ToolCall, new_tool_call}
use incident_guard.Agents.RunModels.{ToolObservation}
use incident_guard.Agents.Runtime.{
  Session, Environment, Preflight, nothing, decided, observed, is_mutation,
}
use incident_guard.Agents.Runtime.Approvals.{durable_approval}
use incident_guard.Agents.Runtime.Log.{project_run}
use incident_guard.Agents.Runtime.Calls.{
  append_started, record_refusal, stop_uncertain, ask_operator, by_approval, after_preflight,
  run_in_state, run_unless_cancelling, has_ended, run_tool,
}
use incident_guard.Agents.Runtime.Quiet.{
  Keeps, Keeps-bind, Keeps-give, Quiet, append_event-Keeps, fail_uncertain-Keeps,
  fail_session-Keeps, tool_result_payload-Keeps,
}
use incident_guard.Events.Inbox.{projection_of}
use incident_guard.Events.Locals.{is_cancelling}
use incident_guard.Events.Projected.{
  ToolState, requested, started, completed, failed, ToolProjection, RunProjection,
}

-- The call of a tool.
abbrev pub call_of : ToolProjection → ToolCall
call_of tool = record { id = tool.call_id; name = tool.name; arguments = tool.arguments }

module _ {W : Type 0} (P : Session W → Type 0) (env : Environment W) (quiet : Quiet P env)
    (run_id : String) where
  pub append_started-Keeps :
      (call : ToolCall) (tool : ToolProjection) → Keeps P (append_started env run_id call tool)
  unfolding append_started
  append_started-Keeps call tool =
      Keeps-bind P _ _ (append_event-Keeps P env quiet run_id _ _) (λ event. Keeps-give P tt)

  pub record_refusal-Keeps :
      (call : ToolCall) (tool : ToolProjection) (o : ToolObservation)
      → Keeps P (record_refusal env run_id call tool o)
  unfolding record_refusal
  record_refusal-Keeps call tool o = Keeps-bind P _ _ (append_started-Keeps call tool) (λ u.
      Keeps-bind P _ _ (tool_result_payload-Keeps P env quiet o) (λ payload.
        Keeps-bind P _ _ (append_event-Keeps P env quiet run_id _ _) (λ event. Keeps-give P true)))

  pub stop_uncertain-Keeps : (call : ToolCall) → Keeps P (stop_uncertain env run_id call)
  unfolding stop_uncertain
  stop_uncertain-Keeps call =
      Keeps-bind P _ _ (fail_uncertain-Keeps P env quiet run_id call.id) (λ p. Keeps-give P false)

  pub ask_operator-Keeps :
      (call : ToolCall) (reason : String) → Keeps P (ask_operator env run_id call reason)
  unfolding ask_operator
  ask_operator-Keeps call reason =
      Keeps-bind P _ _ (append_event-Keeps P env quiet run_id _ _)
        (λ event. Keeps-bind P _ _ (quiet.emit run_id _ _) (λ u. Keeps-give P false))

  -- A decision that does not approve the call lets it not act.
  by_approval-Keeps :
      (call : ToolCall) (tool : ToolProjection) (checked : Preflight) (approval : Option Bool)
      → ((approval ≡ some true) ⊎ Keeps P (by_approval env run_id call tool checked approval))
  unfolding by_approval
  by_approval-Keeps call tool checked none = inr (ask_operator-Keeps call _)
  by_approval-Keeps call tool checked (some true) = inl refl
  by_approval-Keeps call tool checked (some false) =
      inr (Keeps-bind P _ _ (fail_session-Keeps P env quiet run_id _) (λ p. Keeps-give P false))

  -- After an action the property holds still, or the log of the session approves the call.
  abbrev Excused : ToolCall → Session W → Session W → Type 0
  Excused call s s' = P s' ⊎ (durable_approval run_id call.id s.store ≡ ok (some true))

  looked_up-Excused :
      (call : ToolCall) (tool : ToolProjection) (checked : Preflight) (s : Session W)
      (r : Result (Option Bool))
      → durable_approval run_id call.id s.store ≡ r
      → P s
      → Excused call s (next (by_approval env run_id call tool checked) (lift r s)).1
  looked_up-Excused call tool checked s (err x) e p = inl p
  looked_up-Excused call tool checked s (ok approval) e p =
      elim (by_approval-Keeps call tool checked approval) [
        | inl approved ↦ inr (e ∙ ap ok approved)
        | inr keeps ↦ inl (keeps.at s p)
      ]

  after_preflight-Excused :
      (call : ToolCall) (tool : ToolProjection) (checked : Preflight) (s : Session W)
      → is_mutation tool ≡ true
      → P s
      → Excused call s (after_preflight env run_id call tool checked s).1
  unfolding after_preflight
  after_preflight-Excused call tool (observed o) s m p =
      inl ((record_refusal-Keeps call tool o).at s p)
  after_preflight-Excused call tool nothing s m p =
      rw m (looked_up-Excused call tool nothing s _ refl p)
  after_preflight-Excused call tool (decided d) s m p =
      rw m (looked_up-Excused call tool (decided d) s _ refl p)

  -- The session after the checks that precede the execution of a tool.
  abbrev checked_session : ToolProjection → Session W → Session W
  checked_session tool s = (env.preflight (call_of tool) s).1

  -- The property holds after the step, or the tool was waiting and the log approves its call.
  abbrev pub Permitted : ToolProjection → Session W → Session W → Type 0
  Permitted tool s s' =
      P s'
      ⊎ ((tool.state ≡ requested)
          × (durable_approval run_id tool.call_id (checked_session tool s).store ≡ ok (some true)))

  checked-Permitted :
      (tool : ToolProjection) (s : Session W) (r : Reply Preflight × Session W)
      → env.preflight (call_of tool) s ≡ r
      → tool.state ≡ requested
      → is_mutation tool ≡ true
      → P r.1
      → Permitted tool s (next (after_preflight env run_id (call_of tool) tool) r).1
  checked-Permitted tool s (throws x, s') e w m p = inl p
  checked-Permitted tool s (gives checked, s') e w m p =
      elim (after_preflight-Excused (call_of tool) tool checked s' m p) [
        | inl q ↦ inl q
        | inr approved ↦
            inr (w, ap (λ c. durable_approval run_id tool.call_id c.1.store) e ∙ approved)
      ]

  run_in_state-Permitted :
      (tool : ToolProjection) (state : ToolState) (s : Session W)
      → tool.state ≡ state
      → is_mutation tool ≡ true
      → P s
      → Permitted tool s (run_in_state env run_id (call_of tool) tool state s).1
  unfolding run_in_state
  run_in_state-Permitted tool requested s w m p =
      checked-Permitted tool s _ refl w m ((quiet.preflight (call_of tool)).at s p)
  run_in_state-Permitted tool started s w m p =
      rw m (inl ((stop_uncertain-Keeps (call_of tool)).at s p))
  run_in_state-Permitted tool completed s w m p = inl p
  run_in_state-Permitted tool failed s w m p = inl p

  called-Permitted :
      (tool : ToolProjection) (s : Session W) (r : Result ToolCall)
      → ((call : ToolCall) → r ≡ ok call → call ≡ call_of tool)
      → is_mutation tool ≡ true
      → P s
      → Permitted tool s (next (λ call. run_in_state env run_id call tool tool.state) (lift r s)).1
  called-Permitted tool s (err x) only m p = inl p
  called-Permitted tool s (ok call) only m p =
      rw (only call refl) (run_in_state-Permitted tool tool.state s refl m p)

  new_tool_call-call_of :
      (tool : ToolProjection) (call : ToolCall)
      → new_tool_call tool.call_id tool.name tool.arguments ≡ ok call
      → call ≡ call_of tool
  unfolding new_tool_call
  new_tool_call-call_of tool call e = ground arith

  projected-Permitted :
      (tool : ToolProjection) (s : Session W) (r : Result RunProjection)
      → is_mutation tool ≡ true
      → P s
      → Permitted tool s (next (run_unless_cancelling env run_id tool) (lift r s)).1
  unfolding run_unless_cancelling
  projected-Permitted tool s (err x) m p = inl p
  projected-Permitted tool s (ok projection) m p =
      elim (Bool-cases (is_cancelling projection.status)) [
        | inl c ↦ rw c (inl p)
        | inr c ↦ rw c (
            called-Permitted tool s (new_tool_call tool.call_id tool.name tool.arguments)
              (new_tool_call-call_of tool) m p)
      ]

  -- Take any property of the session that appends of new events, the checks before an execution, the
  -- live events, the fault injector and the result store keep, so that only the execution of a tool can
  -- end it. If it holds before the round of a mutating tool, then after the round, whatever it returned or raised, it holds still, or the tool was
  -- waiting (not already started) and the log after the checks held an approval of exactly that call.
  pub run_tool-Permitted :
      (tool : ToolProjection) (s : Session W)
      → is_mutation tool ≡ true
      → P s
      → Permitted tool s (run_tool env run_id tool s).1
  unfolding run_tool project_run
  run_tool-Permitted tool s m p = elim (Bool-cases (has_ended tool.state)) [
    | inl h ↦ rw h (inl p)
    | inr h ↦ rw h (projected-Permitted tool s (projection_of run_id s.store) m p)
  ]
