-- ===== src/Agents/Tools/Mutation.antt =====
-- A tool that changes the world, executed by `RegistryToolExecutor` of
-- incident_guard/agents/tool_pipeline.py.
use incident_guard.Prelude.{
  String, ◌≡◌, refl, ap, ◌∙◌, Bool, true, false, ◌||◌, Option, none, some, List, [], ◌∷◌,
  str_append, if◌then◌else◌, ◌⊎◌, inl, inr, arith, subst,
}
use incident_guard.Agents.Provider.{ToolCall}
use incident_guard.Agents.RunModels.{ToolObservation, new_observation}
use incident_guard.Agents.Tools.{
  ToolErrorCode, policy_denied, PolicyAction, allow, deny, ask, PolicyDecision, ApprovalDecision,
  Attempt, returned, raised, ToolDefinition, resolve, HandlerValue,
}
use incident_guard.Agents.Tools.Actions.{
  Libraries, ToolHook, Executor, ExecutorState, or_else, pure, ◌>>=◌, ◌>>◌, outside, next_of,
}
use incident_guard.Agents.Tools.Execution.{
  normalize_result, run_before, run_after, request_approval, lane_for,
}
use incident_guard.Agents.Tools.Calls.{
  authorize, invoke, invoke_unless, guarded, execute_validated, execute_checked, execute_resolved,
  execute, check_call, is_deny, is_ask,
}
use incident_guard.Agents.Tools.Approval.{
  Keeps, Approved, refuse-state, recover-state, next_of-ends, Calm, Authorized, run_before-Calm,
  request_approval-Authorized,
}

-- What an execution of a call may have done: the property holds still, or the call was approved.
abbrev pub HeldBack {ℓ} :
    {W : Type ℓ} → (W → Type 0) → ToolCall → List ApprovalDecision → ExecutorState W → Type 0
HeldBack P call before s' = P s'.world ⊎ Approved call before s'.approval_decisions

module _ {ℓ} {W : Type ℓ} (lib : Libraries) (ex : Executor W) (P : W → Type 0)
    (call : ToolCall) where
  authorize-Authorized :
      (tool : ToolDefinition W) (lane : Option String) (decision : PolicyDecision)
      (s : ExecutorState W)
      → Keeps P ex
      → tool.requires_approval ≡ true
      → P s.world
      → Authorized lib ex P call s.approval_decisions (authorize lib ex call tool lane decision s)
  unfolding authorize
  authorize-Authorized tool lane decision s k required p =
      by_action decision.action tool.requires_approval required
    where
      by_action :
          (action : PolicyAction) (needed : Bool)
          → needed ≡ true
          → Authorized lib ex P call s.approval_decisions (
              (if is_deny action
                  then pure (
                      some (
                        policy_denied,
                        or_else decision.reason (str_append "Policy denied tool: " call.name),
                      ))
                  else if is_ask action || needed
                  then request_approval lib ex call tool lane (
                      or_else decision.reason (str_append "Approval required for tool: " call.name))
                  else pure none)
                s)
      by_action deny b e = p
      by_action ask b e = request_approval-Authorized lib ex P call tool lane _ s k p
      by_action allow true e = request_approval-Authorized lib ex P call tool lane _ s k p
      by_action allow false e = cc

  normalize_result-state :
      (value : HandlerValue) (s : ExecutorState W) → (normalize_result lib ex call value s).1 ≡ s
  unfolding normalize_result new_observation
  normalize_result-state value s = ground arith

  run_after-decisions :
      (hooks : List (ToolHook W)) (tool : ToolDefinition W) (o : ToolObservation)
      (s : ExecutorState W)
      → (run_after lib ex hooks call tool o s).1.approval_decisions ≡ s.approval_decisions
  unfolding run_after
  run_after-decisions [] tool o s = refl
  run_after-decisions (h ∷ hs) tool o s =
      next_of-ends lib ex (λ r. r.1.approval_decisions ≡ s.approval_decisions)
        (λ s'. s'.approval_decisions ≡ s.approval_decisions) (λ _. run_after lib ex hs call tool o)
        (outside (h.after_tool call tool o) s) refl (λ u s' e. run_after-decisions hs tool o s' ∙ e)
        (λ e s' q. q)

  invoke-decisions :
      (tool : ToolDefinition W) (s : ExecutorState W)
      → (invoke lib ex call tool s).1.approval_decisions ≡ s.approval_decisions
  unfolding invoke
  invoke-decisions tool s =
      next_of-ends lib ex (λ r. r.1.approval_decisions ≡ s.approval_decisions) Same _
        (outside (tool.handler call.arguments) s) refl after_handler (λ e s' q. q)
    where
      Same : ExecutorState W → Type 0
      Same s' = s'.approval_decisions ≡ s.approval_decisions

      after_handler :
          (value : HandlerValue) (s' : ExecutorState W)
          → Same s'
          → Same
              (next_of
                (λ o. run_after lib ex ex.hooks call tool o >> pure o)
                (normalize_result lib ex call value s')).1
      after_handler value s' q =
          next_of-ends lib ex (λ r. r.1 ≡ s') Same _ (normalize_result lib ex call value s')
            (normalize_result-state value s')
            (λ o s'' e.
              next_of-ends lib ex (λ r. Same r.1) Same (λ _. pure o)
                (run_after lib ex ex.hooks call tool o s'')
                (run_after-decisions ex.hooks tool o s'' ∙ ap (λ t. t.approval_decisions) e ∙ q)
                (λ u t h. h) (λ x t h. h))
            (λ x s'' e. ap (λ t. t.approval_decisions) e ∙ q)

  invoke_unless-HeldBack :
      (before : List ApprovalDecision) (tool : ToolDefinition W)
      (refusal : Option (ToolErrorCode × String)) (s : ExecutorState W)
      → Authorized lib ex P call before (returned refusal, s)
      → HeldBack P call before (invoke_unless lib ex call tool refusal s).1
  unfolding invoke_unless
  invoke_unless-HeldBack before tool none s a = inr (rw (invoke-decisions tool s) a)
  invoke_unless-HeldBack before tool (some (code, message)) s p =
      inl (rw (refuse-state lib ex call code message s) p)

  guarded-HeldBack :
      (tool : ToolDefinition W) (lane : Option String) (s : ExecutorState W)
      → Keeps P ex
      → tool.requires_approval ≡ true
      → P s.world
      → HeldBack P call s.approval_decisions (guarded lib ex call tool lane s).1
  unfolding guarded
  guarded-HeldBack tool lane s k required p =
      next_of-ends lib ex (λ r. Calm lib ex P call before r.1) (HeldBack P call before) _
        (run_before lib ex ex.hooks call tool s)
        (run_before-Calm lib ex P call ex.hooks tool s k.before p) after_hooks (λ e s' c. inl c.0)
    where
      before : List ApprovalDecision
      before = s.approval_decisions

      decided :
          (decision : PolicyDecision) (s' : ExecutorState W)
          → Calm lib ex P call before s'
          → HeldBack P call before
              (next_of
                (invoke_unless lib ex call tool)
                (authorize lib ex call tool lane decision s')).1
      decided decision s' c =
          next_of-ends lib ex (Authorized lib ex P call before) (HeldBack P call before)
            (invoke_unless lib ex call tool) (authorize lib ex call tool lane decision s')
            (subst
              (λ (ds : List ApprovalDecision).
                Authorized lib ex P call ds (authorize lib ex call tool lane decision s'))
              c.1 (authorize-Authorized tool lane decision s' k required c.0))
            (λ refusal s''. invoke_unless-HeldBack before tool refusal s'') (λ e s'' q. inl q)

      after_hooks :
          (u : Unit {0}) (s' : ExecutorState W)
          → Calm lib ex P call before s'
          → HeldBack P call before
              (next_of
                (λ decision.
                  authorize lib ex call tool lane decision >>= invoke_unless lib ex call tool)
                (outside (ex.policy call tool) s')).1
      after_hooks u s' c =
          next_of-ends lib ex (λ r. Calm lib ex P call before r.1) (HeldBack P call before) _
            (outside (ex.policy call tool) s') (k.policy call tool s'.world c.0, c.1) decided
            (λ e s'' q. inl q.0)

  -- A call of a tool that requires an approval acts on the world only with an approval: a property
  -- of the world that the hooks before a call, the policy and the approval provider keep holds after
  -- the execution as before it, whatever the handler does, unless the execution recorded exactly
  -- one more decision, which approves the request of this call.
  pub execute-HeldBack :
      (tool : ToolDefinition W) (s : ExecutorState W)
      → Keeps P ex
      → resolve ex.registry call.name ≡ some tool
      → tool.requires_approval ≡ true
      → P s.world
      → HeldBack P call s.approval_decisions (execute lib ex call s).1
  unfolding execute execute_resolved execute_checked execute_validated
  execute-HeldBack tool s k found required p = rw found (checked (check_call lib tool call))
    where
      checked :
          (refusal : Attempt (Option (ToolErrorCode × String)))
          → HeldBack P call s.approval_decisions (execute_checked lib ex call tool refusal s).1
      checked (raised e) = inl p
      checked (returned none) =
          rw (recover-state lib ex call (guarded lib ex call tool (lane_for lib tool call) s))
            (guarded-HeldBack tool (lane_for lib tool call) s k required p)
      checked (returned (some (code, message))) =
          inl (rw (refuse-state lib ex call code message s) p)
