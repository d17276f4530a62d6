-- ===== src/Agents/Tools/Calls.antt =====
-- incident_guard/agents/tool_pipeline.py: `preflight`, `execute` and `execute_batch`. The lock of a
-- lane is held around the whole of an execution, so it does not show in one execution; two
-- executions at once are inside `gather`, which stands for `asyncio.gather` under the semaphore.
use incident_guard.Prelude.{
  String, Bool, true, false, ◌||◌, Option, none, some, List, [], ◌∷◌, map, str_append,
  if◌then◌else◌, any_of, ◌⊎◌, inl, inr,
}
use incident_guard.Agents.Provider.{ToolCall}
use incident_guard.Agents.RunModels.{ToolObservation}
use incident_guard.Agents.Tools.{
  ToolErrorCode, unknown_tool, execution_failed, policy_denied, is_mutate, PolicyAction, deny, ask,
  PolicyDecision, tool_execution_failure, exception, base_exception, Attempt, returned, raised,
  ToolDefinition, resolve,
}
use incident_guard.Agents.Tools.Actions.{
  Libraries, Executor, ExecutorState, Action, or_else, pure, raise, ◌>>=◌, ◌>>◌, outside,
}
use incident_guard.Agents.Tools.Execution.{
  validate, missing_lane, lane_for, refuse, normalize_result, run_before, run_after,
  request_approval,
}

abbrev pub is_deny : PolicyAction → Bool
is_deny deny = true
is_deny _ = false

abbrev pub is_ask : PolicyAction → Bool
is_ask ask = true
is_ask _ = false

abbrev pub or_next {ℓ} : {A : Type ℓ} → Option A → Option A → Option A
or_next none o = o
or_next (some a) o = some a

abbrev pub or_lane :
    Attempt (Option (ToolErrorCode × String))
    → Option (ToolErrorCode × String)
    → Attempt (Option (ToolErrorCode × String))
or_lane (returned refusal) missing = returned (or_next refusal missing)
or_lane (raised e) missing = raised e

-- The checks before the policy: the schema, then the field of the lane.
unfoldable pub check_call {ℓ} :
    {W : Type ℓ}
    → Libraries
    → ToolDefinition W
    → ToolCall
    → Attempt (Option (ToolErrorCode × String))
check_call lib tool call = or_lane (validate lib tool call) (missing_lane tool call)

module _ {ℓ} {W : Type ℓ} (lib : Libraries) (ex : Executor W) where
  -- The branches on the policy's decision: what refuses the call, if anything does.
  unfoldable pub authorize :
      ToolCall
      → ToolDefinition W
      → Option String
      → PolicyDecision
      → Action W (Option (ToolErrorCode × String))
  authorize call tool lane decision =
      if is_deny decision.action
      then pure (
          some
            (policy_denied, or_else decision.reason (str_append "Policy denied tool: " call.name)))
      else if is_ask decision.action || tool.requires_approval
      then request_approval lib ex call tool lane
          (or_else decision.reason (str_append "Approval required for tool: " call.name))
      else pure none

  unfoldable pub invoke : ToolCall → ToolDefinition W → Action W ToolObservation
  invoke call tool = do
    value ← outside (tool.handler call.arguments)
    observation ← normalize_result lib ex call value
    run_after lib ex ex.hooks call tool observation
    pure observation

  unfoldable pub invoke_unless :
      ToolCall → ToolDefinition W → Option (ToolErrorCode × String) → Action W ToolObservation
  invoke_unless call tool none = invoke call tool
  invoke_unless call tool (some (code, message)) = refuse lib ex call code message

  -- The body of the `try` of `_execute_validated`.
  unfoldable pub guarded : ToolCall → ToolDefinition W → Option String → Action W ToolObservation
  guarded call tool lane = do
    run_before lib ex ex.hooks call tool
    decision ← outside (ex.policy call tool)
    refusal ← authorize call tool lane decision
    invoke_unless call tool refusal

  -- The `except` clauses of `_execute_validated`.
  unfoldable pub recover :
      ToolCall
      → Attempt ToolObservation × ExecutorState W
      → Attempt ToolObservation × ExecutorState W
  recover call (returned o, s) = (returned o, s)
  recover call (raised (tool_execution_failure code message p), s) =
      refuse lib ex call code message s
  recover call (raised (exception name), s) =
      refuse lib ex call execution_failed (str_append "Tool execution failed: " name) s
  recover call (raised (base_exception name), s) = (raised (base_exception name), s)

  -- `_execute_validated`
  unfoldable pub execute_validated :
      ToolCall → ToolDefinition W → Option String → Action W ToolObservation
  execute_validated call tool lane s = recover call (guarded call tool lane s)

  unfoldable pub execute_checked :
      ToolCall
      → ToolDefinition W
      → Attempt (Option (ToolErrorCode × String))
      → Action W ToolObservation
  execute_checked call tool (returned none) = execute_validated call tool (lane_for lib tool call)
  execute_checked call tool (returned (some (code, message))) = refuse lib ex call code message
  execute_checked call tool (raised e) = raise e

  unfoldable pub execute_resolved : ToolCall → Option (ToolDefinition W) → Action W ToolObservation
  execute_resolved call none =
      refuse lib ex call unknown_tool (str_append "Unknown tool: " call.name)
  execute_resolved call (some tool) = execute_checked call tool (check_call lib tool call)

  unfoldable pub execute : ToolCall → Action W ToolObservation
  execute call = execute_resolved call (resolve ex.registry call.name)

  unfoldable pub refuse_early :
      ToolCall → ToolErrorCode → String → Action W (PolicyDecision ⊎ ToolObservation)
  refuse_early call code message = do
    observation ← refuse lib ex call code message
    pure (inr observation)

  unfoldable pub deny_or_pass :
      ToolCall → PolicyDecision → Action W (PolicyDecision ⊎ ToolObservation)
  deny_or_pass call decision =
      if is_deny decision.action
      then refuse_early call policy_denied
          (or_else decision.reason (str_append "Policy denied tool: " call.name))
      else pure (inl decision)

  unfoldable pub preflight_policy :
      ToolCall → ToolDefinition W → Action W (PolicyDecision ⊎ ToolObservation)
  preflight_policy call tool = do
    decision ← outside (ex.policy call tool)
    deny_or_pass call decision

  unfoldable pub preflight_checked :
      ToolCall
      → ToolDefinition W
      → Attempt (Option (ToolErrorCode × String))
      → Action W (PolicyDecision ⊎ ToolObservation)
  preflight_checked call tool (returned none) = preflight_policy call tool
  preflight_checked call tool (returned (some (code, message))) = refuse_early call code message
  preflight_checked call tool (raised e) = raise e

  unfoldable pub preflight_resolved :
      ToolCall → Option (ToolDefinition W) → Action W (PolicyDecision ⊎ ToolObservation)
  preflight_resolved call none =
      refuse_early call unknown_tool (str_append "Unknown tool: " call.name)
  preflight_resolved call (some tool) = preflight_checked call tool (check_call lib tool call)

  unfoldable pub preflight : ToolCall → Action W (PolicyDecision ⊎ ToolObservation)
  preflight call = preflight_resolved call (resolve ex.registry call.name)

  abbrev is_mutation : Option (ToolDefinition W) → Bool
  is_mutation none = false
  is_mutation (some tool) = is_mutate tool.effect

  unfoldable pub contains_mutation : List ToolCall → Bool
  contains_mutation calls = any_of (λ call. is_mutation (resolve ex.registry call.name)) calls

  unfoldable pub run_in_order : List (Action W ToolObservation) → Action W (List ToolObservation)
  run_in_order [] = pure []
  run_in_order (m ∷ ms) = do
    observation ← m
    observations ← run_in_order ms
    pure (observation ∷ observations)

  unfoldable pub execute_batch :
      (List (Action W ToolObservation) → Action W (List ToolObservation))
      → List ToolCall
      → Action W (List ToolObservation)
  execute_batch gather calls =
      if contains_mutation calls
      then run_in_order (map execute calls)
      else gather (map execute calls)
