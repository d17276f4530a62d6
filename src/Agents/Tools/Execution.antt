-- ===== src/Agents/Tools/Execution.antt =====
-- incident_guard/agents/tool_pipeline.py: the methods of `RegistryToolExecutor`.
use incident_guard.Prelude.{
  String, Bool, false, not, ◌||◌, Option, none, some, Result, List, [], ◌∷◌, ◌++◌, str_append,
  str_eq, if◌then◌else◌,
}
use incident_guard.Json.{Value, Fields, get}
use incident_guard.Json.Canonical.{text_le}
use incident_guard.Agents.Provider.{ToolCall}
use incident_guard.Agents.RunModels.{ToolObservation, new_observation}
use incident_guard.Agents.Tools.{
  ToolErrorCode, invalid_arguments, approval_required, approval_denied, is_mutate, ApprovalRequest,
  new_approval_request, ApprovalDecision, new_tool_error, to_observation, exception, Attempt,
  returned, raised, HandlerValue, text_value, observation_value, other_value, ToolDefinition,
}
use incident_guard.Agents.Tools.Actions.{
  ValidationError, Libraries, ToolHook, Executor, Action, or_else, pure, raise, ◌>>=◌, ◌>>◌,
  outside, lift,
}

-- `".".join(parts)`
abbrev join_path : List String → String
join_path [] = ""
join_path (p ∷ []) = p
join_path (p ∷ q ∷ ps) = str_append p (str_append "." (join_path (q ∷ ps)))

-- The order of `_error_sort_key`, on pairs of a path and a message.
unfoldable pub error_le : ValidationError → ValidationError → Bool
error_le e f =
    let p = join_path e.absolute_path in
    let q = join_path f.absolute_path in
    if str_eq p q then text_le e.message f.message else text_le p q

unfoldable pub insert_error : ValidationError → List ValidationError → List ValidationError
insert_error e [] = e ∷ []
insert_error e (f ∷ fs) = if error_le e f then e ∷ f ∷ fs else f ∷ insert_error e fs

-- `sorted(errors, key=_error_sort_key)`
unfoldable pub sort_errors : List ValidationError → List ValidationError
sort_errors [] = []
sort_errors (e ∷ es) = insert_error e (sort_errors es)

abbrev pub invalid_at : String → String → String
invalid_at path message =
    str_append "Invalid arguments at " (str_append path (str_append ": " message))

abbrev pub first_invalid : List ValidationError → Option (ToolErrorCode × String)
first_invalid [] = none
first_invalid (e ∷ es) =
    some (invalid_arguments, invalid_at (or_else (join_path e.absolute_path) "$") e.message)

abbrev pub judged : Attempt (List ValidationError) → Attempt (Option (ToolErrorCode × String))
judged (returned errors) = returned (first_invalid (sort_errors errors))
judged (raised e) = raised e

-- `_validate`: the code and the message of the `ToolError`
unfoldable pub validate {ℓ} :
    {W : Type ℓ}
    → Libraries
    → ToolDefinition W
    → ToolCall
    → Attempt (Option (ToolErrorCode × String))
validate lib tool call = judged (lib.iter_errors tool.input_schema call.arguments)

abbrev pub missing_field : String → Option Value → Option (ToolErrorCode × String)
missing_field field (some value) = none
missing_field field none =
    some (invalid_arguments, invalid_at "$" (str_append "missing lane field " field))

abbrev pub missing_lane_field : Option String → Fields → Option (ToolErrorCode × String)
missing_lane_field none arguments = none
missing_lane_field (some field) arguments = missing_field field (get arguments field)

-- The check that the arguments have the field of the lane.
unfoldable pub missing_lane {ℓ} :
    {W : Type ℓ} → ToolDefinition W → ToolCall → Option (ToolErrorCode × String)
missing_lane tool call = missing_lane_field tool.lane_argument call.arguments

-- `_lane_for`; a missing argument is a `KeyError`, which the check before excludes.
unfoldable pub lane_for {ℓ} : {W : Type ℓ} → Libraries → ToolDefinition W → ToolCall → Option String
lane_for lib tool call = if not (is_mutate tool.effect) then none else elim tool.lane_argument [
  | none ↦ some (str_append "tool:" tool.name)
  | some field ↦ elim (get call.arguments field) [
    | some value ↦ some (str_append "service:" (lib.format value))
    | none ↦ none
  ]
]

module _ {ℓ} {W : Type ℓ} (lib : Libraries) (ex : Executor W) where
  -- `ToolError(code, message).to_observation(call)`
  unfoldable pub refuse : ToolCall → ToolErrorCode → String → Action W ToolObservation
  refuse call code message = do
    error ← lift (new_tool_error code message)
    lift (to_observation lib.dumps error call)

  -- `_normalize_result`
  unfoldable pub normalize_result : ToolCall → HandlerValue → Action W ToolObservation
  normalize_result call (observation_value o) =
      if not (str_eq o.call_id call.id) || not (str_eq o.name call.name)
      then raise (exception "ValueError")
      else pure o
  normalize_result call other_value = raise (exception "TypeError")
  normalize_result call (text_value s) = lift (new_observation call.id call.name s false)

  unfoldable pub run_before : List (ToolHook W) → ToolCall → ToolDefinition W → Action W (Unit {0})
  run_before [] call tool = pure tt
  run_before (h ∷ hs) call tool = do outside (h.before_tool call tool); run_before hs call tool

  unfoldable pub run_after :
      List (ToolHook W) → ToolCall → ToolDefinition W → ToolObservation → Action W (Unit {0})
  run_after [] call tool o = pure tt
  run_after (h ∷ hs) call tool o = do outside (h.after_tool call tool o); run_after hs call tool o

  -- The end of `_request_approval`: an approval gives no error; of a `ToolError` the code and the
  -- message, from which `refuse` constructs it.
  unfoldable pub settle_approval :
      ToolCall → ApprovalRequest → ApprovalDecision → Action W (Option (ToolErrorCode × String))
  settle_approval call request decision s =
      if not (str_eq decision.request_id request.request_id)
      then raise (exception "ValueError") s
      else (
        returned (
            if decision.approved
            then none
            else some (
              approval_denied,
              or_else decision.reason (str_append "Approval denied for tool: " call.name),
            )),
        record s { approval_decisions = s.approval_decisions ++ decision ∷ [] },
      )

  abbrev pub record_request : ApprovalRequest → Action W (Unit {0})
  record_request request s =
      (returned tt, record s { approval_requests = s.approval_requests ++ request ∷ [] })

  -- The branch on the provider; without one the call fails closed.
  unfoldable pub request_from :
      ToolCall
      → String
      → Result ApprovalRequest
      → Option (ApprovalRequest → W → Attempt ApprovalDecision × W)
      → Action W (Option (ToolErrorCode × String))
  request_from call reason built none = pure (some (approval_required, reason))
  request_from call reason built (some provider) = do
    request ← lift built
    record_request request
    decision ← outside (provider request)
    settle_approval call request decision

  -- `_request_approval`
  unfoldable pub request_approval :
      ToolCall
      → ToolDefinition W
      → Option String
      → String
      → Action W (Option (ToolErrorCode × String))
  request_approval call tool lane reason =
      request_from call reason
        (new_approval_request (str_append "approval:" call.id) call tool.effect lane reason)
        ex.approval_provider
