-- ===== src/Agents/Tools.antt =====
-- incident_guard/agents/tool_pipeline.py: the values of the tool pipeline and the registry. The
-- executor is in the children. A handler, a hook, the policy and the approval provider act on a
-- world `W`, the state outside the executor that they read and write; each may raise.
pub mod Actions
pub mod Execution
pub mod Calls
pub mod Registry
pub mod Approval
pub mod Mutation
pub mod Binding
use incident_guard.Prelude.{
  String, ◌≡◌, Bool, true, false, not, ◌&&◌, ◌||◌, Option, none, some, Result, ok, err, Error,
  value_error, type_error, runtime_error, projection_error, integrity_error, file_not_found_error,
  overflow_error, ◌>>=◌, ◌>>◌, raise_if, has_text, Dict, lookup, insert, contains, List, [], ◌∷◌,
  str_append,
}
use incident_guard.Json.{Fields, obj, str, field, end}
use incident_guard.Agents.Provider.{ToolCall}
use incident_guard.Agents.RunModels.{ToolObservation, new_observation}

pub data ToolErrorCode : Type 0 where
  unknown_tool invalid_arguments execution_failed policy_denied approval_required approval_denied
        timeout :
      ToolErrorCode

abbrev pub code_value : ToolErrorCode → String
code_value unknown_tool = "unknown_tool"
code_value invalid_arguments = "invalid_arguments"
code_value execution_failed = "execution_failed"
code_value policy_denied = "policy_denied"
code_value approval_required = "approval_required"
code_value approval_denied = "approval_denied"
code_value timeout = "timeout"

pub data ToolEffect : Type 0 where
  read mutate : ToolEffect

abbrev pub is_mutate : ToolEffect → Bool
is_mutate mutate = true
is_mutate read = false

pub data PolicyAction : Type 0 where
  allow deny ask : PolicyAction

pub record PolicyDecision : Type 0 where
  pub action : PolicyAction
  pub reason : String

pub record ApprovalRequest : Type 0 where
  pub request_id : String
  pub call : ToolCall
  pub effect : ToolEffect
  pub lane : Option String
  pub reason : String

-- `value is not None and not value.strip()`
abbrev pub is_blank_option : Option String → Bool
is_blank_option none = false
is_blank_option (some s) = not (has_text s)

unfoldable pub new_approval_request :
    String → ToolCall → ToolEffect → Option String → String → Result ApprovalRequest
new_approval_request request_id call effect lane reason = do
  raise_if (not (has_text request_id)) (value_error "ApprovalRequest request_id must be non-empty")
  raise_if (is_blank_option lane) (value_error "ApprovalRequest lane must be non-empty or None")
  raise_if (not (has_text reason)) (value_error "ApprovalRequest reason must be non-empty")
  ok (record {
    request_id = request_id;
    call = call;
    effect = effect;
    lane = lane;
    reason = reason;
  })

pub record ApprovalDecision : Type 0 where
  pub request_id : String
  pub approved : Bool
  pub reason : String

pub record ToolError : Type 0 where
  pub code : ToolErrorCode
  pub message : String

unfoldable pub new_tool_error : ToolErrorCode → String → Result ToolError
new_tool_error code message = do
  raise_if (not (has_text message)) (value_error "ToolError message must be non-empty")
  ok (record { code = code; message = message })

-- `to_observation`; `dumps` stands for `json.dumps`, a library function.
unfoldable pub to_observation : (Fields → String) → ToolError → ToolCall → Result ToolObservation
to_observation dumps error call =
    new_observation call.id call.name
      (dumps (
        field "error"
          (obj
            (field "code" (str (code_value error.code)) (field "message" (str error.message) end)))
          end))
      true

-- What crosses a call of code outside the executor: `ToolExecutionFailure`, whose constructor
-- refuses a blank message, another `Exception`, or a `BaseException` that is none, such as
-- `CancelledError`, the cancellation of a task; each is known by the name of its class.
pub data Exception : Type 0 where
  tool_execution_failure :
      (code : ToolErrorCode) (message : String) → has_text message ≡ true → Exception
  exception : String → Exception
  base_exception : String → Exception

abbrev pub class_name : Error → String
class_name (value_error m) = "ValueError"
class_name (type_error m) = "TypeError"
class_name (runtime_error m) = "RuntimeError"
class_name (projection_error m) = "ProjectionError"
class_name (integrity_error m) = "IntegrityError"
class_name (file_not_found_error m) = "FileNotFoundError"
class_name (overflow_error m) = "OverflowError"

pub data Attempt {ℓ} (A : Type ℓ) : Type ℓ where
  returned : A → Attempt A
  raised : Exception → Attempt A

-- What a handler returns, seen by the class of the value.
pub data HandlerValue : Type 0 where
  text_value : String → HandlerValue
  observation_value : ToolObservation → HandlerValue
  other_value : HandlerValue

pub record ToolDefinition {ℓ} (W : Type ℓ) : Type ℓ where
  pub name : String
  pub input_schema : Fields
  pub handler : Fields → W → Attempt HandlerValue × W
  pub effect : ToolEffect
  pub requires_approval : Bool
  pub lane_argument : Option String
  pub description : String

-- `requires_approval` after its default is filled in
abbrev pub approval_default : ToolEffect → Option Bool → Bool
approval_default effect none = is_mutate effect
approval_default effect (some b) = b

abbrev pub is_some {ℓ} : {A : Type ℓ} → Option A → Bool
is_some none = false
is_some (some a) = true

-- `raise ValueError(...) from error` if the schema library reports an error
abbrev pub check_schema_result : Option String → Result (Unit {0})
check_schema_result none = ok tt
check_schema_result (some message) =
    err (value_error "Invalid JSON Schema for tool {name}: {message}")

-- `ToolDefinition.__post_init__`; `check_schema` stands for the schema library's check.
unfoldable pub new_tool_definition {ℓ} :
    {W : Type ℓ} (check_schema : Fields → Option String)
    → ToolDefinition W
    → Option Bool
    → Result (ToolDefinition W)
new_tool_definition check_schema tool requires_approval = do
  raise_if (not (has_text tool.name)) (value_error "ToolDefinition name must be non-empty")
  let required : Bool = approval_default tool.effect requires_approval
  raise_if (required && not (is_mutate tool.effect))
      (value_error "Only MUTATE tools can require approval")
  raise_if (is_mutate tool.effect && not required)
      (value_error "MUTATE tools must require approval")
  raise_if (is_blank_option tool.lane_argument)
      (value_error "ToolDefinition lane_argument must be non-empty or None")
  raise_if (is_some tool.lane_argument && not (is_mutate tool.effect))
      (value_error "Only MUTATE tools can use a named lane")
  check_schema_result (check_schema tool.input_schema)
  ok (record tool { requires_approval = required })

-- `ToolRegistry.register`
unfoldable pub register {ℓ} :
    {W : Type ℓ} → Dict (ToolDefinition W) → ToolDefinition W → Result (Dict (ToolDefinition W))
register tools tool = do
  raise_if (contains tool.name tools) (value_error "Tool already registered: {name}")
  ok (insert tool.name tool tools)

-- `ToolRegistry.__init__`: the tools of the argument in its order
unfoldable pub register_all {ℓ} :
    {W : Type ℓ}
    → Dict (ToolDefinition W)
    → List (ToolDefinition W)
    → Result (Dict (ToolDefinition W))
register_all tools [] = ok tools
register_all tools (t ∷ ts) = do tools' ← register tools t; register_all tools' ts

-- `ToolRegistry.resolve`
unfoldable pub resolve {ℓ} :
    {W : Type ℓ} → Dict (ToolDefinition W) → String → Option (ToolDefinition W)
resolve tools name = lookup name tools
