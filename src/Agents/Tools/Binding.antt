-- ===== src/Agents/Tools/Binding.antt =====
-- The observation that `RegistryToolExecutor` of incident_guard/agents/tool_pipeline.py returns.
use Prim.Native.Char.{Char, code}
use Prim.Native.String.append.{cons as append_cons}
use incident_guard.Prelude.{
  String, ◌≡◌, ◌⊎◌, inl, inr, subst, refl, Bool, true, false, Option, none, some, ok, List, [], ◌∷◌,
  str_append, str_eq_iff, arith, has_text, is_space, has_text-printing,
}
use incident_guard.Json.{Fields, Value, get}
use incident_guard.Agents.Provider.{ToolCall}
use incident_guard.Agents.RunModels.{ToolObservation, new_observation}
use incident_guard.Agents.Tools.{
  ToolErrorCode, execution_failed, unknown_tool, new_tool_error, to_observation, Exception,
  tool_execution_failure, exception, base_exception, Attempt, returned, raised, ToolDefinition,
  resolve, HandlerValue, text_value, observation_value, other_value,
}
use incident_guard.Agents.Tools.Actions.{
  ValidationError, Libraries, Executor, ExecutorState, Action, pure, ◌>>◌, outside, next_of,
}
use incident_guard.Agents.Tools.Execution.{
  first_invalid, judged, missing_field, missing_lane_field, sort_errors, validate, missing_lane,
  refuse, normalize_result, run_before, run_after, lane_for,
}
use incident_guard.Agents.Tools.Calls.{
  authorize, invoke, invoke_unless, guarded, recover, execute_validated, execute_checked,
  execute_resolved, execute, check_call, or_next, or_lane,
}

-- The observation answers the call.
pub record Answers (call : ToolCall) (o : ToolObservation) : Type 0 where
  pub same_id : o.call_id ≡ call.id
  pub same_name : o.name ≡ call.name

abbrev AnswersIfReturned : ToolCall → Attempt ToolObservation → Type 0
AnswersIfReturned call (returned o) = Answers call o
AnswersIfReturned call (raised e) = Unit

abbrev pub Returns : ToolCall → Attempt ToolObservation → Type 0
Returns call r = (o : ToolObservation) × (r ≡ returned o) × Answers call o

pub has_text-append :
    (c : Char) (s t : String)
    → is_space (code c) ≡ false
    → has_text (str_append (String.◌∷◌ c s) t) ≡ true
has_text-append c s t h = rw (append_cons c s t) (has_text-printing c (str_append s t) h)

new_observation-Answers :
    (call : ToolCall) (content : String) (is_error : Bool) (o : ToolObservation)
    → new_observation call.id call.name content is_error ≡ ok o
    → Answers call o
unfolding new_observation
new_observation-Answers call content is_error o h = ground arith

module _ {ℓ} {W : Type ℓ} (lib : Libraries) (ex : Executor W) (call : ToolCall) where
  next_of-IfReturned :
      {A : Type 0} (f : A → Action W ToolObservation) (r : Attempt A × ExecutorState W)
      → ((a : A) (s : ExecutorState W) → AnswersIfReturned call (f a s).0)
      → AnswersIfReturned call (next_of f r).0
  next_of-IfReturned f (returned a, s) h = h a s
  next_of-IfReturned f (raised e, s) h = tt

  refuse-IfReturned :
      (code : ToolErrorCode) (message : String) (s : ExecutorState W)
      → AnswersIfReturned call (refuse lib ex call code message s).0
  unfolding refuse new_tool_error to_observation new_observation
  refuse-IfReturned code message s = ground arith

  -- A refusal with a message that is not blank is returned.
  refuse-Returns :
      (code : ToolErrorCode) (message : String) (s : ExecutorState W)
      → has_text call.id ≡ true
      → has_text call.name ≡ true
      → has_text message ≡ true
      → Returns call (refuse lib ex call code message s).0
  unfolding refuse new_tool_error to_observation new_observation
  refuse-Returns code message s hi hn hm =
      rw (hm, hi, hn) (_, refl, record { same_id = refl; same_name = refl })

  normalize_result-IfReturned :
      (value : HandlerValue) (s : ExecutorState W)
      → AnswersIfReturned call (normalize_result lib ex call value s).0
  unfolding normalize_result new_observation
  normalize_result-IfReturned (observation_value o) s =
      ground (arith, str_eq_iff o.call_id call.id, str_eq_iff o.name call.name)
  normalize_result-IfReturned (text_value t) s = ground arith
  normalize_result-IfReturned other_value s = tt

  invoke_unless-IfReturned :
      (tool : ToolDefinition W) (refusal : Option (ToolErrorCode × String)) (s : ExecutorState W)
      → AnswersIfReturned call (invoke_unless lib ex call tool refusal s).0
  unfolding invoke_unless invoke
  invoke_unless-IfReturned tool (some (code, message)) s = refuse-IfReturned code message s
  invoke_unless-IfReturned tool none s =
      next_of-IfReturned _ (outside (tool.handler call.arguments) s) after_handler
    where
      observed :
          (r : Attempt ToolObservation × ExecutorState W)
          → AnswersIfReturned call r.0
          → AnswersIfReturned call
              (next_of (λ o. run_after lib ex ex.hooks call tool o >> pure o) r).0
      observed (raised e, s) h = tt
      observed (returned o, s) h =
          next_of-IfReturned (λ _. pure o) (run_after lib ex ex.hooks call tool o s) (λ u t. h)

      after_handler :
          (value : HandlerValue) (s' : ExecutorState W)
          → AnswersIfReturned call
              (next_of
                (λ o. run_after lib ex ex.hooks call tool o >> pure o)
                (normalize_result lib ex call value s')).0
      after_handler value s' =
          observed (normalize_result lib ex call value s') (normalize_result-IfReturned value s')

  guarded-IfReturned :
      (tool : ToolDefinition W) (lane : Option String) (s : ExecutorState W)
      → AnswersIfReturned call (guarded lib ex call tool lane s).0
  unfolding guarded
  guarded-IfReturned tool lane s =
      next_of-IfReturned _ (run_before lib ex ex.hooks call tool s) (λ u s1.
        next_of-IfReturned _ (outside (ex.policy call tool) s1) (λ decision s2.
          next_of-IfReturned _ (authorize lib ex call tool lane decision s2)
            (invoke_unless-IfReturned tool)))

-- The schema library raised on the tool of the call, and nothing has been done.
pub record SchemaFailed {W : Type 0} (lib : Libraries) (ex : Executor W) (call : ToolCall)
    (s : ExecutorState W) (e : Exception) (s' : ExecutorState W) : Type 0 where
  pub tool : ToolDefinition W
  pub found : resolve ex.registry call.name ≡ some tool
  pub fails : lib.iter_errors tool.input_schema call.arguments ≡ raised e
  pub untouched : s' ≡ s

abbrev pub is_base : Exception → Bool
is_base (tool_execution_failure code message p) = false
is_base (exception name) = false
is_base (base_exception name) = true

-- How an execution ends: with an observation that answers the call, with an exception that is no
-- `Exception`, or with one of the schema library.
abbrev pub Settles :
    {W : Type 0}
    → Libraries
    → Executor W
    → ToolCall
    → ExecutorState W
    → Attempt ToolObservation × ExecutorState W
    → Type 0
Settles lib ex call s (returned o, s') = Answers call o
Settles lib ex call s (raised e, s') = (is_base e ≡ true) ⊎ SchemaFailed lib ex call s e s'

module _ {W : Type 0} (lib : Libraries) (ex : Executor W) (call : ToolCall)
    (hi : has_text call.id ≡ true) (hn : has_text call.name ≡ true) (s : ExecutorState W) where
  Returns-Settles :
      (r : Attempt ToolObservation × ExecutorState W) → Returns call r.0 → Settles lib ex call s r
  Returns-Settles (returned o, s') h = subst (Answers call) (same h.1) h.2
    where
      same : {a b : ToolObservation} → returned b ≡ returned a → a ≡ b
      same e = cc
  Returns-Settles (raised e, s') h = cc

  refuse-Settles :
      (code : ToolErrorCode) (message : String) (s' : ExecutorState W)
      → has_text message ≡ true
      → Settles lib ex call s (refuse lib ex call code message s')
  refuse-Settles code message s' h =
      Returns-Settles (refuse lib ex call code message s')
        (refuse-Returns lib ex call code message s' hi hn h)

  recover-Settles :
      (r : Attempt ToolObservation × ExecutorState W)
      → AnswersIfReturned call r.0
      → Settles lib ex call s (recover lib ex call r)
  unfolding recover is_space
  recover-Settles (returned o, s') h = h
  recover-Settles (raised (tool_execution_failure code message p), s') h =
      refuse-Settles code message s' p
  recover-Settles (raised (exception name), s') h =
      refuse-Settles execution_failed _ s' (has_text-append "T" "ool execution failed: " name refl)
  recover-Settles (raised (base_exception name), s') h = inl refl

  HasMessage : Option (ToolErrorCode × String) → Type 0
  HasMessage none = Unit
  HasMessage (some (code, message)) = has_text message ≡ true

  first_invalid-HasMessage : (es : List ValidationError) → HasMessage (first_invalid es)
  unfolding HasMessage is_space
  first_invalid-HasMessage [] = tt
  first_invalid-HasMessage (e ∷ es) = has_text-append "I" "nvalid arguments at " _ refl

  missing_lane_field-HasMessage :
      (field : Option String) (arguments : Fields) → HasMessage (missing_lane_field field arguments)
  unfolding HasMessage is_space
  missing_lane_field-HasMessage none arguments = tt
  missing_lane_field-HasMessage (some field) arguments = missing (get arguments field)
    where
      missing : (value : Option Value) → HasMessage (missing_field field value)
      missing (some v) = tt
      missing none = has_text-append "I" "nvalid arguments at " _ refl

  or_next-HasMessage :
      (refusal missing : Option (ToolErrorCode × String))
      → HasMessage refusal
      → HasMessage missing
      → HasMessage (or_next refusal missing)
  or_next-HasMessage none missing h k = k
  or_next-HasMessage (some e) missing h k = h

  -- An execution of a call with an id and a name that are not blank returns an observation with the id
  -- and the name of the call, whatever `Exception` the handler, the hooks, the policy and the approval
  -- provider raise; the one exception of this class that leaves it is the schema library's, with nothing
  -- done before. A `BaseException` that is no `Exception`, a cancellation, passes through.
  pub execute-Settles : Settles lib ex call s (execute lib ex call s)
  unfolding execute execute_resolved execute_checked execute_validated check_call validate
      missing_lane HasMessage is_space
  execute-Settles = resolved (resolve ex.registry call.name) refl
    where
      refused :
          (tool : ToolDefinition W) (refusal : Option (ToolErrorCode × String))
          → HasMessage refusal
          → Settles lib ex call s (execute_checked lib ex call tool (returned refusal) s)
      refused tool (some (code, message)) h = refuse-Settles code message s h
      refused tool none h =
          recover-Settles (guarded lib ex call tool (lane_for lib tool call) s)
            (guarded-IfReturned lib ex call tool (lane_for lib tool call) s)

      checked :
          (tool : ToolDefinition W)
          → resolve ex.registry call.name ≡ some tool
          → (errors : Attempt (List ValidationError))
          → lib.iter_errors tool.input_schema call.arguments ≡ errors
          → Settles lib ex call s (
              execute_checked lib ex call tool
                (or_lane (judged errors) (missing_lane_field tool.lane_argument call.arguments))
                s)
      checked tool found (returned errors) e =
          refused tool
            (or_next (first_invalid (sort_errors errors))
              (missing_lane_field tool.lane_argument call.arguments))
            (or_next-HasMessage (first_invalid (sort_errors errors))
              (missing_lane_field tool.lane_argument call.arguments)
              (first_invalid-HasMessage (sort_errors errors))
              (missing_lane_field-HasMessage tool.lane_argument call.arguments))
      checked tool found (raised x) e =
          inr (record { tool = tool; found = found; fails = e; untouched = refl })

      resolved :
          (found : Option (ToolDefinition W))
          → resolve ex.registry call.name ≡ found
          → Settles lib ex call s (execute_resolved lib ex call found s)
      resolved none e =
          refuse-Settles unknown_tool _ s (has_text-append "U" "nknown tool: " call.name refl)
      resolved (some tool) e =
          checked tool e (lib.iter_errors tool.input_schema call.arguments) refl
