-- ===== src/Agents/Tools/Actions.antt =====
-- incident_guard/agents/tool_pipeline.py: what `RegistryToolExecutor` holds, and its methods as
-- actions. An action takes the state and returns its attempt with the state after it; what it did
-- before it raised stays done.
use incident_guard.Prelude.{String, Option, Result, ok, err, Dict, List, if◌then◌else◌, non_empty}
use incident_guard.Json.{Value, Fields}
use incident_guard.Agents.Provider.{ToolCall}
use incident_guard.Agents.RunModels.{ToolObservation}
use incident_guard.Agents.Tools.{
  allow, PolicyDecision, ApprovalRequest, ApprovalDecision, Exception, exception, class_name,
  Attempt, returned, raised, ToolDefinition,
}

-- An error of the schema library; the parts of its path are texts already.
pub record ValidationError : Type 0 where
  pub absolute_path : List String
  pub message : String

-- The library functions that the executor calls: `json.dumps`, `iter_errors` of the schema
-- validator, which raises on a reference that it cannot resolve, and `str` of a JSON value.
pub record Libraries : Type 0 where
  pub dumps : Fields → String
  pub iter_errors : Fields → Fields → Attempt (List ValidationError)
  pub format : Value → String

pub record ToolHook {ℓ} (W : Type ℓ) : Type ℓ where
  pub before_tool : ToolCall → ToolDefinition W → W → Attempt (Unit {0}) × W
  pub after_tool : ToolCall → ToolDefinition W → ToolObservation → W → Attempt (Unit {0}) × W

pub record Executor {ℓ} (W : Type ℓ) : Type ℓ where
  pub registry : Dict (ToolDefinition W)
  pub policy : ToolCall → ToolDefinition W → W → Attempt PolicyDecision × W
  pub hooks : List (ToolHook W)
  pub approval_provider : Option (ApprovalRequest → W → Attempt ApprovalDecision × W)

pub record ExecutorState {ℓ} (W : Type ℓ) : Type ℓ where
  pub approval_requests : List ApprovalRequest
  pub approval_decisions : List ApprovalDecision
  pub world : W

abbrev pub Action {ℓ} : Type ℓ → Type 0 → Type ℓ
Action W A = ExecutorState W → Attempt A × ExecutorState W

-- `AllowAllPolicy.evaluate`
abbrev pub allow_all {ℓ} :
    {W : Type ℓ} → ToolCall → ToolDefinition W → W → Attempt PolicyDecision × W
allow_all call tool w = (returned (record { action = allow; reason = "" }), w)

abbrev pub or_else : String → String → String
or_else s default = if non_empty s then s else default

module _ {ℓ} {W : Type ℓ} where
  abbrev pub pure : {A : Type 0} → A → Action W A
  pure a s = (returned a, s)

  abbrev pub raise : {A : Type 0} → Exception → Action W A
  raise e s = (raised e, s)

  abbrev pub next_of :
      {A B : Type 0} → (A → Action W B) → Attempt A × ExecutorState W → Attempt B × ExecutorState W
  next_of f (returned a, s) = f a s
  next_of f (raised e, s) = (raised e, s)

  infixl 5 ◌>>=◌ ◌>>◌
  abbrev pub ◌>>=◌ : {A B : Type 0} → Action W A → (A → Action W B) → Action W B
  m >>= f = λ s. next_of f (m s)

  abbrev pub ◌>>◌ : {B : Type 0} → Action W (Unit {0}) → Action W B → Action W B
  m >> k = m >>= λ _. k

  -- A call of code outside the executor: only the world changes.
  abbrev pub outside : {A : Type 0} → (W → Attempt A × W) → Action W A
  outside f s = let r = f s.world in (r.0, record s { world = r.1 })

  -- An exception of the values' constructors.
  abbrev pub lift : {A : Type 0} → Result A → Action W A
  lift (ok a) = pure a
  lift (err e) = raise (exception (class_name e))
