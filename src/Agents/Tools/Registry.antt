-- ===== src/Agents/Tools/Registry.antt =====
-- `ToolDefinition` and `ToolRegistry` of incident_guard/agents/tool_pipeline.py: which tools a
-- registry can hold, and what a name resolves to.
use incident_guard.Prelude.{
  String, ◌≡◌, Bool, false, Option, none, some, ok, arith, Dict, lookup, insert, lookup-insert,
  str_eq, if◌then◌else◌,
}
use incident_guard.Json.{Fields}
use incident_guard.Agents.Tools.{ToolDefinition, new_tool_definition, register, resolve, is_mutate}

module _ {ℓ} {W : Type ℓ} where
  -- A tool that the constructor accepts requires an approval exactly when its effect is to mutate,
  -- whatever the caller asked for, and has a lane only then.
  pub new_tool_definition_requires :
      (check_schema : Fields → Option String) (tool tool' : ToolDefinition W)
      (requires_approval : Option Bool)
      → new_tool_definition check_schema tool requires_approval ≡ ok tool'
      → (tool'.requires_approval ≡ is_mutate tool'.effect)
        × (is_mutate tool'.effect ≡ false → tool'.lane_argument ≡ none)
  unfolding new_tool_definition
  new_tool_definition_requires check_schema tool tool' requires_approval h = ground arith

  register-of :
      (tools tools' : Dict (ToolDefinition W)) (tool : ToolDefinition W)
      → register tools tool ≡ ok tools'
      → (lookup tool.name tools ≡ none) × (tools' ≡ insert tool.name tool tools)
  unfolding register
  register-of tools tools' tool h = ground arith

  -- After a registration a name resolves to the new tool if it is its name, and else to what it
  -- resolved to before; the name of the new tool resolved to nothing.
  pub resolve-register :
      (tools tools' : Dict (ToolDefinition W)) (tool : ToolDefinition W) (name : String)
      → register tools tool ≡ ok tools'
      → (resolve tools tool.name ≡ none)
        × (resolve tools' name ≡ (if str_eq tool.name name then some tool else resolve tools name))
  unfolding resolve
  resolve-register tools tools' tool name h =
      let r = register-of tools tools' tool h in
      (r.0, rw r.1 (lookup-insert tool.name name tool tools))
