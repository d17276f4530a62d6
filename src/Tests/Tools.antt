-- ===== src/Tests/Tools.antt =====
-- Tool calls at concrete inputs. The world is a number, the count of restarts of a service.
use incident_guard.Prelude.{
  ℕ, ◌+◌, ◌≡◌, refl, true, false, Option, none, some, [], ◌∷◌, lookup, insert, has_text, is_blank,
  subst, is_space, str_eq, if◌then◌else◌,
}
use incident_guard.Json.{Fields, field, str, end, get}
use incident_guard.Agents.Provider.{ToolCall}
use incident_guard.Agents.Tools.{
  mutate, ApprovalRequest, ApprovalDecision, Attempt, returned, raised, base_exception,
  HandlerValue, text_value, new_approval_request, new_tool_error, to_observation, ToolDefinition,
  resolve, register, new_tool_definition, is_mutate,
}
use incident_guard.Agents.Tools.Actions.{Libraries, Executor, ExecutorState, allow_all}
use incident_guard.Agents.RunModels.{new_observation}
use incident_guard.Agents.Tools.Execution.{
  validate, sort_errors, missing_lane, lane_for, run_before, run_after, request_approval,
  request_from, settle_approval, normalize_result, refuse,
}
use incident_guard.Agents.Tools.Calls.{
  execute, execute_resolved, execute_checked, execute_validated, guarded, recover, authorize,
  invoke, invoke_unless, check_call,
}
use incident_guard.Agents.Tools.Approval.{Keeps}
use incident_guard.Agents.Tools.Mutation.{HeldBack, execute-HeldBack}
use incident_guard.Agents.Tools.Binding.{Settles, execute-Settles}
use incident_guard.Agents.Tools.Registry.{new_tool_definition_requires, resolve-register}

abbrev lib : Libraries
lib = record { dumps = λ _. "{}"; iter_errors = λ _ _. returned []; format = λ _. "payment" }

abbrev restart_handler : Fields → ℕ → Attempt HandlerValue × ℕ
restart_handler arguments n = (returned (text_value "restarted"), n + 1)

abbrev restart : ToolDefinition ℕ
restart = record {
  name = "restart_service";
  input_schema = end;
  handler = restart_handler;
  effect = mutate;
  requires_approval = true;
  lane_argument = some "service";
  description = "";
}

abbrev approve : ApprovalRequest → ℕ → Attempt ApprovalDecision × ℕ
approve request n =
    (returned (record { request_id = request.request_id; approved = true; reason = "" }), n)

abbrev deny_all : ApprovalRequest → ℕ → Attempt ApprovalDecision × ℕ
deny_all request n =
    (returned (record { request_id = request.request_id; approved = false; reason = "" }), n)

abbrev with_provider : Option (ApprovalRequest → ℕ → Attempt ApprovalDecision × ℕ) → Executor ℕ
with_provider provider = record {
  registry = ("restart_service", restart) ∷ [];
  policy = allow_all;
  hooks = [];
  approval_provider = provider;
}

abbrev call : ToolCall
call = record {
  id = "c1";
  name = "restart_service";
  arguments = field "service" (str "payment") end;
}

abbrev start : ExecutorState ℕ
start = record { approval_requests = []; approval_decisions = []; world = 0 }

-- The service is restarted with an approval, and not without.
restarts : (execute lib (with_provider (some approve)) call start).1.world ≡ 1
unfolding execute execute_resolved execute_checked execute_validated guarded recover authorize
    invoke invoke_unless check_call validate sort_errors missing_lane lane_for run_before run_after
    request_approval request_from settle_approval normalize_result refuse new_approval_request
    new_observation new_tool_error to_observation resolve lookup get has_text is_blank is_space
restarts = refl

stays : (execute lib (with_provider (some deny_all)) call start).1.world ≡ 0
unfolding execute execute_resolved execute_checked execute_validated guarded recover authorize
    invoke invoke_unless check_call validate sort_errors missing_lane lane_for run_before run_after
    request_approval request_from settle_approval normalize_result refuse new_approval_request
    new_observation new_tool_error to_observation resolve lookup get has_text is_blank is_space
stays = refl

stays_closed : (execute lib (with_provider none) call start).1.world ≡ 0
unfolding execute execute_resolved execute_checked execute_validated guarded recover authorize
    invoke invoke_unless check_call validate sort_errors missing_lane lane_for run_before run_after
    request_approval request_from settle_approval normalize_result refuse new_approval_request
    new_observation new_tool_error to_observation resolve lookup get has_text is_blank is_space
stays_closed = refl

abbrev Untouched : ℕ → Type 0
Untouched n = n ≡ 0

deny_all-Keeps : Keeps Untouched (with_provider (some deny_all))
deny_all-Keeps = record {
  policy = λ c t w p. p;
  before = tt;
  provider = λ ask_for e request w p.
      subst (λ (f : ApprovalRequest → ℕ → Attempt ApprovalDecision × ℕ). (f request w).1 ≡ 0)
        (the_provider ask_for e) p;
}
  where
    the_provider :
        (ask_for : ApprovalRequest → ℕ → Attempt ApprovalDecision × ℕ)
        → some deny_all ≡ some ask_for
        → deny_all ≡ ask_for
    the_provider ask_for e = cc

execute-HeldBack_example :
    HeldBack Untouched call [] (execute lib (with_provider (some deny_all)) call start).1
unfolding resolve lookup
execute-HeldBack_example =
    execute-HeldBack lib (with_provider (some deny_all)) Untouched call restart start deny_all-Keeps
      refl refl refl

-- A cancellation while the handler runs.
abbrev cancelled : Executor ℕ
cancelled = record (with_provider (some approve)) {
  registry =
      (
        "restart_service",
        record restart {
          handler = λ arguments n. (raised (base_exception "CancelledError"), n + 1);
        },
      )
      ∷ [];
}

execute-Settles_example :
    Settles lib (with_provider none) call start (execute lib (with_provider none) call start)
unfolding has_text is_blank is_space
execute-Settles_example = execute-Settles lib (with_provider none) call refl refl start

escapes : (execute lib cancelled call start).0 ≡ raised (base_exception "CancelledError")
unfolding execute execute_resolved execute_checked execute_validated guarded recover authorize
    invoke invoke_unless check_call validate sort_errors missing_lane lane_for run_before run_after
    request_approval request_from settle_approval normalize_result refuse new_approval_request
    new_observation new_tool_error to_observation resolve lookup get has_text is_blank is_space
escapes = refl

new_tool_definition_requires_example :
    (restart.requires_approval ≡ true)
    × (is_mutate restart.effect ≡ false → restart.lane_argument ≡ none)
unfolding new_tool_definition has_text is_blank is_space
new_tool_definition_requires_example =
    new_tool_definition_requires (λ _. none) restart restart none refl

resolve-register_example :
    (resolve {W = ℕ} [] "restart_service" ≡ none)
    × (resolve (("restart_service", restart) ∷ []) "restart_service"
        ≡ (if str_eq "restart_service" "restart_service" then some restart else none))
unfolding register lookup insert resolve
resolve-register_example =
    resolve-register [] (("restart_service", restart) ∷ []) restart "restart_service" refl
