-- ===== src/Agents/Tools/Approval.antt =====
-- What `RegistryToolExecutor` of incident_guard/agents/tool_pipeline.py does before a tool that needs
-- an approval acts: the policy and the approval.
use incident_guard.Prelude.{
  String, ◌≡◌, refl, ◌∙◌, Bool, true, false, Option, none, some, Result, ok, err, List, [], ◌∷◌,
  ◌++◌, str_append, str_eq, str_eq_iff, if◌then◌else◌, inl, inr, arith, Bool-cases, All,
}
use incident_guard.Agents.Provider.{ToolCall}
use incident_guard.Agents.RunModels.{ToolObservation}
use incident_guard.Agents.Tools.{
  ToolErrorCode, ToolEffect, approval_denied, ApprovalRequest, ApprovalDecision,
  new_approval_request, new_tool_error, to_observation, Exception, tool_execution_failure,
  exception, base_exception, Attempt, returned, raised, ToolDefinition,
}
use incident_guard.Agents.Tools.Actions.{
  Libraries, ToolHook, Executor, ExecutorState, Action, or_else, ◌>>=◌, outside, lift, next_of,
}
use incident_guard.Agents.Tools.Execution.{
  request_from, refuse, run_before, request_approval, settle_approval,
}
use incident_guard.Agents.Tools.Calls.{recover}

-- The code that runs around a handler keeps a property of the world; the handler need not.
pub record Keeps {ℓ} {W : Type ℓ} (P : W → Type 0) (ex : Executor W) : Type ℓ where
  pub policy :
      (call : ToolCall) (tool : ToolDefinition W) (w : W) → P w → P (ex.policy call tool w).1
  pub before :
      All
        (λ (h : ToolHook W).
          (call : ToolCall) (tool : ToolDefinition W) (w : W)
          → P w
          → P (h.before_tool call tool w).1)
        ex.hooks
  pub provider :
      (ask_for : ApprovalRequest → W → Attempt ApprovalDecision × W)
      → ex.approval_provider ≡ some ask_for
      → (request : ApprovalRequest) (w : W) → P w
      → P (ask_for request w).1

-- A decision for the request of this call approves it, and is the one that was recorded.
pub record Approved (call : ToolCall) (before after : List ApprovalDecision) : Type 0 where
  pub decision : ApprovalDecision
  pub approves : decision.approved ≡ true
  pub answers : decision.request_id ≡ str_append "approval:" call.id
  pub recorded : after ≡ before ++ decision ∷ []

module _ {ℓ} {W : Type ℓ} (lib : Libraries) (ex : Executor W) where
  lift-state :
      {A B : Type 0} (m : Result A) (f : A → Result B) (s : ExecutorState W)
      → ((lift m >>= λ a. lift (f a)) s).1 ≡ s
  lift-state (err e) f s = refl
  lift-state (ok a) f s = lift_keeps (f a)
    where
      lift_keeps : {B : Type 0} (r : Result B) → (lift r s).1 ≡ s
      lift_keeps (ok b) = refl
      lift_keeps (err e) = refl

  pub refuse-state :
      (call : ToolCall) (code : ToolErrorCode) (message : String) (s : ExecutorState W)
      → (refuse lib ex call code message s).1 ≡ s
  unfolding refuse
  refuse-state call code message s =
      lift-state (new_tool_error code message) (λ e. to_observation lib.dumps e call) s

  pub recover-state :
      (call : ToolCall) (r : Attempt ToolObservation × ExecutorState W)
      → (recover lib ex call r).1 ≡ r.1
  unfolding recover
  recover-state call (returned o, s) = refl
  recover-state call (raised (tool_execution_failure c m p), s) = refuse-state call c m s
  recover-state call (raised (exception n), s) = refuse-state call _ _ s
  recover-state call (raised (base_exception n), s) = refl

  -- What a bind does, from what its first part does.
  pub next_of-ends {κ μ} :
      {A B : Type 0} (Q : Attempt A × ExecutorState W → Type κ) (R : ExecutorState W → Type μ)
      (f : A → Action W B) (r : Attempt A × ExecutorState W)
      → Q r
      → ((a : A) (s : ExecutorState W) → Q (returned a, s) → R (f a s).1)
      → ((e : Exception) (s : ExecutorState W) → Q (raised e, s) → R s)
      → R (next_of f r).1
  next_of-ends Q R f (returned a, s) q g h = g a s q
  next_of-ends Q R f (raised e, s) q g h = h e s q

module _ {ℓ} {W : Type ℓ} (lib : Libraries) (ex : Executor W) (P : W → Type 0)
    (call : ToolCall) where
  -- The property holds still, and no decision was recorded.
  abbrev pub Calm : List ApprovalDecision → ExecutorState W → Type 0
  Calm before s' = P s'.world × (s'.approval_decisions ≡ before)

  -- What `authorize` does for a tool that needs an approval: it lets the call pass only with one.
  abbrev pub Authorized :
      List ApprovalDecision → Attempt (Option (ToolErrorCode × String)) × ExecutorState W → Type 0
  Authorized before (returned none, s') = Approved call before s'.approval_decisions
  Authorized before (returned (some e), s') = P s'.world
  Authorized before (raised e, s') = P s'.world

  pub run_before-Calm :
      (hooks : List (ToolHook W)) (tool : ToolDefinition W) (s : ExecutorState W)
      → All
          (λ (h : ToolHook W).
            (call : ToolCall) (tool : ToolDefinition W) (w : W)
            → P w
            → P (h.before_tool call tool w).1)
          hooks
      → P s.world
      → Calm s.approval_decisions (run_before lib ex hooks call tool s).1
  unfolding run_before
  run_before-Calm [] tool s k p = (p, refl)
  run_before-Calm (h ∷ hs) tool s k p =
      next_of-ends lib ex (λ r. Calm s.approval_decisions r.1) (Calm s.approval_decisions)
        (λ _. run_before lib ex hs call tool) (outside (h.before_tool call tool) s)
        (k.0 call tool s.world p, refl)
        (λ u s' c. let rest = run_before-Calm hs tool s' k.1 c.0 in (rest.0, rest.1 ∙ c.1))
        (λ e s' c. c)

  settle_approval-Authorized :
      (request : ApprovalRequest) (decision : ApprovalDecision) (s : ExecutorState W)
      → request.request_id ≡ str_append "approval:" call.id
      → P s.world
      → Authorized s.approval_decisions (settle_approval lib ex call request decision s)
  unfolding settle_approval
  settle_approval-Authorized request decision s named p =
      elim (Bool-cases (str_eq decision.request_id request.request_id)) [
        | inr differ ↦ rw differ p
        | inl same ↦ rw same (decided same decision.approved refl)
      ]
    where
      decided :
          str_eq decision.request_id request.request_id ≡ true
          → (approved : Bool) → decision.approved ≡ approved
          → Authorized s.approval_decisions (
            returned (
                if approved
                then none
                else some (
                  approval_denied,
                  or_else decision.reason (str_append "Approval denied for tool: " call.name),
                )),
            record s { approval_decisions = s.approval_decisions ++ decision ∷ [] },
          )
      decided same false e = p
      decided same true e = record {
        decision = decision;
        approves = e;
        answers = (str_eq_iff decision.request_id request.request_id).0 same ∙ named;
        recorded = refl;
      }

  new_approval_request-id :
      (id : String) (effect : ToolEffect) (lane : Option String) (reason : String)
      (request : ApprovalRequest)
      → new_approval_request id call effect lane reason ≡ ok request
      → request.request_id ≡ id
  unfolding new_approval_request
  new_approval_request-id id effect lane reason request h = ground arith

  -- After the request is built: the provider is asked and its decision settled.
  ask_provider-Authorized :
      (provider : ApprovalRequest → W → Attempt ApprovalDecision × W) (request : ApprovalRequest)
      (s : ExecutorState W)
      → request.request_id ≡ str_append "approval:" call.id
      → ((w : W) → P w → P (provider request w).1)
      → P s.world
      → Authorized s.approval_decisions (
          next_of (settle_approval lib ex call request) (
            outside
              (provider request)
              (record s { approval_requests = s.approval_requests ++ request ∷ [] })))
  ask_provider-Authorized provider request s named k p =
      settled (provider request s.world) (k s.world p)
    where
      settled :
          (r : Attempt ApprovalDecision × W)
          → P r.1
          → Authorized s.approval_decisions (
              next_of (settle_approval lib ex call request) (
                r.0,
                record s { approval_requests = s.approval_requests ++ request ∷ []; world = r.1 },
              ))
      settled (raised e, w) q = q
      settled (returned d, w) q =
          settle_approval-Authorized request d
            (record s { approval_requests = s.approval_requests ++ request ∷ []; world = w }) named
            q

  request_from-Authorized :
      (reason : String) (built : Result ApprovalRequest)
      (provider : Option (ApprovalRequest → W → Attempt ApprovalDecision × W)) (s : ExecutorState W)
      → ((request : ApprovalRequest)
          → built ≡ ok request
          → request.request_id ≡ str_append "approval:" call.id)
      → ((ask_for : ApprovalRequest → W → Attempt ApprovalDecision × W)
          → provider ≡ some ask_for
          → (request : ApprovalRequest) (w : W) → P w
          → P (ask_for request w).1)
      → P s.world
      → Authorized s.approval_decisions (request_from lib ex call reason built provider s)
  unfolding request_from
  request_from-Authorized reason built none s named k p = p
  request_from-Authorized reason (err x) (some ask_for) s named k p = p
  request_from-Authorized reason (ok request) (some ask_for) s named k p =
      ask_provider-Authorized ask_for request s (named request refl) (k ask_for refl request) p

  pub request_approval-Authorized :
      (tool : ToolDefinition W) (lane : Option String) (reason : String) (s : ExecutorState W)
      → Keeps P ex
      → P s.world
      → Authorized s.approval_decisions (request_approval lib ex call tool lane reason s)
  unfolding request_approval
  request_approval-Authorized tool lane reason s k p =
      request_from-Authorized reason _ ex.approval_provider s
        (new_approval_request-id _ tool.effect lane reason) k.provider p
