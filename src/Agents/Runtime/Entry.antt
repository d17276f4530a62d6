-- ===== src/Agents/Runtime/Entry.antt =====
-- incident_guard/agents/event_runtime.py: `_drive` with its exceptions, and the methods `run`, `resume`
-- and `cancel`. A result of none means that the fuel ran out.
use incident_guard.Prelude.{
  ℕ, String, ◌||◌, Option, none, some, List, [], ◌∷◌, ◌++◌, Result, ok, err, value_error,
  if◌then◌else◌, str_append, has_text,
}
use incident_guard.Json.{Fields, Value, str, field, end, get, int, pos}
use incident_guard.Agents.Effects.{
  timed_out, failed_with, crashed, Reply, gives, throws, Act, give, throw, lift, ◌>>=◌, ◌>>◌,
}
use incident_guard.Agents.RunModels.{is_terminal}
use incident_guard.Agents.Runtime.{Session, Environment, uncertain_mutation}
use incident_guard.Agents.Runtime.Log.{
  on_store, stored_events, append_event, project_run, draw_event, status_payload, fail_session,
  fail_uncertain,
}
use incident_guard.Agents.Runtime.Drive.{drive_rounds}
use incident_guard.Events.Locals.{is_cancelling}
use incident_guard.Events.Projected.{ToolProjection, RunProjection}
use incident_guard.Events.Store.{NewRunEvent, RunEvent, append_batch}

-- The payload of one initial message.
abbrev pub initial_payload : Option Value → Option Value → Result Fields
initial_payload (some (str role)) (some (str content)) =
    if has_text role
    then ok (field "role" (str role) (field "content" (str content) end))
    else err (value_error "initial message role must be non-empty")
initial_payload (some (str role)) _ =
    if has_text role
    then err (value_error "initial message content must be a string")
    else err (value_error "initial message role must be non-empty")
initial_payload _ content = err (value_error "initial message role must be non-empty")

module _ {W : Type 0} (env : Environment W) (run_id : String) where
  abbrev pub fail_unless_uncertain : String → Option ToolProjection → Act (Session W) RunProjection
  fail_unless_uncertain reason (some tool) = fail_uncertain env run_id tool.call_id
  fail_unless_uncertain reason none = fail_session env run_id reason

  unfoldable pub give_up : String → Act (Session W) (Option RunProjection)
  give_up reason = do
    p ← project_run env run_id
    ended ← fail_unless_uncertain reason (uncertain_mutation p)
    give (some ended)

  -- The `except` clauses of `_drive`.
  unfoldable pub drive_caught :
      Reply (Option RunProjection) × Session W → Reply (Option RunProjection) × Session W
  drive_caught (gives p, s) = (gives p, s)
  drive_caught (throws (crashed message), s) = (throws (crashed message), s)
  drive_caught (throws timed_out, s) =
      give_up "run timeout exceeded after {timeout_seconds} seconds" s
  drive_caught (throws (failed_with message), s) =
      give_up (str_append "runtime failure: " message) s

  -- `_drive`
  unfoldable pub drive : ℕ → Act (Session W) (Option RunProjection)
  drive fuel s = drive_caught (drive_rounds env run_id fuel s)

  abbrev pub close_if_terminal : Option RunProjection → Act (Session W) (Unit {0})
  close_if_terminal none = give tt
  close_if_terminal (some p) = if is_terminal p.status then env.close_run run_id else give tt

  -- The `except CrashInjected` of `_drive_and_close`.
  unfoldable pub close_after :
      Reply (Option RunProjection) × Session W → Reply (Option RunProjection) × Session W
  close_after (gives p, s) = (do close_if_terminal p; give p) s
  close_after (throws (crashed message), s) = (do env.close_run run_id; throw (crashed message)) s
  close_after (throws f, s) = (throws f, s)

  unfoldable pub drive_and_close : ℕ → Act (Session W) (Option RunProjection)
  drive_and_close fuel s = close_after (drive fuel s)

  unfoldable pub draw_messages : List Fields → Act (Session W) (List NewRunEvent)
  draw_messages [] = give []
  draw_messages (m ∷ ms) = do
    payload ← lift (initial_payload (get m "role") (get m "content"))
    event ← draw_event env "operator.message" payload
    events ← draw_messages ms
    give (event ∷ events)

  unfoldable pub inject_each : List RunEvent → Act (Session W) (Unit {0})
  inject_each [] = give tt
  inject_each (e ∷ es) = do env.fault_injector e; inject_each es

  abbrev pub start_fresh : ℕ → List Fields → List RunEvent → Act (Session W) (Option RunProjection)
  start_fresh fuel messages (e ∷ es) = throw (failed_with "run already exists: {run_id}")
  start_fresh fuel messages [] = do
    first ← draw_event env "run.started" end
    asked ← draw_messages messages
    turn ← draw_event env "turn.started" (field "turn_number" (int (pos 1)) end)
    stored ← on_store env (append_batch run_id ((first ∷ asked) ++ turn ∷ []))
    inject_each stored
    env.emit run_id "runtime.status" (status_payload "running" end)
    drive_and_close fuel

  -- `run`
  unfoldable pub run_session : ℕ → List Fields → Act (Session W) (Option RunProjection)
  run_session fuel messages = do stored ← stored_events env run_id; start_fresh fuel messages stored

  abbrev pub resume_from : ℕ → RunProjection → Act (Session W) (Option RunProjection)
  resume_from fuel p = if is_terminal p.status then give (some p) else (do
    env.emit run_id "runtime.status" (status_payload "resuming" end)
    drive_and_close fuel)

  abbrev pub require_stored : List RunEvent → Act (Session W) (Unit {0})
  require_stored [] = throw (failed_with "run does not exist: {run_id}")
  require_stored (e ∷ es) = give tt

  unfoldable pub resume : ℕ → Act (Session W) (Option RunProjection)
  resume fuel = do
    stored ← stored_events env run_id
    require_stored stored
    p ← project_run env run_id
    resume_from fuel p

  unfoldable pub cancel : Act (Session W) RunProjection
  cancel = do
    stored ← stored_events env run_id
    require_stored stored
    p ← project_run env run_id
    (if is_terminal p.status || is_cancelling p.status
        then give p
        else (do event ← append_event env run_id "run.cancelling" end; project_run env run_id))
