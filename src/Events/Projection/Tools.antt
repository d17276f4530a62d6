-- ===== src/Events/Projection/Tools.antt =====
-- The life of a tool call in `project` of incident_guard/events/projection.py.
use incident_guard.Prelude.{
  ℕ, String, ◌≡◌, refl, subst, Bool, true, false, ◌&&◌, ◌||◌, some, List, [], ◌∷◌, ◌++◌, ok, arith,
  All, All-insert, All-lookup, lookup, values, any_of, ◌==◌,
}
use incident_guard.Json.{Fields}
use incident_guard.Events.Store.{RunEvent}
use incident_guard.Events.Kinds.{EventKind, event_kind}
use incident_guard.Events.Locals.{Locals, initial, put_tool, put_completed, say}
use incident_guard.Events.Handlers.{
  on_tool_requested, on_tool_started, on_tool_ended, on_step_completed, is_ended, is_unfinished_of,
}
use incident_guard.Events.Projected.{RunProjection, ToolProjection, Key, is_completed}
use incident_guard.Events.Projection.{apply_event, project}
use incident_guard.Events.Projection.Induction.{counted, project_events-keeps, project-from}

-- If the tool's step is completed, the tool has ended.
abbrev pub Settled : List Key → ToolProjection → Type 0
Settled done tool =
    is_completed tool.turn_number tool.step_number done ≡ true → is_ended tool.state ≡ true

-- Of every completed step all tools have ended.
pub record IsSettled (l : Locals) : Type 0 where
  pub at : All (Settled l.completed_steps) (values l.tools)

put_tool-IsSettled :
    (call_id : String) (tool : ToolProjection) (l : Locals)
    → IsSettled l
    → is_completed tool.turn_number tool.step_number l.completed_steps ≡ false
    → IsSettled (put_tool call_id tool l)
unfolding put_tool
put_tool-IsSettled call_id tool l s h = record {
  at = All-insert (Settled l.completed_steps) call_id tool l.tools (λ c. ground arith) s.at;
}

say-IsSettled : (m : _) (l : Locals) → IsSettled l → IsSettled (say m l)
unfolding say
say-IsSettled m l s = record { at = s.at }

is_completed-append :
    (turn step t n : ℕ) (done : List Key)
    → is_completed turn step (done ++ (t, n) ∷ [])
      ≡ (is_completed turn step done || (t == turn && n == step))
is_completed-append turn step t n [] = ground arith
is_completed-append turn step t n (key ∷ done) =
    ground (arith, is_completed-append turn step t n done)

Settled-append :
    (turn step : ℕ) (done : List Key) (tools : List ToolProjection)
    → any_of (is_unfinished_of turn step) tools ≡ false
    → All (Settled done) tools
    → All (Settled (done ++ (turn, step) ∷ [])) tools
Settled-append turn step done [] none_left s = tt
Settled-append turn step done (tool ∷ tools) none_left s = (
  λ c. ground (arith, s.0, is_completed-append tool.turn_number tool.step_number turn step done),
  Settled-append turn step done tools (ground arith) s.1,
)

step_done-IsSettled :
    (turn step : ℕ) (l : Locals)
    → IsSettled l
    → any_of (is_unfinished_of turn step) (values l.tools) ≡ false
    → IsSettled (put_completed (turn, step) l)
unfolding put_completed
step_done-IsSettled turn step l s h = record {
  at = Settled-append turn step l.completed_steps (values l.tools) h s.at;
}

IsSettled-of :
    (l l' : Locals)
    → IsSettled l
    → l'.tools ≡ l.tools
    → l'.completed_steps ≡ l.completed_steps
    → IsSettled l'
IsSettled-of l l' s t c = record { at = rw (t, c) s.at }

module _ (payload : Fields) (l l' : Locals) (s : IsSettled l) where
  on_tool_requested-IsSettled : on_tool_requested payload l ≡ ok l' → IsSettled l'
  unfolding on_tool_requested
  on_tool_requested-IsSettled h = grind (arith, put_tool-IsSettled)

  on_tool_started-IsSettled : on_tool_started payload l ≡ ok l' → IsSettled l'
  unfolding on_tool_started
  on_tool_started-IsSettled h = grind (arith, put_tool-IsSettled)

  on_tool_ended-IsSettled :
      (is_failed : Bool) → on_tool_ended is_failed payload l ≡ ok l' → IsSettled l'
  unfolding on_tool_ended
  on_tool_ended-IsSettled is_failed h = grind (arith, put_tool-IsSettled, say-IsSettled)

  on_step_completed-IsSettled : on_step_completed payload l ≡ ok l' → IsSettled l'
  unfolding on_step_completed
  on_step_completed-IsSettled h = grind (arith, step_done-IsSettled)

apply_event-IsSettled :
    (kind : EventKind) (event : RunEvent) (l l' : Locals)
    → IsSettled l
    → apply_event kind event l ≡ ok l'
    → IsSettled l'
unfolding apply_event
apply_event-IsSettled EventKind.tool_requested event l l' s h =
    on_tool_requested-IsSettled event.payload l l' s h
apply_event-IsSettled EventKind.tool_started event l l' s h =
    on_tool_started-IsSettled event.payload l l' s h
apply_event-IsSettled EventKind.tool_completed event l l' s h =
    on_tool_ended-IsSettled event.payload l l' s false h
apply_event-IsSettled EventKind.tool_failed event l l' s h =
    on_tool_ended-IsSettled event.payload l l' s true h
apply_event-IsSettled EventKind.step_completed event l l' s h =
    on_step_completed-IsSettled event.payload l l' s h
apply_event-IsSettled _ event l l' s h = grind (arith, IsSettled-of)

-- In every projection the tools of a completed step have ended, in success or in failure.
pub project-IsSettled :
    (run_id call_id : String) (events : List RunEvent) (tool : ToolProjection) {p : RunProjection}
    → project run_id events ≡ ok p
    → lookup call_id p.tools ≡ some tool
    → is_completed tool.turn_number tool.step_number p.completed_steps ≡ true
    → is_ended tool.state ≡ true
project-IsSettled run_id call_id events tool {p} h found done =
    let (l, end, e) = project-from run_id events h in
    let settled =
      project_events-keeps IsSettled run_id
        (λ event m m' s a.
          apply_event-IsSettled (event_kind event.event_type) event (counted m) m'
            (IsSettled-of m (counted m) s refl refl) a.applied)
        events initial l (record { at = tt }) end in
    All-lookup (Settled l.completed_steps) call_id tool l.tools settled.at
      (subst (λ (q : RunProjection). lookup call_id q.tools ≡ some tool) e found)
      (subst
        (λ (q : RunProjection).
          is_completed tool.turn_number tool.step_number q.completed_steps ≡ true)
        e done)
