-- ===== src/Events/Projection/Final.antt =====
-- A tool call that has ended stays as it ended, in `project` of incident_guard/events/projection.py.
use incident_guard.Prelude.{
  ◌≡◌, ◌≢◌, refl, String, Bool, true, false, some, List, ok, arith, lookup, str_eq_iff,
  lookup-insert, ◌++◌, subst, sym, ◌∙◌,
}
use incident_guard.Json.{Fields}
use incident_guard.Events.Store.{RunEvent}
use incident_guard.Events.Kinds.{EventKind, event_kind}
use incident_guard.Events.Locals.{Locals, initial, put_tool, say}
use incident_guard.Events.Handlers.{on_tool_requested, on_tool_started, on_tool_ended, is_ended}
use incident_guard.Events.Projected.{RunProjection, ToolProjection}
use incident_guard.Events.Projection.{apply_event, project}
use incident_guard.Events.Projection.Induction.{
  counted, project_events-keeps, project_events-append, project-from,
}

-- The call is there, and has ended so.
record HasEnded (call_id : String) (tool : ToolProjection) (l : Locals) : Type 0 where
  found : lookup call_id l.tools ≡ some tool
  ended : is_ended tool.state ≡ true

module _ (id : String) (done : ToolProjection) where
  put_tool-HasEnded :
      (call_id : String) (tool : ToolProjection) (l : Locals)
      → HasEnded id done l
      → lookup call_id l.tools ≢ some done
      → HasEnded id done (put_tool call_id tool l)
  unfolding put_tool
  put_tool-HasEnded call_id tool l h other = record {
    found = rw lookup-insert (ground (arith, h.found, other, str_eq_iff call_id id));
    ended = h.ended;
  }

  HasEnded-of : (l l' : Locals) → HasEnded id done l → l'.tools ≡ l.tools → HasEnded id done l'
  HasEnded-of l l' h t = record { found = rw t h.found; ended = h.ended }

  say-HasEnded : (m : _) (l : Locals) → HasEnded id done l → HasEnded id done (say m l)
  unfolding say
  say-HasEnded m l h = record { found = h.found; ended = h.ended }

  module _ (payload : Fields) (l l' : Locals) (h : HasEnded id done l) where
    on_tool_requested-HasEnded : on_tool_requested payload l ≡ ok l' → HasEnded id done l'
    unfolding on_tool_requested
    on_tool_requested-HasEnded e = grind (arith, put_tool-HasEnded, h.found)

    on_tool_started-HasEnded : on_tool_started payload l ≡ ok l' → HasEnded id done l'
    unfolding on_tool_started
    on_tool_started-HasEnded e = grind (arith, put_tool-HasEnded, h.ended)

    on_tool_ended-HasEnded :
        (is_failed : Bool) → on_tool_ended is_failed payload l ≡ ok l' → HasEnded id done l'
    unfolding on_tool_ended
    on_tool_ended-HasEnded is_failed e = grind (arith, put_tool-HasEnded, say-HasEnded, h.ended)

  apply_event-HasEnded :
      (kind : EventKind) (event : RunEvent) (l l' : Locals)
      → HasEnded id done l
      → apply_event kind event l ≡ ok l'
      → HasEnded id done l'
  unfolding apply_event
  apply_event-HasEnded EventKind.tool_requested event l l' h e =
      on_tool_requested-HasEnded event.payload l l' h e
  apply_event-HasEnded EventKind.tool_started event l l' h e =
      on_tool_started-HasEnded event.payload l l' h e
  apply_event-HasEnded EventKind.tool_completed event l l' h e =
      on_tool_ended-HasEnded event.payload l l' h false e
  apply_event-HasEnded EventKind.tool_failed event l l' h e =
      on_tool_ended-HasEnded event.payload l l' h true e
  apply_event-HasEnded _ event l l' h e = grind (arith, HasEnded-of)

-- A tool call that has ended in a history has ended in the same way, with the same content, in every
-- longer history: no later event starts it again or changes its result.
pub project_keeps_ended :
    (run_id call_id : String) (before after : List RunEvent) (tool : ToolProjection)
    {p q : RunProjection}
    → project run_id before ≡ ok p
    → project run_id (before ++ after) ≡ ok q
    → lookup call_id p.tools ≡ some tool
    → is_ended tool.state ≡ true
    → lookup call_id q.tools ≡ some tool
project_keeps_ended run_id call_id before after tool h k found ended =
    let (l, first, e) = project-from run_id before h in
    let (l', all, e') = project-from run_id (before ++ after) k in
    let (mid, front, back) = project_events-append run_id before after initial l' all in
    let same = ok-injective l mid (sym first ∙ front) in
    let start : HasEnded call_id tool mid = record {
      found =
          subst (λ (m : Locals). lookup call_id m.tools ≡ some tool) same
            (subst (λ (r : RunProjection). lookup call_id r.tools ≡ some tool) e found);
      ended = ended;
    } in
    let end =
      project_events-keeps (HasEnded call_id tool) run_id
        (λ event m m' s a.
          apply_event-HasEnded call_id tool (event_kind event.event_type) event (counted m) m'
            (HasEnded-of call_id tool m (counted m) s refl) a.applied)
        after mid l' start back in
    subst (λ (r : RunProjection). lookup call_id r.tools ≡ some tool) (sym e') end.found
  where
    ok-injective : (a b : Locals) → ok a ≡ ok b → a ≡ b
    ok-injective a b e = cc
