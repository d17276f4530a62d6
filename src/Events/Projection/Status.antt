-- ===== src/Events/Projection/Status.antt =====
-- The status that `project` of incident_guard/events/projection.py derives, as a state machine.
use incident_guard.Prelude.{
  String, ◌≡◌, refl, ◌⊎◌, Bool, true, false, Option, none, some, List, [], ◌∷◌, ◌++◌, ok, arith,
}
use incident_guard.Agents.RunModels.{
  RunStatus, waiting_approval, cancelling, failed_uncertain, is_terminal, is_failure,
  allowed_transition,
}
use incident_guard.Agents.RunModels.Transitions.{ReasonFits}
use incident_guard.Events.Store.{RunEvent}
use incident_guard.Events.Kinds.{EventKind, event_kind}
use incident_guard.Events.Locals.{Locals, initial}
use incident_guard.Events.Projected.{RunProjection}
use incident_guard.Events.Payload.{text-has_text}
use incident_guard.Events.Projection.{apply_event, project_events, project}
use incident_guard.Events.Projection.Induction.{
  counted, Accepts, project_events-keeps, project_events-append, project_events-cons, project-from,
}

-- The moves that the projector accepts beyond the table of `AgentRun`.
abbrev pub extra_transition : RunStatus → RunStatus → Bool
extra_transition cancelling RunStatus.completed = true
extra_transition cancelling RunStatus.failed = true
extra_transition waiting_approval RunStatus.completed = true
extra_transition waiting_approval failed_uncertain = true
extra_transition _ _ = false

apply_event-moves :
    (kind : EventKind) (event : RunEvent) (l l' : Locals)
    → apply_event kind event l ≡ ok l'
    → (l'.status ≡ l.status)
      ⊎ (allowed_transition l.status l'.status ≡ true)
      ⊎ (extra_transition l.status l'.status ≡ true)
unfolding apply_event
apply_event-moves EventKind.run_started event l l' h = ground arith
apply_event-moves _ event l l' h = ground arith

-- An accepted event keeps the status, or moves it along the table of `AgentRun`, or along one of four
-- moves that the table does not have.
pub project_event_moves :
    (run_id : String) (event : RunEvent) (l l' : Locals)
    → Accepts run_id event l l'
    → (l'.status ≡ l.status)
      ⊎ (allowed_transition l.status l'.status ≡ true)
      ⊎ (extra_transition l.status l'.status ≡ true)
project_event_moves run_id event l l' a =
    apply_event-moves (event_kind event.event_type) event (counted l) l' a.applied

terminal-of-failure : (status : RunStatus) → is_terminal status ≡ false → is_failure status ≡ false
terminal-of-failure status h = ground arith

ReasonFits-none :
    (status : RunStatus) (reason : Option String)
    → is_failure status ≡ false
    → ReasonFits status reason
    → reason ≡ none
ReasonFits-none status none h f = refl
ReasonFits-none status (some r) h f = ground arith

apply_event-ReasonFits :
    (kind : EventKind) (event : RunEvent) (l l' : Locals)
    → is_failure l.status ≡ false
    → l.failure_reason ≡ none
    → apply_event kind event l ≡ ok l'
    → ReasonFits l'.status l'.failure_reason
unfolding apply_event
apply_event-ReasonFits EventKind.run_started event l l' f n h = ground arith
apply_event-ReasonFits EventKind.run_failed event l l' f n h =
    grind (arith, text-has_text event.payload "reason")
apply_event-ReasonFits EventKind.run_failed_uncertain event l l' f n h =
    grind (arith, text-has_text event.payload "reason")
apply_event-ReasonFits _ event l l' f n h = ground arith

-- The status and the reason of a projection are ones that the constructor of `AgentRun` accepts: a
-- failed run has a reason that is not blank, and no other run has a reason.
pub project-ReasonFits :
    (run_id : String) (events : List RunEvent) {p : RunProjection}
    → project run_id events ≡ ok p
    → ReasonFits p.status p.failure_reason
project-ReasonFits run_id events h =
    let (l, done, e) = project-from run_id events h in
    rw e (
      project_events-keeps (λ (m : Locals). ReasonFits m.status m.failure_reason) run_id
        (λ event m m' fits a.
          let calm = terminal-of-failure m.status a.live in
          apply_event-ReasonFits (event_kind event.event_type) event (counted m) m' calm
            (ReasonFits-none m.status m.failure_reason calm fits) a.applied)
        events initial l refl done)

-- The events that end a run.
abbrev pub ends : EventKind → Bool
ends EventKind.run_completed = true
ends EventKind.run_cancelled = true
ends EventKind.run_failed = true
ends EventKind.run_failed_uncertain = true
ends _ = false

apply_event-ends :
    (kind : EventKind) (event : RunEvent) (l l' : Locals)
    → ends kind ≡ true
    → apply_event kind event l ≡ ok l'
    → is_terminal l'.status ≡ true
unfolding apply_event
apply_event-ends EventKind.run_started event l l' t h = cc
apply_event-ends _ event l l' t h = ground arith

nothing_after_end :
    (run_id : String) (events : List RunEvent) (l l' : Locals)
    → is_terminal l.status ≡ true
    → project_events run_id events l ≡ ok l'
    → events ≡ []
nothing_after_end run_id [] l l' t h = refl
nothing_after_end run_id (event ∷ events) l l' t h =
    let (mid, first, rest) = project_events-cons run_id event events l l' h in cc (first.live)

-- In a history that `project` accepts, an event that ends the run is the last.
pub project_end_is_last :
    (run_id : String) (before : List RunEvent) (event : RunEvent) (after : List RunEvent)
    {p : RunProjection}
    → ends (event_kind event.event_type) ≡ true
    → project run_id (before ++ event ∷ after) ≡ ok p
    → after ≡ []
project_end_is_last run_id before event after t h =
    let (l, done, e) = project-from run_id (before ++ event ∷ after) h in
    let (mid, front, back) = project_events-append run_id before (event ∷ after) initial l done in
    let (mid', first, rest) = project_events-cons run_id event after mid l back in
    nothing_after_end run_id after mid' l
      (apply_event-ends (event_kind event.event_type) event (counted mid) mid' t first.applied) rest
