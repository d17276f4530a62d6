-- ===== src/Events/Projection/Induction.antt =====
-- Reasoning about `project` of incident_guard/events/projection.py: one round, and all rounds.
use incident_guard.Prelude.{
  ◌+◌, ◌≤◌, String, ◌≡◌, false, List, [], ◌∷◌, ◌++◌, refl, ok, arith, str_eq_iff, >>=-eq-ok,
}
use incident_guard.Agents.RunModels.{is_terminal}
use incident_guard.Events.Store.{RunEvent, current_event_schema_version}
use incident_guard.Events.Kinds.{event_kind}
use incident_guard.Events.Locals.{Locals, initial}
use incident_guard.Events.Projected.{RunProjection}
use incident_guard.Events.Projection.{
  apply_event, project_event, project_events, project, to_projection,
}

-- The sequence has been counted.
abbrev pub counted : Locals → Locals
counted l = record l { expected_sequence = l.expected_sequence + 1 }

-- What an accepted event has passed.
pub record Accepts (run_id : String) (event : RunEvent) (l l' : Locals) : Type 0 where
  pub mine : event.run_id ≡ run_id
  pub next : event.sequence ≡ l.expected_sequence
  pub versioned : event.schema_version ≤ current_event_schema_version
  pub live : is_terminal l.status ≡ false
  pub applied : apply_event (event_kind event.event_type) event (counted l) ≡ ok l'

pub project_event-Accepts :
    (run_id : String) (event : RunEvent) (l l' : Locals)
    → project_event run_id event l ≡ ok l'
    → Accepts run_id event l l'
unfolding project_event
project_event-Accepts run_id event l l' h = record {
  mine = ground (arith, str_eq_iff event.run_id run_id);
  next = ground arith;
  versioned = ground arith;
  live = ground arith;
  applied = ground arith;
}

pub project_events-nil :
    (run_id : String) (l l' : Locals) → project_events run_id [] l ≡ ok l' → l' ≡ l
unfolding project_events
project_events-nil run_id l l' h = cc

pub project_events-cons :
    (run_id : String) (event : RunEvent) (events : List RunEvent) (l l' : Locals)
    → project_events run_id (event ∷ events) l ≡ ok l'
    → (mid : Locals) × Accepts run_id event l mid × (project_events run_id events mid ≡ ok l')
unfolding project_events
project_events-cons run_id event events l l' h =
    let (mid, first, rest) =
      >>=-eq-ok (project_event run_id event l) (project_events run_id events) h in
    (mid, project_event-Accepts run_id event l mid first, rest)

project_events-step :
    (run_id : String) (event : RunEvent) (events : List RunEvent) (l mid l' : Locals)
    → project_event run_id event l ≡ ok mid
    → project_events run_id events mid ≡ ok l'
    → project_events run_id (event ∷ events) l ≡ ok l'
unfolding project_events
project_events-step run_id event events l mid l' h k = rw h k

pub project_events-append :
    (run_id : String) (xs ys : List RunEvent) (l l' : Locals)
    → project_events run_id (xs ++ ys) l ≡ ok l'
    → (mid : Locals) × (project_events run_id xs l ≡ ok mid)
      × (project_events run_id ys mid ≡ ok l')
unfolding project_events
project_events-append run_id [] ys l l' h = (l, refl, h)
project_events-append run_id (x ∷ xs) ys l l' h =
    let (mid, first, rest) =
      >>=-eq-ok (project_event run_id x l) (project_events run_id (xs ++ ys)) h in
    let (end, front, back) = project_events-append run_id xs ys mid l' rest in
    (end, project_events-step run_id x xs l mid end first front, back)

-- An invariant of the rounds.
module _ {κ} (P : Locals → Type κ) (run_id : String)
    (keep : (event : RunEvent) (l l' : Locals) → P l → Accepts run_id event l l' → P l') where
  pub project_events-keeps :
      (events : List RunEvent) (l l' : Locals) → P l → project_events run_id events l ≡ ok l' → P l'
  project_events-keeps [] l l' p h = rw (project_events-nil run_id l l' h) p
  project_events-keeps (event ∷ events) l l' p h =
      let (mid, first, rest) = project_events-cons run_id event events l l' h in
      project_events-keeps events mid l' (keep event l mid p first) rest

pub project-from :
    (run_id : String) (events : List RunEvent) {p : RunProjection}
    → project run_id events ≡ ok p
    → (l : Locals) × (project_events run_id events initial ≡ ok l) × (p ≡ to_projection run_id l)
unfolding project
project-from run_id events {p} h =
    let (l, first, rest) =
      >>=-eq-ok (project_events run_id events initial) (λ l. ok (to_projection run_id l)) h in
    (l, first, to_eq l rest)
  where
    to_eq : (l : Locals) → ok (to_projection run_id l) ≡ ok p → p ≡ to_projection run_id l
    to_eq l e = cc
