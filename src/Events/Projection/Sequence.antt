-- ===== src/Events/Projection/Sequence.antt =====
-- The order that `project` of incident_guard/events/projection.py asks of a run's events, and that the
-- event store gives them.
use incident_guard.Prelude.{
  suc, ◌+◌, ◌≤◌, String, ◌≡◌, refl, false, true, List, [], ◌∷◌, Result, ok, arith, length, All,
  str_eq_iff, subst, sym, ◌∙◌, has_text, Result-cases, inl, inr, eq→==, ◌>>=◌, ◌>>◌, raise_if,
  projection_error, ltb,
}
use native.Mathlib.Numerals.{add-one}
use incident_guard.Agents.RunModels.{is_terminal}
use incident_guard.Events.Store.{
  RunEvent, Store, replay, fits_integer, current_event_schema_version,
}
use incident_guard.Events.Store.Table.{replay-of, rows_of, SequencedFrom, IsWellFormed}
use incident_guard.Events.Kinds.{EventKind, event_kind}
use incident_guard.Events.Locals.{Locals, initial}
use incident_guard.Events.Projected.{RunProjection}
use incident_guard.Events.Projection.{
  apply_event, project_event, project_events, project, to_projection,
}
use incident_guard.Events.Projection.Induction.{
  counted, project_events-nil, project_events-cons, project-from,
}

apply_event-sequence :
    (kind : EventKind) (event : RunEvent) (l l' : Locals)
    → apply_event kind event l ≡ ok l'
    → l'.expected_sequence ≡ l.expected_sequence
unfolding apply_event
apply_event-sequence EventKind.run_started event l l' h = ground arith
apply_event-sequence _ event l l' h = ground arith

abbrev pub IsOf : String → RunEvent → Type 0
IsOf run_id event = (event.run_id ≡ run_id) × (event.schema_version ≤ current_event_schema_version)

project_events-ordered :
    (run_id : String) (events : List RunEvent) (l l' : Locals)
    → project_events run_id events l ≡ ok l'
    → SequencedFrom l.expected_sequence events
      × All (IsOf run_id) events
      × (l'.expected_sequence ≡ length events + l.expected_sequence)
project_events-ordered run_id [] l l' h =
    rw (project_events-nil run_id l l' h) (tt, tt, omega arith)
project_events-ordered run_id (event ∷ events) l l' h =
    let (mid, first, rest) = project_events-cons run_id event events l l' h in
    let step =
      apply_event-sequence (event_kind event.event_type) event (counted l) mid first.applied in
    let ih = project_events-ordered run_id events mid l' rest in
    (
      (first.next, subst (λ n. SequencedFrom n events) (step ∙ add-one _) ih.0),
      ((first.mine, first.versioned), ih.1),
      omega (arith, ih.2, step),
    )

-- `project` accepts only events of its own run, of a known schema version, numbered 1, 2, 3 and so on
-- with no gap; the projection's last sequence is their number.
pub project_ordered :
    (run_id : String) (events : List RunEvent) {p : RunProjection}
    → project run_id events ≡ ok p
    → SequencedFrom 1 events × All (IsOf run_id) events × (p.last_sequence ≡ length events)
project_ordered run_id events h =
    let (l, done, e) = project-from run_id events h in
    let facts = project_events-ordered run_id events initial l done in
    (facts.0, facts.1, rw e (omega (arith, facts.2)))

abbrev IsMine : String → RunEvent → Type 0
IsMine run_id event = event.run_id ≡ run_id

-- The round with no check of a run or a sequence.
apply_round : RunEvent → Locals → Result Locals
apply_round event l = do
  raise_if (ltb current_event_schema_version event.schema_version)
      (projection_error "unsupported event schema version {event.schema_version}")
  raise_if (is_terminal l.status) (projection_error "terminal run cannot contain later events")
  apply_event (event_kind event.event_type) event (counted l)

project_event-in_order :
    (run_id : String) (event : RunEvent) (l : Locals)
    → event.run_id ≡ run_id
    → event.sequence ≡ l.expected_sequence
    → project_event run_id event l ≡ apply_round event l
unfolding project_event apply_round
project_event-in_order run_id event l m s =
    simp ((str_eq_iff event.run_id run_id).1 m, eq→== event.sequence l.expected_sequence s)

apply_round-sequence :
    (event : RunEvent) (l mid : Locals)
    → apply_round event l ≡ ok mid
    → mid.expected_sequence ≡ suc l.expected_sequence
unfolding apply_round
apply_round-sequence event l mid h =
    ground (arith, apply_event-sequence (event_kind event.event_type) event (counted l) mid)

pub apply_events : List RunEvent → Locals → Result Locals
apply_events [] l = ok l
apply_events (event ∷ events) l = do l' ← apply_round event l; apply_events events l'

project_events-of_sequenced :
    (run_id : String) (events : List RunEvent) (l : Locals)
    → SequencedFrom l.expected_sequence events
    → All (IsMine run_id) events
    → project_events run_id events l ≡ apply_events events l
unfolding project_events apply_events
project_events-of_sequenced run_id [] l s m = refl
project_events-of_sequenced run_id (event ∷ events) l s m =
    rw (project_event-in_order run_id event l m.0 s.0) (elim (Result-cases (apply_round event l)) [
      | inr (e, bad) ↦ rw bad refl
      | inl (mid, good) ↦ rw good (
          project_events-of_sequenced run_id events mid
            (subst (λ n. SequencedFrom n events) (sym (apply_round-sequence event l mid good)) s.1)
            m.1)
    ])

rows_of-IsMine :
    (run_id : String) (rows : List RunEvent) → All (IsMine run_id) (rows_of run_id rows)
rows_of-IsMine run_id [] = tt
rows_of-IsMine run_id (row ∷ rows) =
    ground (arith, rows_of-IsMine run_id rows, str_eq_iff row.run_id run_id)

-- On what a well-formed store replays for a run, `project` never stops at a foreign run or at a gap in
-- the sequence: it is the fold of the rounds that make neither check.
pub project-replay :
    (run_id : String) (store : Store)
    → has_text run_id ≡ true
    → store.closed ≡ false
    → IsWellFormed store.rows
    → (replay run_id 0 store >>= project run_id)
      ≡ (do l ← apply_events (rows_of run_id store.rows) initial; ok (to_projection run_id l))
unfolding project fits_integer
project-replay run_id store named opened w = rw (replay-of run_id 0 store named opened w) (
    rw (
      project_events-of_sequenced run_id (rows_of run_id store.rows) initial (w.numbered run_id)
        (rows_of-IsMine run_id store.rows)))
