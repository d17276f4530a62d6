-- ===== src/Events/Projection/Steps.antt =====
-- The steps of `project` in incident_guard/events/projection.py: their numbers, and their records.
use incident_guard.Prelude.{
  ℕ, suc, ◌+◌, ◌≤◌, String, ◌≡◌, refl, sym, subst, Bool, true, false, Option, none, some, List, [],
  ◌∷◌, ◌++◌, ok, arith, append-nil, append_assoc, count_if-append, count_if-zero, count_if-pos,
  false≢true, ◌∙◌, All, All-append, any_of, count_if, ◌==◌,
}
use incident_guard.Json.{Fields}
use incident_guard.Events.Store.{RunEvent}
use incident_guard.Events.Kinds.{EventKind, event_kind}
use incident_guard.Events.Locals.{Locals, initial, put_record, put_completed, say}
use incident_guard.Events.Handlers.{
  on_assistant_message, on_step_completed, on_step_started, on_turn_started,
}
use incident_guard.Events.Projected.{
  RunProjection, AssistantRecord, Key, is_completed, is_record_of,
}
use incident_guard.Events.Projection.{apply_event, project}
use incident_guard.Events.Projection.Induction.{counted, project_events-keeps, project-from}

-- `[item for item in assistants if it is of the step]` has `n` items.
abbrev pub records_of : ℕ → ℕ → List AssistantRecord → ℕ
records_of turn step = count_if (is_record_of turn step)

abbrev in_turn : ℕ → Key → Bool
in_turn turn key = key.0 == turn

-- The number of completed steps of a turn.
abbrev pub steps_of : ℕ → List Key → ℕ
steps_of turn = count_if (in_turn turn)

-- Newest last: each step follows the earlier ones of its turn, whose numbers are 1, 2 and so on.
abbrev pub IsNumbered : List Key → List Key → Type 0
IsNumbered done [] = Unit
IsNumbered done (key ∷ keys) =
    (key.1 ≡ suc (steps_of key.0 done)) × IsNumbered (done ++ key ∷ []) keys

-- The open step has the next number.
abbrev OpenIsNext : ℕ → Option ℕ → List Key → Type 0
OpenIsNext turn none done = Unit
OpenIsNext turn (some step) done =
    is_completed turn step done ≡ false → step ≡ suc (steps_of turn done)

pub record StepsFit (l : Locals) : Type 0 where
  pub recorded : All (λ key. records_of key.0 key.1 l.assistants ≡ 1) l.completed_steps
  pub numbered : IsNumbered [] l.completed_steps
  pub next : OpenIsNext l.turn_number l.current_step l.completed_steps
  pub single : (turn step : ℕ) → records_of turn step l.assistants ≤ 1

IsNumbered-append :
    (done keys : List Key) (key : Key)
    → IsNumbered done keys
    → key.1 ≡ suc (steps_of key.0 (done ++ keys))
    → IsNumbered done (keys ++ key ∷ [])
IsNumbered-append done [] key n e =
    (subst (λ (d : List Key). key.1 ≡ suc (steps_of key.0 d)) (append-nil done) e, tt)
IsNumbered-append done (k ∷ keys) key n e = (
  n.0,
  IsNumbered-append (done ++ k ∷ []) keys key n.1 (
      subst (λ (d : List Key). key.1 ≡ suc (steps_of key.0 d))
        (sym (append_assoc done (k ∷ []) keys)) e),
)

abbrev Recorded : List AssistantRecord → Key → Type 0
Recorded records key = records_of key.0 key.1 records ≡ 1

-- A record of another step.
Recorded-append :
    (records : List AssistantRecord) (r : AssistantRecord) (done : List Key)
    → is_completed r.turn_number r.step_number done ≡ false
    → All (Recorded records) done
    → All (Recorded (records ++ r ∷ [])) done
Recorded-append records r [] h a = tt
Recorded-append records r (key ∷ done) h a = (
  ground (arith, a.0, count_if-append {0} (is_record_of key.0 key.1) records (r ∷ [])),
  Recorded-append records r done (ground arith) a.1,
)

speak-StepsFit :
    (l : Locals) (r : AssistantRecord)
    → StepsFit l
    → is_completed r.turn_number r.step_number l.completed_steps ≡ false
    → any_of (is_record_of r.turn_number r.step_number) l.assistants ≡ false
    → StepsFit (put_record r l)
unfolding put_record
speak-StepsFit l r f h none_yet = record {
  recorded = Recorded-append l.assistants r l.completed_steps h f.recorded;
  numbered = f.numbered;
  next = f.next;
  single = λ turn step. ground (
    arith,
    f.single turn step,
    count_if-append {0} (is_record_of turn step) l.assistants (r ∷ []),
    count_if-zero {0} (is_record_of r.turn_number r.step_number) l.assistants none_yet,
  );
}

is_completed-append_self :
    (turn step : ℕ) (done : List Key) → is_completed turn step (done ++ (turn, step) ∷ []) ≡ true
is_completed-append_self turn step [] = ground arith
is_completed-append_self turn step (key ∷ done) =
    ground (arith, is_completed-append_self turn step done)

complete-StepsFit :
    (l : Locals) (step : ℕ)
    → StepsFit l
    → l.current_step ≡ some step
    → is_completed l.turn_number step l.completed_steps ≡ false
    → any_of (is_record_of l.turn_number step) l.assistants ≡ true
    → StepsFit (put_completed (l.turn_number, step) l)
unfolding put_completed
complete-StepsFit l step f c opened spoken = record {
  recorded =
      All-append (Recorded l.assistants) l.completed_steps ((l.turn_number, step) ∷ [])
        (
          omega (
            arith,
            f.single l.turn_number step,
            count_if-pos {0} (is_record_of l.turn_number step) l.assistants spoken,
          ),
          tt,
        )
        f.recorded;
  numbered =
      IsNumbered-append [] l.completed_steps (l.turn_number, step) f.numbered
        (subst (λ (o : Option ℕ). OpenIsNext l.turn_number o l.completed_steps) c f.next opened);
  next = rw c (λ q.
      absurd (false≢true (sym q ∙ is_completed-append_self l.turn_number step l.completed_steps)));
  single = f.single;
}

start-StepsFit :
    (l : Locals) (step : ℕ)
    → StepsFit l
    → step ≡ 1 + steps_of l.turn_number l.completed_steps
    → StepsFit (record l { current_step = some step })
start-StepsFit l step f e = record {
  recorded = f.recorded;
  numbered = f.numbered;
  next = λ c. omega arith;
  single = f.single;
}

say-StepsFit : (m : _) (l : Locals) → StepsFit l → StepsFit (say m l)
unfolding say
say-StepsFit m l f = record {
  recorded = f.recorded;
  numbered = f.numbered;
  next = f.next;
  single = f.single;
}

StepsFit-of :
    (l l' : Locals)
    → StepsFit l
    → l'.assistants ≡ l.assistants
    → l'.completed_steps ≡ l.completed_steps
    → l'.turn_number ≡ l.turn_number
    → l'.current_step ≡ l.current_step
    → StepsFit l'
StepsFit-of l l' f a c t s = record {
  recorded = rw (a, c) f.recorded;
  numbered = rw c f.numbered;
  next = rw (s, t, c) f.next;
  single = rw a f.single;
}

turn-StepsFit :
    (l l' : Locals)
    → StepsFit l
    → l'.assistants ≡ l.assistants
    → l'.completed_steps ≡ l.completed_steps
    → l'.current_step ≡ none
    → StepsFit l'
turn-StepsFit l l' f a c s = record {
  recorded = rw (a, c) f.recorded;
  numbered = rw c f.numbered;
  next = rw s tt;
  single = rw a f.single;
}

module _ (payload : Fields) (l l' : Locals) (f : StepsFit l) where
  on_assistant_message-StepsFit : on_assistant_message payload l ≡ ok l' → StepsFit l'
  unfolding on_assistant_message
  on_assistant_message-StepsFit h = grind (arith, say-StepsFit, speak-StepsFit)

  on_step_completed-StepsFit : on_step_completed payload l ≡ ok l' → StepsFit l'
  unfolding on_step_completed
  on_step_completed-StepsFit h = grind (arith, complete-StepsFit)

  on_step_started-StepsFit : on_step_started payload l ≡ ok l' → StepsFit l'
  unfolding on_step_started
  on_step_started-StepsFit h = grind (arith, start-StepsFit)

  on_turn_started-StepsFit : on_turn_started payload l ≡ ok l' → StepsFit l'
  unfolding on_turn_started
  on_turn_started-StepsFit h = turn-StepsFit l l' f (ground arith) (ground arith) (ground arith)

apply_event-StepsFit :
    (kind : EventKind) (event : RunEvent) (l l' : Locals)
    → StepsFit l
    → apply_event kind event l ≡ ok l'
    → StepsFit l'
unfolding apply_event
apply_event-StepsFit EventKind.assistant_message event l l' f h =
    on_assistant_message-StepsFit event.payload l l' f h
apply_event-StepsFit EventKind.step_completed event l l' f h =
    on_step_completed-StepsFit event.payload l l' f h
apply_event-StepsFit EventKind.step_started event l l' f h =
    on_step_started-StepsFit event.payload l l' f h
apply_event-StepsFit EventKind.turn_started event l l' f h =
    on_turn_started-StepsFit event.payload l l' f h
apply_event-StepsFit _ event l l' f h =
    StepsFit-of l l' f (ground arith) (ground arith) (ground arith) (ground arith)

-- In every projection each completed step has exactly one assistant record, and the completed steps of
-- each turn are numbered 1, 2, 3 and so on, in the order in which they were completed.
pub project-StepsFit :
    (run_id : String) (events : List RunEvent) {p : RunProjection}
    → project run_id events ≡ ok p
    → All (λ (key : Key). records_of key.0 key.1 p.assistant_records ≡ 1) p.completed_steps
      × IsNumbered [] p.completed_steps
project-StepsFit run_id events h =
    let (l, end, e) = project-from run_id events h in
    let start : StepsFit initial = record {
      recorded = tt;
      numbered = tt;
      next = tt;
      single = λ turn step. omega arith;
    } in
    let f =
      project_events-keeps StepsFit run_id
        (λ event m m' f a.
          apply_event-StepsFit (event_kind event.event_type) event (counted m) m'
            (StepsFit-of m (counted m) f refl refl refl refl) a.applied)
        events initial l start end in
    rw e (f.recorded, f.numbered)
