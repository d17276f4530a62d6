-- ===== src/Events/Store/Append.antt =====
-- `append_batch` of incident_guard/events/event_store.py: what it commits, and that it is atomic.
use incident_guard.Prelude.{
  ℕ, suc, ◌+◌, ◌^◌, length, ◌<◌, String, ◌≡◌, refl, ap, sym, ◌∙◌, true, false, List, [], ◌∷◌, ◌++◌,
  Result, ok, err, arith, any_of, any_of-append_one, ◌>>=◌, All, has_text, str_eq, str_eq_iff,
  append-nil, append_assoc, ◌≤◌, Result-cases, inl, inr,
}
use incident_guard.Json.Canonical.{canonical_fields}
use incident_guard.Events.Store.{
  NewRunEvent, RunEvent, new_run_event, run_event, to_row, same_event_id, insert_row, insert_batch,
  max_sequence, sql_has_text, fits_integer,
}
use incident_guard.Events.Store.Table.{
  UniqueIds, UniqueIds-append, IsEvent, max_sequence-append, same_key-fresh,
}

-- An event as its constructor made it.
abbrev pub IsNewEvent : NewRunEvent → Type 0
IsNewEvent event = new_run_event event ≡ ok event

-- The rows that a batch becomes.
abbrev pub to_rows : String → ℕ → List NewRunEvent → List RunEvent
to_rows run_id n [] = []
to_rows run_id n (event ∷ events) = to_row run_id n event ∷ to_rows run_id (suc n) events

-- What the constructor has checked.
record NewFacts (event : NewRunEvent) : Type 0 where
  typed : has_text event.event_type ≡ true
  identified : has_text event.event_id ≡ true
  versioned : 1 ≤ event.schema_version
  canonical : canonical_fields event.payload ≡ event.payload

NewFacts-of : (event : NewRunEvent) → IsNewEvent event → NewFacts event
unfolding new_run_event
NewFacts-of event new = ground arith

pub to_row-IsEvent :
    (run_id : String) (n : ℕ) (event : NewRunEvent)
    → has_text run_id ≡ true
    → 0 < n
    → IsNewEvent event
    → IsEvent (to_row run_id n event)
unfolding run_event
to_row-IsEvent run_id n event named pos new = ground (arith, NewFacts-of event new)

-- What the table asks of an event beyond its constructor: a type with a character that is neither a
-- space nor behind a NUL, and a version of 63 bits.
abbrev pub IsStorable : NewRunEvent → Type 0
IsStorable event =
    (sql_has_text event.event_type ≡ true) × (fits_integer event.schema_version ≡ true)

fits_integer-of : (n : ℕ) → n < 2 ^ 63 → fits_integer n ≡ true
unfolding fits_integer
fits_integer-of n h = ground arith

-- The checks of an insert pass for a row of a storable new event with a fresh id and the next sequence.
insert_row-of :
    (run_id : String) (n : ℕ) (event : NewRunEvent) (rows : List RunEvent)
    → IsNewEvent event
    → IsStorable event
    → n < 2 ^ 63
    → max_sequence run_id rows < n
    → any_of (same_event_id (to_row run_id n event)) rows ≡ false
    → insert_row (to_row run_id n event) rows ≡ ok (rows ++ to_row run_id n event ∷ [])
unfolding insert_row
insert_row-of run_id n event rows new storable small next fresh = ground (
  arith,
  NewFacts-of event new,
  fits_integer-of n small,
  same_key-fresh (to_row run_id n event) rows,
)

insert_row-from :
    (row : RunEvent) (rows rows' : List RunEvent)
    → insert_row row rows ≡ ok rows'
    → (rows' ≡ rows ++ row ∷ []) × (any_of (same_event_id row) rows ≡ false)
unfolding insert_row
insert_row-from row rows rows' h = ground arith

-- The ids of the events are new to the table, and distinct.
abbrev pub FreshIds : List NewRunEvent → List RunEvent → Type 0
FreshIds [] rows = Unit
FreshIds (event ∷ events) rows =
    (any_of (λ row. str_eq row.event_id event.event_id) rows ≡ false)
    × (any_of (λ other. str_eq other.event_id event.event_id) events ≡ false)
    × FreshIds events rows

FreshIds-append :
    (run_id : String) (n : ℕ) (event : NewRunEvent) (events : List NewRunEvent)
    (rows : List RunEvent)
    → any_of (λ other. str_eq other.event_id event.event_id) events ≡ false
    → FreshIds events rows
    → FreshIds events (rows ++ to_row run_id n event ∷ [])
FreshIds-append run_id n event [] rows h f = tt
FreshIds-append run_id n event (other ∷ events) rows h f = (
  any_of-append_one (λ row. str_eq row.event_id other.event_id) rows (to_row run_id n event) f.0
      (ground (
        arith,
        str_eq_iff other.event_id event.event_id,
        str_eq_iff event.event_id other.event_id,
      )),
  f.1,
  FreshIds-append run_id n event events rows (ground arith) f.2,
)

-- With fresh ids the loop commits every event, in the order of the batch.
pub insert_batch-of :
    (run_id : String) (n : ℕ) (events : List NewRunEvent) (rows : List RunEvent)
    → has_text run_id ≡ true
    → All IsNewEvent events
    → All IsStorable events
    → n + length events ≤ 2 ^ 63
    → FreshIds events rows
    → max_sequence run_id rows < n
    → insert_batch run_id n events rows
      ≡ (ok (to_rows run_id n events), rows ++ to_rows run_id n events)
unfolding insert_batch
insert_batch-of run_id n [] rows named new storable small fresh next = rw append-nil
insert_batch-of run_id n (event ∷ events) rows named new storable small fresh next =
    let row = to_row run_id n event in
    rw (
      insert_row-of run_id n event rows new.0 storable.0 (omega arith) next fresh.0,
      insert_batch,
      to_row-IsEvent run_id n event named (omega arith) new.0,
      insert_batch-of run_id (suc n) events (rows ++ row ∷ []) named new.1 storable.1 (omega arith)
          (FreshIds-append run_id n event events rows fresh.1 fresh.2)
          (max_sequence-append run_id rows row (suc n) (omega arith) (omega arith)),
      append_assoc,
    )

-- What a batch leaves behind when its loop ends with no error.
abbrev pub Stored :
    String → ℕ → List NewRunEvent → List RunEvent → Result (List RunEvent) × List RunEvent → Type 0
Stored run_id n events rows (ok stored, rows') =
    (stored ≡ to_rows run_id n events) × (rows' ≡ rows ++ to_rows run_id n events) × UniqueIds rows'
Stored run_id n events rows (err e, rows') = Unit

Stored-step :
    (run_id : String) (n : ℕ) (event : NewRunEvent) (events : List NewRunEvent)
    (rows : List RunEvent) (rest : Result (List RunEvent) × List RunEvent)
    → Stored run_id (suc n) events (rows ++ to_row run_id n event ∷ []) rest
    → Stored run_id n
        (event ∷ events)
        rows
        (rest.0 >>= (λ tail. ok (to_row run_id n event ∷ tail)), rest.1)
Stored-step run_id n event events rows (err e, rows') h = tt
Stored-step run_id n event events rows (ok tail, rows') h = (
  ap (λ (t : List RunEvent). to_row run_id n event ∷ t) h.0,
  h.1 ∙ append_assoc rows (to_row run_id n event ∷ []) (to_rows run_id (suc n) events),
  h.2,
)

pub insert_batch-Stored :
    (run_id : String) (n : ℕ) (events : List NewRunEvent) (rows : List RunEvent)
    → has_text run_id ≡ true
    → All IsNewEvent events
    → 0 < n
    → UniqueIds rows
    → Stored run_id n events rows (insert_batch run_id n events rows)
unfolding insert_batch
insert_batch-Stored run_id n [] rows named new pos u = (refl, sym (append-nil rows), u)
insert_batch-Stored run_id n (event ∷ events) rows named new pos u =
    elim (Result-cases (insert_row (to_row run_id n event) rows)) [
      | inr (e, bad) ↦ rw (bad, insert_batch) tt
      | inl (rows', good) ↦
          let facts = insert_row-from (to_row run_id n event) rows rows' good in
          rw (good, insert_batch, to_row-IsEvent run_id n event named pos new.0, facts.0)
            (Stored-step run_id n event events rows
              (insert_batch run_id (suc n) events (rows ++ to_row run_id n event ∷ []))
              (insert_batch-Stored run_id (suc n) events (rows ++ to_row run_id n event ∷ []) named
                new.1 (omega arith) (UniqueIds-append rows (to_row run_id n event) u facts.1)))
    ]
