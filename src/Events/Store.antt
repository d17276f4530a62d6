-- ===== src/Events/Store.antt =====
-- incident_guard/events/event_store.py: durable events in one append-only SQLite table. A row is the
-- event that it stores, with the JSON text of its payload seen as the value that it encodes; the
-- table's constraints and its transactions are written out as the schema and the method state them.
pub mod Table
pub mod Append
pub mod Commit
use Prim.Native.Char.{code}
use incident_guard.Prelude.{
  ℕ, suc, ◌+◌, ◌^◌, String, Bool, true, false, not, ◌&&◌, ◌||◌, List, [], ◌∷◌, ◌++◌, Result, ok,
  err, Error, value_error, runtime_error, integrity_error, overflow_error, ◌>>=◌, ◌>>◌, raise_if,
  if◌then◌else◌, has_text, any_of, keep_if, str_eq, ltb, leb, ◌==◌,
}
use incident_guard.Json.{Fields, Float}
use incident_guard.Json.Canonical.{canonical_fields}

abbrev pub current_event_schema_version : ℕ
current_event_schema_version = 1

pub record NewRunEvent : Type 0 where
  pub event_type : String
  pub payload : Fields
  pub schema_version : ℕ
  pub event_id : String
  pub occurred_at : Float

pub record RunEvent : Type 0 where
  pub event_id : String
  pub run_id : String
  pub sequence : ℕ
  pub event_type : String
  pub payload : Fields
  pub schema_version : ℕ
  pub occurred_at : Float

abbrev require_non_empty : String → Error → Result (Unit {0})
require_non_empty value e = raise_if (not (has_text value)) e

-- `NewRunEvent.__post_init__`
unfoldable pub new_run_event : NewRunEvent → Result NewRunEvent
new_run_event event = do
  require_non_empty event.event_type (value_error "event_type must be a non-empty string")
  require_non_empty event.event_id (value_error "event_id must be a non-empty string")
  raise_if (not (leb 1 event.schema_version)) (value_error "schema_version must be a positive int")
  ok (record event { payload = canonical_fields event.payload })

-- `RunEvent.__post_init__`
unfoldable pub run_event : RunEvent → Result RunEvent
run_event event = do
  require_non_empty event.event_id (value_error "event_id must be a non-empty string")
  require_non_empty event.run_id (value_error "run_id must be a non-empty string")
  require_non_empty event.event_type (value_error "event_type must be a non-empty string")
  raise_if (not (leb 1 event.sequence)) (value_error "sequence must be a positive int")
  raise_if (not (leb 1 event.schema_version)) (value_error "schema_version must be a positive int")
  ok (record event { payload = canonical_fields event.payload })

pub record Store : Type 0 where
  pub rows : List RunEvent
  pub closed : Bool

-- `length(trim(value)) > 0`: SQLite's `trim` removes spaces only, and its `length` stops at a NUL
unfoldable pub sql_has_text : String → Bool
sql_has_text String.[] = false
sql_has_text (String.◌∷◌ c s) =
    let rest = sql_has_text s in if code c == b' ' then rest else not (code c == 0)

-- An `INTEGER` of SQLite has 64 bits, with the sign: a larger int cannot be bound to a parameter.
unfoldable pub fits_integer : ℕ → Bool
fits_integer n = ltb n (2 ^ 63)

abbrev require_integer : ℕ → Result (Unit {0})
require_integer n =
    raise_if (not (fits_integer n))
      (overflow_error "Python int too large to convert to SQLite INTEGER")

abbrev pub same_key : RunEvent → RunEvent → Bool
same_key row other = str_eq other.run_id row.run_id && other.sequence == row.sequence

abbrev pub same_event_id : RunEvent → RunEvent → Bool
same_event_id row other = str_eq other.event_id row.event_id

-- `INSERT INTO run_events`, under the constraints of the schema
unfoldable pub insert_row : RunEvent → List RunEvent → Result (List RunEvent)
insert_row row rows = do
  require_integer row.sequence
  require_integer row.schema_version
  raise_if (not (leb 1 row.sequence)) (integrity_error "CHECK (sequence > 0)")
  raise_if (not (sql_has_text row.event_type))
      (integrity_error "CHECK (length(trim(event_type)) > 0)")
  raise_if (not (leb 1 row.schema_version)) (integrity_error "CHECK (schema_version > 0)")
  raise_if (any_of (same_event_id row) rows) (integrity_error "UNIQUE (event_id)")
  raise_if (any_of (same_key row) rows) (integrity_error "PRIMARY KEY (run_id, sequence)")
  ok (rows ++ row ∷ [])

-- `SELECT COALESCE(MAX(sequence), 0) FROM run_events WHERE run_id = ?`
unfoldable pub max_sequence : String → List RunEvent → ℕ
max_sequence run_id [] = 0
max_sequence run_id (row ∷ rows) =
    let rest = max_sequence run_id rows in
    if str_eq row.run_id run_id && ltb rest row.sequence then row.sequence else rest

abbrev pub to_row : String → ℕ → NewRunEvent → RunEvent
to_row run_id sequence event = record {
  event_id = event.event_id;
  run_id = run_id;
  sequence = sequence;
  event_type = event.event_type;
  payload = event.payload;
  schema_version = event.schema_version;
  occurred_at = event.occurred_at;
}

-- The loop of `append_batch`: the events stored, and the table as it stands when the loop ends or
-- raises.
unfoldable pub insert_batch :
    String → ℕ → List NewRunEvent → List RunEvent → Result (List RunEvent) × List RunEvent
insert_batch run_id sequence [] rows = (ok [], rows)
insert_batch run_id sequence (event ∷ events) rows =
    let row = to_row run_id sequence event in
    elim (insert_row row rows) [
      | err e ↦ (err e, rows)
      | ok rows' ↦ elim (run_event row) [
        | err e ↦ (err e, rows')
        | ok stored ↦
            let (rest, rows'') = insert_batch run_id (suc sequence) events rows' in
            (do tail ← rest; ok (stored ∷ tail), rows'')
      ]
    ]

-- `COMMIT`, or `ROLLBACK` to the table at `BEGIN IMMEDIATE`
abbrev pub end_transaction {ℓ} :
    {A : Type ℓ} → List RunEvent → Result A × List RunEvent → Result A × List RunEvent
end_transaction before (ok a, rows) = (ok a, rows)
end_transaction before (err e, rows) = (err e, before)

abbrev pub with_rows {ℓ} : {A : Type ℓ} → Store → Result A × List RunEvent → Result A × Store
with_rows store (result, rows) = (result, record store { rows = rows })

unfoldable pub append_batch : String → List NewRunEvent → Store → Result (List RunEvent) × Store
unfolding insert_batch
append_batch run_id [] store =
    if has_text run_id
    then (ok [], store)
    else (err (value_error "run_id must be a non-empty string"), store)
append_batch run_id (event ∷ events) store =
    if not (has_text run_id)
    then (err (value_error "run_id must be a non-empty string"), store)
    else if store.closed
    then (err (runtime_error "event store is closed"), store)
    else with_rows store (
        end_transaction store.rows
          (insert_batch run_id (max_sequence run_id store.rows + 1) (event ∷ events) store.rows))

-- `appended[0]` of a batch of one
abbrev pub first_of_batch : Result (List RunEvent) × Store → Result RunEvent × Store
first_of_batch (ok (stored ∷ rest), store) = (ok stored, store)
first_of_batch (ok [], store) = (err (runtime_error "tuple index out of range"), store)
first_of_batch (err e, store) = (err e, store)

unfoldable pub append : String → NewRunEvent → Store → Result RunEvent × Store
append run_id event store = first_of_batch (append_batch run_id (event ∷ []) store)

abbrev pub insert_by_sequence : RunEvent → List RunEvent → List RunEvent
insert_by_sequence row [] = row ∷ []
insert_by_sequence row (other ∷ rows) =
    if leb row.sequence other.sequence
    then row ∷ other ∷ rows
    else other ∷ insert_by_sequence row rows

-- `ORDER BY sequence ASC`
abbrev pub order_by_sequence : List RunEvent → List RunEvent
order_by_sequence [] = []
order_by_sequence (row ∷ rows) = insert_by_sequence row (order_by_sequence rows)

abbrev pub selected : String → ℕ → RunEvent → Bool
selected run_id after row = str_eq row.run_id run_id && ltb after row.sequence

unfoldable pub rows_to_events : List RunEvent → Result (List RunEvent)
rows_to_events [] = ok []
rows_to_events (row ∷ rows) = do ok ((← run_event row) ∷ (← rows_to_events rows))

unfoldable pub replay : String → ℕ → Store → Result (List RunEvent)
unfolding rows_to_events
replay run_id after store = do
  require_non_empty run_id (value_error "run_id must be a non-empty string")
  raise_if store.closed (runtime_error "event store is closed")
  require_integer after
  rows_to_events (order_by_sequence (keep_if (selected run_id after) store.rows))

-- `SQLiteEventStore(database)` on an empty database
abbrev pub empty_store : Store
empty_store = record { rows = []; closed = false }

unfoldable pub close : Store → Store
close store = record store { closed = true }
