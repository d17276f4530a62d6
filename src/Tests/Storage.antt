-- ===== src/Tests/Storage.antt =====
-- A store with two runs, and a batch for one of them.
use incident_guard.Prelude.{
  String, ◌≡◌, refl, true, false, List, [], ◌∷◌, ok, ◌++◌, ◌>>=◌, has_text, All, arith,
}
use incident_guard.Json.{end, pos, dyadic}
use incident_guard.Json.Canonical.{canonical_fields}
use incident_guard.Events.Store.{
  NewRunEvent, Store, append_batch, replay, new_run_event, run_event, insert_row, sql_has_text,
  fits_integer, max_sequence,
}
use incident_guard.Events.Store.Table.{rows_of, IsWellFormed, replay-of}
use incident_guard.Events.Store.Append.{to_rows, IsNewEvent, IsStorable}
use incident_guard.Events.Store.Commit.{
  Outcome, append_batch_commits, append_batch_atomic, replay-append_batch,
}
use incident_guard.Events.Locals.{initial}
use incident_guard.Events.Projection.{project, to_projection}
use incident_guard.Events.Projection.Sequence.{apply_events, project-replay}
use incident_guard.Tests.Samples.{event}

abbrev fresh : String → String → NewRunEvent
fresh id type = record {
  event_type = type;
  payload = end;
  schema_version = 1;
  event_id = id;
  occurred_at = dyadic (pos 0) (pos 0);
}

abbrev store : Store
store = record { rows = event 1 "e1" "run.started" end ∷ []; closed = false }

abbrev batch : List NewRunEvent
batch = fresh "n1" "run.cancelling" ∷ fresh "n2" "run.cancelled" ∷ []

store-IsWellFormed : IsWellFormed store.rows
unfolding run_event canonical_fields has_text
store-IsWellFormed = record {
  numbered = λ run_id. ground arith;
  distinct = (refl, tt);
  events = (refl, tt);
}

batch-IsNew : All IsNewEvent batch
unfolding new_run_event canonical_fields has_text
batch-IsNew = (refl, (refl, tt))

append_batch_commits_example :
    append_batch "run-1" batch store
    ≡ (ok (to_rows "run-1" 2 batch), record store { rows = store.rows ++ to_rows "run-1" 2 batch })
append_batch_commits_example =
    append_batch_commits "run-1" batch store named refl batch-IsNew storable (omega arith)
      (refl, refl, (refl, refl, tt)) store-IsWellFormed
  where
    named : has_text "run-1" ≡ true
    named = unfold has_text in refl

    storable : All IsStorable batch
    storable = unfold sql_has_text in unfold fits_integer in ((refl, refl), ((refl, refl), tt))

append_batch_atomic_example : Outcome "run-1" batch store (append_batch "run-1" batch store)
append_batch_atomic_example = append_batch_atomic "run-1" batch store batch-IsNew store-IsWellFormed

replay-append_batch_example :
    replay "run-2" 0 (record store { rows = store.rows ++ to_rows "run-2" 1 batch })
    ≡ ok (to_rows "run-2" 1 batch)
unfolding append_batch max_sequence insert_row sql_has_text fits_integer run_event canonical_fields
    has_text
replay-append_batch_example =
    replay-append_batch "run-2" "run-2" 0 batch store {stored = to_rows "run-2" 1 batch}
      {store' = record store { rows = store.rows ++ to_rows "run-2" 1 batch }} batch-IsNew
      store-IsWellFormed refl refl refl refl

replay-of_example : replay "run-1" 0 store ≡ ok (event 1 "e1" "run.started" end ∷ [])
unfolding has_text fits_integer
replay-of_example = replay-of "run-1" 0 store refl refl store-IsWellFormed

project-replay_example :
    (replay "run-1" 0 store >>= project "run-1")
    ≡ (do l ← apply_events (rows_of "run-1" store.rows) initial; ok (to_projection "run-1" l))
unfolding has_text
project-replay_example = project-replay "run-1" store refl refl store-IsWellFormed
