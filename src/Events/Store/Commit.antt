-- ===== src/Events/Store/Commit.antt =====
-- The outcome of `append_batch` of incident_guard/events/event_store.py, and what a replay then reads.
use incident_guard.Prelude.{
  ℕ, suc, ◌+◌, ◌^◌, ◌<◌, String, ◌≡◌, ◌≢◌, refl, ap, sym, ◌∙◌, subst, true, false, List, [], ◌∷◌,
  ◌++◌, Result, ok, err, overflow_error, arith, length, All, All-append, has_text, str_eq,
  str_eq_iff, str_eq_refl, Bool-cases, false≢true, keep_if-append, append-nil, inl, inr, drop,
  if◌then◌else◌,
}
use incident_guard.Events.Store.{
  NewRunEvent, RunEvent, Store, fits_integer, insert_batch, append_batch, replay, max_sequence,
  end_transaction, with_rows,
}
use incident_guard.Events.Store.Table.{
  of_run, rows_of, SequencedFrom, SequencedFrom-append, UniqueIds, IsEvent, IsWellFormed,
  max_sequence-eq-length, replay-of,
}
use incident_guard.Events.Store.Append.{
  IsNewEvent, IsStorable, to_rows, FreshIds, Stored, to_row-IsEvent, insert_batch-of,
  insert_batch-Stored,
}

rows_of-to_rows :
    (run_id : String) (n : ℕ) (events : List NewRunEvent)
    → rows_of run_id (to_rows run_id n events) ≡ to_rows run_id n events
rows_of-to_rows run_id n [] = refl
rows_of-to_rows run_id n (event ∷ events) =
    rw (str_eq_refl run_id, rows_of-to_rows run_id (suc n) events)

rows_of-to_rows_ne :
    (other run_id : String) (n : ℕ) (events : List NewRunEvent)
    → run_id ≢ other
    → rows_of other (to_rows run_id n events) ≡ []
rows_of-to_rows_ne other run_id n [] ne = refl
rows_of-to_rows_ne other run_id n (event ∷ events) ne =
    ground (arith, str_eq_iff run_id other, rows_of-to_rows_ne other run_id (suc n) events ne)

to_rows-SequencedFrom :
    (run_id : String) (n : ℕ) (events : List NewRunEvent)
    → SequencedFrom n (to_rows run_id n events)
to_rows-SequencedFrom run_id n [] = tt
to_rows-SequencedFrom run_id n (event ∷ events) =
    (refl, to_rows-SequencedFrom run_id (suc n) events)

to_rows-IsEvent :
    (run_id : String) (n : ℕ) (events : List NewRunEvent)
    → has_text run_id ≡ true
    → 0 < n
    → All IsNewEvent events
    → All IsEvent (to_rows run_id n events)
to_rows-IsEvent run_id n [] named pos new = tt
to_rows-IsEvent run_id n (event ∷ events) named pos new = (
  to_row-IsEvent run_id n event named pos new.0,
  to_rows-IsEvent run_id (suc n) events named (omega arith) new.1,
)

-- The next sequence of a run.
abbrev pub next_sequence : String → Store → ℕ
next_sequence run_id store = length (rows_of run_id store.rows) + 1

-- The rows with a batch of one run behind them are well formed if the ids stay distinct.
pub IsWellFormed-append :
    (run_id : String) (events : List NewRunEvent) (store : Store)
    → has_text run_id ≡ true
    → All IsNewEvent events
    → IsWellFormed store.rows
    → UniqueIds (store.rows ++ to_rows run_id (next_sequence run_id store) events)
    → IsWellFormed (store.rows ++ to_rows run_id (next_sequence run_id store) events)
IsWellFormed-append run_id events store named new w u = record {
  numbered = λ other. rw (keep_if-append (of_run other) store.rows) (numbered_for other);
  distinct = u;
  events =
      All-append IsEvent store.rows _
        (to_rows-IsEvent run_id (next_sequence run_id store) events named (omega arith) new)
        w.events;
}
  where
    n : ℕ
    n = next_sequence run_id store

    numbered_for :
        (other : String)
        → SequencedFrom 1 (rows_of other store.rows ++ rows_of other (to_rows run_id n events))
    numbered_for other = elim (Bool-cases (str_eq run_id other)) [
      | inl same ↦
          let e = (str_eq_iff run_id other).0 same in
          subst
            (λ (o : String).
              SequencedFrom 1 (rows_of o store.rows ++ rows_of o (to_rows run_id n events)))
            e
            (rw (rows_of-to_rows run_id n events) (
              SequencedFrom-append 1 (rows_of run_id store.rows) (to_rows run_id n events)
                (w.numbered run_id) (to_rows-SequencedFrom run_id n events)))
      | inr differ ↦
          rw
            (
              rows_of-to_rows_ne other run_id n events
                  (λ e. false≢true (sym differ ∙ (str_eq_iff run_id other).1 e)),
              append-nil,
            )
            (w.numbered other)
    ]

max_sequence-next :
    (run_id : String) (store : Store)
    → IsWellFormed store.rows
    → max_sequence run_id store.rows + 1 ≡ next_sequence run_id store
max_sequence-next run_id store w =
    ap (λ (n : ℕ). n + 1) (max_sequence-eq-length run_id store.rows (w.numbered run_id))

-- Once the checks have passed, `append_batch` is the transaction.
append_batch-transaction :
    (run_id : String) (event : NewRunEvent) (events : List NewRunEvent) (store : Store)
    → has_text run_id ≡ true
    → store.closed ≡ false
    → IsWellFormed store.rows
    → append_batch run_id (event ∷ events) store
      ≡ with_rows store (
          end_transaction store.rows
            (insert_batch run_id (next_sequence run_id store) (event ∷ events) store.rows))
unfolding append_batch
append_batch-transaction run_id event events store named opened w =
    simp (named, opened, max_sequence-next run_id store w)

-- A batch of new events with fresh ids, which SQLite can hold (each type has a character that is not a
-- space before any NUL, the versions and the sequences have 63 bits), is committed as a whole: the events get the run's next
-- sequences, in the order of the batch, and their rows stand behind the others.
pub append_batch_commits :
    (run_id : String) (events : List NewRunEvent) (store : Store)
    → has_text run_id ≡ true
    → store.closed ≡ false
    → All IsNewEvent events
    → All IsStorable events
    → length (rows_of run_id store.rows) + length events < 2 ^ 63
    → FreshIds events store.rows
    → IsWellFormed store.rows
    → append_batch run_id events store ≡ (
      ok (to_rows run_id (length (rows_of run_id store.rows) + 1) events),
      record store {
        rows = store.rows ++ to_rows run_id (length (rows_of run_id store.rows) + 1) events;
      },
    )
unfolding append_batch
append_batch_commits run_id [] store named opened new storable small fresh w =
    rw (named, append-nil)
append_batch_commits run_id (event ∷ events) store named opened new storable small fresh w =
    rw (append_batch-transaction run_id event events store named opened w) (
      rw (
        insert_batch-of run_id (next_sequence run_id store) (event ∷ events) store.rows named new
          storable (omega arith) fresh (omega (arith, max_sequence-next run_id store w))))

-- By its result: an error leaves the store as it was; success stores each event of the batch once, with
-- the run's next sequences, behind the rows that were there.
abbrev pub Outcome : String → List NewRunEvent → Store → Result (List RunEvent) × Store → Type 0
Outcome run_id events store (err e, store') = store' ≡ store
Outcome run_id events store (ok stored, store') =
    (stored ≡ to_rows run_id (length (rows_of run_id store.rows) + 1) events)
    × (store' ≡ record store { rows = store.rows ++ stored })
    × IsWellFormed store'.rows

transaction-Outcome :
    (run_id : String) (events : List NewRunEvent) (store : Store)
    (outcome : Result (List RunEvent) × List RunEvent)
    → has_text run_id ≡ true
    → All IsNewEvent events
    → IsWellFormed store.rows
    → Stored run_id (next_sequence run_id store) events store.rows outcome
    → Outcome run_id events store (with_rows store (end_transaction store.rows outcome))
transaction-Outcome run_id events store (err e, rows') named new w h = refl
transaction-Outcome run_id events store (ok stored, rows') named new w h = (
  h.0,
  ap (λ (rows : List RunEvent). record store { rows = rows })
      (h.1 ∙ ap (λ (t : List RunEvent). store.rows ++ t) (sym h.0)),
  rw (h.1) (IsWellFormed-append run_id events store named new w (subst UniqueIds h.1 h.2)),
)

-- `append_batch` is atomic: on an error, from a check or from a constraint of the table at any event of
-- the batch, the store is unchanged; on success the whole batch is stored, and the table stays well
-- formed.
pub append_batch_atomic :
    (run_id : String) (events : List NewRunEvent) (store : Store)
    → All IsNewEvent events
    → IsWellFormed store.rows
    → Outcome run_id events store (append_batch run_id events store)
unfolding append_batch
append_batch_atomic run_id [] store new w = elim (Bool-cases (has_text run_id)) [
  | inr blank ↦ rw blank refl
  | inl named ↦
      rw named (
        refl,
        ap (λ (t : List RunEvent). record store { rows = t }) (sym (append-nil store.rows)),
        w,
      )
]
append_batch_atomic run_id (event ∷ events) store new w = elim (Bool-cases (has_text run_id)) [
  | inr blank ↦ rw blank refl
  | inl named ↦ elim (Bool-cases store.closed) [
    | inl shut ↦ rw (named, shut) refl
    | inr opened ↦ rw (append_batch-transaction run_id event events store named opened w) (
        transaction-Outcome run_id (event ∷ events) store _ named new w (
          insert_batch-Stored run_id (next_sequence run_id store) (event ∷ events) store.rows named
            new (omega arith) w.distinct))
  ]
]

-- After a successful append a replay of any run reads what it read before, and of the run itself the
-- stored events behind that; a start beyond 63 bits is an overflow.
pub replay-append_batch :
    (run_id other : String) (after : ℕ) (events : List NewRunEvent) (store : Store)
    {stored : List RunEvent} {store' : Store}
    → All IsNewEvent events
    → IsWellFormed store.rows
    → store.closed ≡ false
    → has_text run_id ≡ true
    → has_text other ≡ true
    → append_batch run_id events store ≡ (ok stored, store')
    → replay other after store' ≡ (
        if fits_integer after
        then ok
            (drop after (rows_of other store.rows ++ (if str_eq run_id other then stored else [])))
        else err (overflow_error "Python int too large to convert to SQLite INTEGER"))
replay-append_batch run_id other after events store {stored} {store'} new w opened named named' h =
    let outcome =
      subst (Outcome run_id events store) h (append_batch_atomic run_id events store new w) in
    rw
      (replay-of other after store' named' (ap (λ (s : Store). s.closed) outcome.1 ∙ opened)
        outcome.2)
      (ap
        (λ (rows : List RunEvent).
          if fits_integer after
          then ok (drop after rows)
          else err (overflow_error "Python int too large to convert to SQLite INTEGER"))
        (ap (λ (s : Store). rows_of other s.rows) outcome.1
          ∙ rw (keep_if-append (of_run other) store.rows stored)
              (ap (λ (t : List RunEvent). rows_of other store.rows ++ t) (mine outcome.0))))
  where
    mine :
        stored ≡ to_rows run_id (length (rows_of run_id store.rows) + 1) events
        → rows_of other stored ≡ (if str_eq run_id other then stored else [])
    mine e = elim (Bool-cases (str_eq run_id other)) [
      | inl same ↦ rw same (
          rw e (
            rw (← (str_eq_iff run_id other).0 same)
              (rows_of-to_rows run_id (length (rows_of run_id store.rows) + 1) events)))
      | inr differ ↦ rw differ (
          rw e (
            rows_of-to_rows_ne other run_id _ events
              (λ q. false≢true (sym differ ∙ (str_eq_iff run_id other).1 q))))
    ]
