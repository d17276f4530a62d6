-- ===== src/Events/Store/Table.antt =====
-- The table of incident_guard/events/event_store.py: its invariant, and what a query reads from it.
use incident_guard.Prelude.{
  ℕ, zero, suc, ◌+◌, ◌-◌, ◌<◌, String, ◌≡◌, refl, sym, subst, ◌⊎◌, inl, inr, Bool-cases, drop,
  drop-nil, dec_lt, lt→ltb, leb-of, Bool, true, false, List, [], ◌∷◌, ◌++◌, ok, err, overflow_error,
  arith, length, keep_if, any_of, any_of-append_one, All, str_eq, str_eq_iff, if◌then◌else◌,
  has_text,
}
use incident_guard.Events.Store.{
  RunEvent, Store, run_event, same_event_id, same_key, max_sequence, order_by_sequence, selected,
  rows_to_events, replay, fits_integer,
}

abbrev pub of_run : String → RunEvent → Bool
of_run run_id row = str_eq row.run_id run_id

-- The rows of one run, in the order of insertion.
abbrev pub rows_of : String → List RunEvent → List RunEvent
rows_of run_id = keep_if (of_run run_id)

-- The sequences are `n`, `n + 1` and so on.
abbrev pub SequencedFrom : ℕ → List RunEvent → Type 0
SequencedFrom n [] = Unit
SequencedFrom n (row ∷ rows) = (row.sequence ≡ n) × SequencedFrom (suc n) rows

abbrev pub UniqueIds : List RunEvent → Type 0
UniqueIds [] = Unit
UniqueIds (row ∷ rows) = (any_of (same_event_id row) rows ≡ false) × UniqueIds rows

-- The row reads back as an event, and as itself.
abbrev pub IsEvent : RunEvent → Type 0
IsEvent row = run_event row ≡ ok row

-- Each run's rows are numbered from 1 without a gap, no event id occurs twice, every row is an event.
pub record IsWellFormed (rows : List RunEvent) : Type 0 where
  pub numbered : (run_id : String) → SequencedFrom 1 (rows_of run_id rows)
  pub distinct : UniqueIds rows
  pub events : All IsEvent rows

pub SequencedFrom-append :
    (n : ℕ) (xs ys : List RunEvent)
    → SequencedFrom n xs
    → SequencedFrom (length xs + n) ys
    → SequencedFrom n (xs ++ ys)
SequencedFrom-append n [] ys h k = subst (λ m. SequencedFrom m ys) (omega arith) k
SequencedFrom-append n (x ∷ xs) ys h k =
    (h.0, SequencedFrom-append (suc n) xs ys h.1 (subst (λ m. SequencedFrom m ys) (omega arith) k))

-- Either the run has no row, or the greatest sequence is the last.
abbrev IsMax : ℕ → ℕ → ℕ → Type 0
IsMax n len m = ((len ≡ 0) × (m ≡ 0)) ⊎ ((0 < len) × (m ≡ len + n))

max_sequence-IsMax :
    (run_id : String) (rows : List RunEvent) (n : ℕ)
    → SequencedFrom (suc n) (rows_of run_id rows)
    → IsMax n (length (rows_of run_id rows)) (max_sequence run_id rows)
unfolding max_sequence
max_sequence-IsMax run_id [] n h = inl (refl, refl)
max_sequence-IsMax run_id (row ∷ rows) n h = elim (Bool-cases (of_run run_id row)) [
  | inl mine ↦
      let h' =
        subst
          (λ b.
            SequencedFrom (suc n) (if b then row ∷ rows_of run_id rows else rows_of run_id rows))
          mine h in
      rw mine (ground (arith, h', max_sequence-IsMax run_id rows (suc n) h'.1))
  | inr other ↦
      let h' =
        subst
          (λ b.
            SequencedFrom (suc n) (if b then row ∷ rows_of run_id rows else rows_of run_id rows))
          other h in
      rw other (max_sequence-IsMax run_id rows n h')
]

pub max_sequence-eq-length :
    (run_id : String) (rows : List RunEvent)
    → SequencedFrom 1 (rows_of run_id rows)
    → max_sequence run_id rows ≡ length (rows_of run_id rows)
max_sequence-eq-length run_id rows h = ground (arith, max_sequence-IsMax run_id rows 0 h)

-- No row has a key beyond the greatest sequence.
pub same_key-fresh :
    (row : RunEvent) (rows : List RunEvent)
    → max_sequence row.run_id rows < row.sequence
    → any_of (same_key row) rows ≡ false
unfolding max_sequence
same_key-fresh row [] h = refl
same_key-fresh row (other ∷ rows) h = ground (arith, same_key-fresh row rows)

pub max_sequence-append :
    (run_id : String) (rows : List RunEvent) (row : RunEvent) (n : ℕ)
    → max_sequence run_id rows < n
    → row.sequence < n
    → max_sequence run_id (rows ++ row ∷ []) < n
unfolding max_sequence
max_sequence-append run_id [] row n h k = ground arith
max_sequence-append run_id (other ∷ rows) row n h k =
    ground (arith, max_sequence-append run_id rows row n)

pub UniqueIds-append :
    (rows : List RunEvent) (row : RunEvent)
    → UniqueIds rows
    → any_of (same_event_id row) rows ≡ false
    → UniqueIds (rows ++ row ∷ [])
UniqueIds-append [] row u f = (refl, tt)
UniqueIds-append (x ∷ xs) row u f = (
  any_of-append_one (same_event_id x) xs row u.0
      (ground (arith, str_eq_iff x.event_id row.event_id, str_eq_iff row.event_id x.event_id)),
  UniqueIds-append xs row u.1 (ground arith),
)

below : (m n : ℕ) → m < suc n → (m - n ≡ 0) × (m - suc n ≡ 0)
below m n h = omega arith

above : (m n : ℕ) → ¬ (m < suc n) → m - n ≡ suc (m - suc n)
above m n h = omega arith

-- A query for the sequences beyond `m` skips the first rows of the run.
selected-drop :
    (run_id : String) (m n : ℕ) (rows : List RunEvent)
    → SequencedFrom (suc n) (rows_of run_id rows)
    → keep_if (selected run_id m) rows ≡ drop (m - n) (rows_of run_id rows)
selected-drop run_id m n [] h = sym (drop-nil (m - n))
selected-drop run_id m n (row ∷ rows) h = elim (Bool-cases (of_run run_id row)) [
  | inl mine ↦
      let h' =
        subst
          (λ b.
            SequencedFrom (suc n) (if b then row ∷ rows_of run_id rows else rows_of run_id rows))
          mine h in
      let ih = selected-drop run_id m (suc n) rows h'.1 in
      rw (mine, h'.0)
        (elim (dec_lt m (suc n)) [
          | yes lt ↦ rw ((below m n lt).0) (rw (ih, (below m n lt).1) (rw (lt→ltb m (suc n) lt)))
          | no ge ↦ rw (above m n ge) (rw ih (ground arith))
        ])
  | inr other ↦
      let h' =
        subst
          (λ b.
            SequencedFrom (suc n) (if b then row ∷ rows_of run_id rows else rows_of run_id rows))
          other h in
      rw other (selected-drop run_id m n rows h')
]

-- `ORDER BY` leaves rows alone that are in order already.
order-sequenced :
    (n : ℕ) (rows : List RunEvent) → SequencedFrom n rows → order_by_sequence rows ≡ rows
order-sequenced n [] h = refl
order-sequenced n (row ∷ []) h = refl
order-sequenced n (row ∷ other ∷ rows) h =
    rw (order-sequenced (suc n) (other ∷ rows) h.1)
      (rw (leb-of (row.sequence) (other.sequence) (omega arith)))

drop-SequencedFrom :
    (k n : ℕ) (rows : List RunEvent) → SequencedFrom n rows → SequencedFrom (n + k) (drop k rows)
drop-SequencedFrom k n [] h = rw (drop-nil k) tt
drop-SequencedFrom zero n (row ∷ rows) h = subst (λ m. SequencedFrom m (row ∷ rows)) (omega arith) h
drop-SequencedFrom (suc k) n (row ∷ rows) h =
    subst (λ m. SequencedFrom m (drop k rows)) (omega arith) (drop-SequencedFrom k (suc n) rows h.1)

drop-All : (k : ℕ) (rows : List RunEvent) → All IsEvent rows → All IsEvent (drop k rows)
drop-All k [] h = rw (drop-nil k) tt
drop-All zero (row ∷ rows) h = h
drop-All (suc k) (row ∷ rows) h = drop-All k rows h.1

keep_if-All :
    (p : RunEvent → Bool) (rows : List RunEvent) → All IsEvent rows → All IsEvent (keep_if p rows)
keep_if-All p [] h = tt
keep_if-All p (row ∷ rows) h = ground (arith, keep_if-All p rows h.1)

rows_to_events-of : (rows : List RunEvent) → All IsEvent rows → rows_to_events rows ≡ ok rows
unfolding rows_to_events
rows_to_events-of [] h = refl
rows_to_events-of (row ∷ rows) h = rw (h.0, rows_to_events-of rows h.1)

minus_zero : (n : ℕ) → n - 0 ≡ n
minus_zero n = omega arith

-- A replay from an open store returns the run's rows beyond the given sequence, which are those after
-- the first `after` ones, in the order of their sequences, if the given sequence has 63 bits; else it
-- is an overflow.
pub replay-of :
    (run_id : String) (after : ℕ) (store : Store)
    → has_text run_id ≡ true
    → store.closed ≡ false
    → IsWellFormed store.rows
    → replay run_id after store ≡ (
        if fits_integer after
        then ok (drop after (rows_of run_id store.rows))
        else err (overflow_error "Python int too large to convert to SQLite INTEGER"))
unfolding replay
replay-of run_id after store named opened w =
    let numbered = w.numbered run_id in
    let rows = rows_of run_id store.rows in
    let picked =
      subst (λ k. keep_if (selected run_id after) store.rows ≡ drop k rows) (minus_zero after)
        (selected-drop run_id after 0 store.rows numbered) in
    elim (Bool-cases (fits_integer after)) [
      | inr large ↦ rw (named, opened, large) refl
      | inl small ↦
          rw (named, opened, small, picked)
            (rw
              (order-sequenced (1 + after) (drop after rows)
                (drop-SequencedFrom after 1 rows numbered))
              (rows_to_events-of (drop after rows)
                (drop-All after rows (keep_if-All (of_run run_id) store.rows w.events))))
    ]
