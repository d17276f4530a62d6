-- ===== src/Context/Snapshot/Bounds.antt =====
-- Bounds on a snapshot of incident_guard/context/context_engine.py.
use incident_guard.Prelude.{ℕ, ◌≤◌, ◌≡◌, true, false, List, [], ◌∷◌, ok, All, arith}
use incident_guard.Context.Snapshot.{
  ContextSnapshot, is_ordered, last_exceeds, new_context_snapshot,
}

ordered-bounded :
    (last : ℕ) (xs : List ℕ)
    → is_ordered xs ≡ true
    → last_exceeds last xs ≡ false
    → All (λ (x : ℕ). x ≤ last) xs
unfolding is_ordered last_exceeds
ordered-bounded last [] o l = tt
ordered-bounded last (x ∷ []) o l = (ground arith, tt)
ordered-bounded last (x ∷ y ∷ ys) o l =
    let rest = ordered-bounded last (y ∷ ys) (ground arith) l in (ground (arith, rest.0), rest)

new_context_snapshot-checked :
    (s s' : ContextSnapshot)
    → new_context_snapshot s ≡ ok s'
    → (is_ordered s'.source_sequences ≡ true)
      × (last_exceeds s'.last_sequence s'.source_sequences ≡ false)
unfolding new_context_snapshot
new_context_snapshot-checked s s' h = ground arith

-- In a snapshot that the constructor accepts every source sequence, not only the one compared, is at
-- most the last sequence.
pub new_context_snapshot_bounded :
    (s s' : ContextSnapshot)
    → new_context_snapshot s ≡ ok s'
    → All (λ (n : ℕ). n ≤ s'.last_sequence) s'.source_sequences
new_context_snapshot_bounded s s' h =
    let checked = new_context_snapshot-checked s s' h in
    ordered-bounded s'.last_sequence s'.source_sequences checked.0 checked.1
