-- ===== src/Context/Policy/Bounds.antt =====
-- What a budget of incident_guard/context/context_engine.py does to a snapshot.
use incident_guard.Prelude.{ℕ, String, ◌≡◌, true, List, [], ◌∷◌, keep_if, reverse, arith}
use incident_guard.Json.{Fields}
use incident_guard.Context.Snapshot.{TokenEstimator, ContextSnapshot}
use incident_guard.Context.Groups.{MessageGroup}
use incident_guard.Context.Policy.{
  is_mandatory, Selection, consider, consider_all, selection_of, fits, in_groups,
}

module _ (dumps : Fields → String) (e : TokenEstimator) (messages : List Fields)
    (groups : List MessageGroup) (budget : ℕ) where
  -- A round keeps what is selected and stays within the budget.
  record Selects (old new : Selection) : Type 0 where
    within :
        fits dumps e messages groups budget old.selected ≡ true
        → fits dumps e messages groups budget new.selected ≡ true
    kept : (g : MessageGroup) → in_groups old.selected g ≡ true → in_groups new.selected g ≡ true

  Selects-same : (s : Selection) → Selects s s
  Selects-same s = record { within = λ h. h; kept = λ g h. h }

  consider-Selects :
      (g : MessageGroup) (s : Selection) → Selects s (consider dumps e messages groups budget g s)
  unfolding consider
  consider-Selects g s = record { within = λ h. ground arith; kept = λ k h. ground arith }

  consider_all-Selects :
      (gs : List MessageGroup) (s : Selection)
      → Selects s (consider_all dumps e messages groups budget gs s)
  unfolding consider_all
  consider_all-Selects [] s = Selects-same s
  consider_all-Selects (g ∷ gs) s =
      let first = consider-Selects g s in
      let rest = consider_all-Selects gs (consider dumps e messages groups budget g s) in
      record {
        within = λ h. rest.within (first.within h);
        kept = λ k h. rest.kept k (first.kept k h);
      }

-- If the groups with pinned messages fit the budget, then so does the selection that grows from them,
-- so the last check of `apply` does not raise; and each of these groups is selected.
pub selection_of_pinned :
    (dumps : Fields → String) (e : TokenEstimator) (s : ContextSnapshot) (budget : ℕ)
    (groups : List MessageGroup) (g : MessageGroup)
    → fits dumps e s.messages groups budget (keep_if (is_mandatory s) groups) ≡ true
    → in_groups (keep_if (is_mandatory s) groups) g ≡ true
    → (fits dumps e s.messages groups budget (selection_of dumps e s budget groups).selected ≡ true)
      × (in_groups (selection_of dumps e s budget groups).selected g ≡ true)
unfolding selection_of
selection_of_pinned dumps e s budget groups g h m =
    let all = consider_all-Selects dumps e s.messages groups budget (reverse groups) _ in
    (all.within h, all.kept g m)
