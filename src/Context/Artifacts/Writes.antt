-- ===== src/Context/Artifacts/Writes.antt =====
-- The file steps of `store` of incident_guard/context/artifact_store.py, all of them or the first ones.
use incident_guard.Prelude.{
  ℕ, zero, suc, List, [], ◌∷◌, length, String, ◌≡◌, ◌⊎◌, inl, inr, refl, ◌∙◌, false, Option, some,
  Dict, lookup, insert, lookup-insert, lookup-without, subst, str_eq, str_eq_refl, str_eq_iff,
  if◌then◌else◌, Bool-cases,
}
use incident_guard.Context.Artifacts.{
  FileStep, renames, take_step, take_steps, take_first, write_steps,
}

module _ {B : Type 0} where
  take_first-nil : (n : ℕ) (files : Dict B) → take_first n [] files ≡ files
  unfolding take_first
  take_first-nil zero files = refl
  take_first-nil (suc n) files = refl

  pub take_steps-first :
      (steps : List (FileStep B)) (files : Dict B)
      → take_steps steps files ≡ take_first (length steps) steps files
  unfolding take_steps take_first
  take_steps-first [] files = refl
  take_steps-first (step ∷ steps) files = take_steps-first steps (take_step step files)

  -- The file of the target after the rename.
  renamed-lookup :
      (temporary target path : String) (encoded : B) (files : Dict B)
      → str_eq temporary path ≡ false
      → lookup path (take_step (renames temporary target) (insert temporary encoded files))
        ≡ (if str_eq target path then some encoded else lookup path files)
  unfolding take_step
  renamed-lookup temporary target path encoded files other =
      rw
        (
          lookup-insert temporary temporary encoded files,
          str_eq_refl temporary,
          lookup-without temporary path (insert target encoded (insert temporary encoded files))
              other,
          lookup-insert target path encoded (insert temporary encoded files),
          lookup-insert temporary path encoded files,
          other,
        )
        refl

  -- The steps of a write, from any files in which the path reads as before.
  pub take_first-lookup :
      (n : ℕ) (partial : List B) (temporary target path : String) (encoded : B) (files : Dict B)
      → str_eq temporary path ≡ false
      → (lookup path (take_first n (write_steps partial temporary target encoded) files)
          ≡ lookup path files)
        ⊎ ((target ≡ path)
            × (lookup path (take_first n (write_steps partial temporary target encoded) files)
                ≡ some encoded))
  unfolding take_first take_step write_steps
  take_first-lookup zero partial temporary target path encoded files other = inl refl
  take_first-lookup (suc n) (bytes ∷ more) temporary target path encoded files other =
      subst
        (λ (found : Option B).
          (lookup path (
              take_first n (write_steps more temporary target encoded)
                (insert temporary bytes files))
            ≡ found)
          ⊎ ((target ≡ path)
              × (lookup path (
                    take_first n (write_steps more temporary target encoded)
                      (insert temporary bytes files))
                  ≡ some encoded)))
        (lookup-insert temporary path bytes files ∙ rw other refl)
        (take_first-lookup n more temporary target path encoded (insert temporary bytes files)
          other)
  take_first-lookup (suc zero) [] temporary target path encoded files other =
      inl (lookup-insert temporary path encoded files ∙ rw other refl)
  take_first-lookup (suc (suc n)) [] temporary target path encoded files other =
      rw
        (
          take_first-nil n (take_step (renames temporary target) (insert temporary encoded files)),
          renamed-lookup temporary target path encoded files other,
        )
        (elim (Bool-cases (str_eq target path)) [
          | inr differ ↦ inl (rw differ refl)
          | inl same ↦ inr ((str_eq_iff target path).0 same, rw same refl)
        ])

  pub take_steps-holds :
      (partial : List B) (temporary path : String) (encoded : B) (files : Dict B)
      → str_eq temporary path ≡ false
      → lookup path (take_steps (write_steps partial temporary path encoded) files) ≡ some encoded
  unfolding take_steps take_step write_steps
  take_steps-holds [] temporary path encoded files other =
      renamed-lookup temporary path path encoded files other ∙ rw (str_eq_refl path) refl
  take_steps-holds (bytes ∷ more) temporary path encoded files other =
      take_steps-holds more temporary path encoded (insert temporary bytes files) other
