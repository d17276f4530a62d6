-- ===== src/Context/Artifacts/RoundTrip.antt =====
-- What `store` of incident_guard/context/artifact_store.py leaves in the files, and what `load` reads.
use incident_guard.Prelude.{
  length, String, ◌≡◌, ◌⊎◌, inl, inr, refl, sym, ap, ◌∙◌, Bool, true, false, Option, none, some,
  Dict, lookup, lookup-without, Result, ok, err, ok-injective, subst, str_eq, str_eq_refl, leb,
  if◌then◌else◌, Bool-cases,
}
use incident_guard.Agents.Runtime.{StoredToolResult}
use incident_guard.Context.Artifacts.{
  Library, Settings, take_step, take_first, write_steps, clean_up, Writing, completes, breaks,
  reference_of, resolve_reference, write_file, ensure_file, externalized, store_result, load,
}
use incident_guard.Context.Artifacts.Writes.{take_steps-first, take_first-lookup, take_steps-holds}

module _ {B : Type 0} (lib : Library B) where
  -- The file of the target is whole or as it was, and all others are as they were.
  abbrev pub Whole : String → Result String → B → Dict B → Dict B → Type 0
  Whole path target encoded files files' =
      (lookup path files' ≡ lookup path files)
      ⊎ ((target ≡ ok path) × (lookup path files ≡ none) × (lookup path files' ≡ some encoded))

  clean_up-lookup :
      (removed : Bool) (temporary path : String) (files : Dict B)
      → str_eq temporary path ≡ false
      → lookup path (clean_up lib removed temporary files) ≡ lookup path files
  unfolding take_step
  clean_up-lookup true temporary path files other = lookup-without temporary path files other
  clean_up-lookup false temporary path files other = refl

  write_file-Whole :
      (writing : Writing B) (temporary target path : String) (encoded : B) (files : Dict B)
      → str_eq temporary path ≡ false
      → lookup target files ≡ none
      → Whole path
          (ok target)
          encoded
          files
          (write_file lib writing temporary target encoded files).1
  unfolding write_file
  write_file-Whole writing temporary target path encoded files other fresh = by_writing writing
    where
      settled :
          (files' : Dict B)
          → (lookup path files' ≡ lookup path files)
            ⊎ ((target ≡ path) × (lookup path files' ≡ some encoded))
          → Whole path (ok target) encoded files files'
      settled files' (inl same) = inl same
      settled files' (inr (e, full)) = inr (ap ok e, ap (λ t. lookup t files) (sym e) ∙ fresh, full)

      by_writing :
          (w : Writing B)
          → Whole path (ok target) encoded files (write_file lib w temporary target encoded files).1
      by_writing (completes partial) = settled _ (
          rw (take_steps-first (write_steps partial temporary target encoded) files) (
            take_first-lookup (length (write_steps partial temporary target encoded)) partial
              temporary target path encoded files other))
      by_writing (breaks partial made removed e) = settled _ (
          rw
            (clean_up-lookup removed temporary path
              (take_first made (write_steps partial temporary target encoded) files) other)
            (take_first-lookup made partial temporary target path encoded files other))

  ensure_file-Whole :
      (writing : Writing B) (temporary : String) (target : Result String) (path : String)
      (encoded : B) (files : Dict B)
      → str_eq temporary path ≡ false
      → Whole path target encoded files (ensure_file lib writing temporary target encoded files).1
  unfolding ensure_file
  ensure_file-Whole writing temporary (err e) path encoded files other = inl refl
  ensure_file-Whole writing temporary (ok target) path encoded files other =
      by_target (lookup target files) refl
    where
      by_target :
          (found : Option B)
          → lookup target files ≡ found
          → Whole path
              (ok target)
              encoded
              files
              (if elim found [ none ↦ false | some _ ↦ true ]
                then (ok tt, files)
                else write_file lib writing temporary target encoded files).1
      by_target none e = write_file-Whole writing temporary target path encoded files other e
      by_target (some old) e = inl refl

  externalized-files :
      (settings : Settings) (content : String) (encoded : B) (r : Result (Unit {0}) × Dict B)
      → (externalized lib settings content encoded r).1 ≡ r.1
  externalized-files settings content encoded (ok u, files) = refl
  externalized-files settings content encoded (err e, files) = refl

  -- However the writing goes, a store of a result leaves every file, other than the temporary one, as it
  -- was, but that of the reference, if it did not exist, which then is as it was or holds the whole
  -- result.
  pub store_result-Whole :
      (settings : Settings) (writing : Writing B) (temporary content path : String) (files : Dict B)
      → str_eq temporary path ≡ false
      → Whole path
          (resolve_reference lib (reference_of (lib.digest (lib.encode content))))
          (lib.encode content)
          files
          (store_result lib settings writing temporary content files).1
  unfolding store_result
  store_result-Whole settings writing temporary content path files other =
      elim (Bool-cases (leb (lib.size (lib.encode content)) settings.threshold_bytes)) [
        | inl small ↦ rw small (inl refl)
        | inr large ↦
            rw
              (
                large,
                externalized-files settings content (lib.encode content) (
                    ensure_file lib writing temporary
                      (resolve_reference lib (reference_of (lib.digest (lib.encode content))))
                      (lib.encode content) files),
              )
              (ensure_file-Whole writing temporary _ path (lib.encode content) files other)
      ]

  write_file-holds :
      (writing : Writing B) (temporary path : String) (encoded : B) (files files' : Dict B)
      (u : Unit {0})
      → str_eq temporary path ≡ false
      → write_file lib writing temporary path encoded files ≡ (ok u, files')
      → lookup path files' ≡ some encoded
  unfolding write_file
  write_file-holds (completes partial) temporary path encoded files files' u other h =
      rw (← ap (λ (r : Result (Unit {0}) × Dict B). r.1) h)
        (take_steps-holds partial temporary path encoded files other)
  write_file-holds (breaks partial made removed e) temporary path encoded files files' u other h =
      cc

  ensure_file-holds :
      (writing : Writing B) (temporary path : String) (encoded : B) (files files' : Dict B)
      (u : Unit {0})
      → str_eq temporary path ≡ false
      → (lookup path files ≡ none) ⊎ (lookup path files ≡ some encoded)
      → ensure_file lib writing temporary (ok path) encoded files ≡ (ok u, files')
      → lookup path files' ≡ some encoded
  unfolding ensure_file
  ensure_file-holds writing temporary path encoded files files' u other (inl e) h =
      write_file-holds writing temporary path encoded files files' u other (
        subst
          (λ found.
            (if elim found [ none ↦ false | some _ ↦ true ]
              then (ok tt, files)
              else write_file lib writing temporary path encoded files)
            ≡ (ok u, files'))
          e h)
  ensure_file-holds writing temporary path encoded files files' u other (inr e) h =
      sym (
        ap (λ (r : Result (Unit {0}) × Dict B). lookup path r.1)
          (subst
            (λ found.
              (if elim found [ none ↦ false | some _ ↦ true ]
                then (ok tt, files)
                else write_file lib writing temporary path encoded files)
              ≡ (ok u, files'))
            e h))
      ∙ e

  externalized-ok :
      (settings : Settings) (content : String) (encoded : B) (r : Result (Unit {0}) × Dict B)
      {stored : StoredToolResult} {files' : Dict B}
      → externalized lib settings content encoded r ≡ (ok stored, files')
      → (r ≡ (ok tt, files'))
        × (stored.sha256 ≡ lib.digest encoded)
        × (stored.reference ≡ some (reference_of (lib.digest encoded)))
  externalized-ok settings content encoded (ok u, files) h = (
    ap (λ (d : Dict B). (ok tt, d)) (ap (λ (p : Result StoredToolResult × Dict B). p.1) h),
    ap (λ (s : StoredToolResult). s.sha256)
        (sym (ok-injective (ap (λ (p : Result StoredToolResult × Dict B). p.0) h))),
    ap (λ (s : StoredToolResult). s.reference)
        (sym (ok-injective (ap (λ (p : Result StoredToolResult × Dict B). p.0) h))),
  )
  externalized-ok settings content encoded (err e, files) h = cc

  load-of :
      (reference path content : String) (encoded : B) (files : Dict B)
      → resolve_reference lib reference ≡ ok path
      → lookup path files ≡ some encoded
      → lib.stem path ≡ lib.digest encoded
      → load lib reference (some (lib.digest encoded)) files ≡ lib.decode encoded
  unfolding load
  load-of reference path content encoded files located found named =
      rw (located, found, named, str_eq_refl (lib.digest encoded)) refl

  -- Where a store has put a result into a file, at a path that is named by the hash and at which no other
  -- bytes were, a load of the reference with the hash that the store returned gives the result back, if
  -- its encoding can be decoded.
  pub load-store_result :
      (settings : Settings) (writing : Writing B) (temporary content reference path : String)
      (files : Dict B) {stored : StoredToolResult} {files' : Dict B}
      → store_result lib settings writing temporary content files ≡ (ok stored, files')
      → stored.reference ≡ some reference
      → resolve_reference lib reference ≡ ok path
      → lib.stem path ≡ lib.digest (lib.encode content)
      → (lookup path files ≡ none) ⊎ (lookup path files ≡ some (lib.encode content))
      → str_eq temporary path ≡ false
      → lib.decode (lib.encode content) ≡ ok content
      → load lib reference (some stored.sha256) files' ≡ ok content
  unfolding store_result
  load-store_result settings writing temporary content reference path files {stored} {files'} h r
        located named before other decodes =
      by_size (leb (lib.size encoded) settings.threshold_bytes) h
    where
      encoded : B
      encoded = lib.encode content

      inline : StoredToolResult
      inline = record {
        context_content = content;
        sha256 = lib.digest encoded;
        byte_size = lib.size encoded;
        reference = none;
      }

      not_referenced : {s : StoredToolResult} → ok inline ≡ ok s → s.reference ≡ none
      not_referenced e = ap (λ (s : StoredToolResult). s.reference) (sym (ok-injective e))

      impossible :
          {t : String} → none ≡ some t → load lib reference (some stored.sha256) files' ≡ ok content
      impossible e = cc

      the_reference : {a b : String} → some a ≡ some b → a ≡ b
      the_reference e = cc

      by_size :
          (small : Bool)
          → (if small
              then (ok inline, files)
              else externalized lib settings content encoded (
                  ensure_file lib writing temporary
                    (resolve_reference lib (reference_of (lib.digest encoded)))
                    encoded
                    files))
            ≡ (ok stored, files')
          → load lib reference (some stored.sha256) files' ≡ ok content
      by_size true k =
          impossible
            (sym (not_referenced (ap (λ (p : Result StoredToolResult × Dict B). p.0) k)) ∙ r)
      by_size false k =
          let put = externalized-ok settings content encoded _ k in
          let same = the_reference (sym put.2 ∙ r) in
          let held = ensure_file-holds writing temporary path encoded files files' tt other before (
            ap (λ t. ensure_file lib writing temporary t encoded files)
              (sym located ∙ ap (resolve_reference lib) (sym same))
            ∙ put.0) in
          rw (put.1) (load-of reference path content encoded files' located held named ∙ decodes)
