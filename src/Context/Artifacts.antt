-- ===== src/Context/Artifacts.antt =====
-- incident_guard/context/artifact_store.py: large tool results in files that are named by their hash.
-- The files are a dict from resolved paths to bytes; of the libraries for text, hashes and paths the
-- store uses what `Library` lists.
pub mod Writes
pub mod RoundTrip
use incident_guard.Prelude.{
  ℕ, zero, suc, String, Bool, true, false, not, ◌&&◌, ◌||◌, Option, none, some, List, [], ◌∷◌, Dict,
  lookup, insert, without, contains, Result, ok, err, Error, value_error, file_not_found_error,
  ◌>>=◌, ◌>>◌, raise_if, has_text, any_of, str_eq, str_append, leb, if◌then◌else◌,
}
use incident_guard.Agents.Runtime.{StoredToolResult}

pub record Library (B : Type 0) : Type 0 where
  -- `content.encode("utf-8")`, `encoded.decode("utf-8")`, `len(encoded)`
  pub encode : String → B
  pub decode : B → Result String
  pub size : B → ℕ
  -- `hashlib.sha256(encoded).hexdigest()`
  pub digest : B → String
  -- of `PurePosixPath(reference)`
  pub is_absolute : String → Bool
  pub parts : String → List String
  -- `base_dir.joinpath(*parts).resolve()`, and whether that is relative to the base
  pub resolve : List String → String
  pub is_contained : String → Bool
  -- `path.stem`
  pub stem : String → String
  -- a number in an f-string
  pub format : ℕ → String

pub record Settings : Type 0 where
  pub threshold_bytes : ℕ
  pub preview_chars : ℕ

-- The checks of `__init__`
unfoldable pub new_settings : Settings → Result Settings
new_settings settings = do
  raise_if (not (leb 1 settings.threshold_bytes))
      (value_error "threshold_bytes must be a positive int")
  raise_if (not (leb 1 settings.preview_chars)) (value_error "preview_chars must be a positive int")
  ok settings

-- `content[:n]`
unfoldable pub preview : ℕ → String → String
preview zero content = ""
preview (suc n) String.[] = ""
preview (suc n) (String.◌∷◌ c content) = String.◌∷◌ c (preview n content)

-- What the store does to a file: it holds these bytes now (none after its creation, all that were
-- flushed later), is renamed over another, or is removed.
pub data FileStep (B : Type 0) : Type 0 where
  puts : String → B → FileStep B
  renames : String → String → FileStep B
  unlinks : String → FileStep B

abbrev pub renamed : {B : Type 0} → String → String → Option B → Dict B → Dict B
renamed source target none files = files
renamed source target (some bytes) files = without source (insert target bytes files)

unfoldable pub take_step : {B : Type 0} → FileStep B → Dict B → Dict B
take_step (puts path bytes) files = insert path bytes files
take_step (renames source target) files = renamed source target (lookup source files) files
take_step (unlinks path) files = without path files

unfoldable pub take_steps : {B : Type 0} → List (FileStep B) → Dict B → Dict B
take_steps [] files = files
take_steps (step ∷ steps) files = take_steps steps (take_step step files)

-- The first steps alone.
unfoldable pub take_first : {B : Type 0} → ℕ → List (FileStep B) → Dict B → Dict B
take_first zero steps files = files
take_first (suc n) [] files = files
take_first (suc n) (step ∷ steps) files = take_first n steps (take_step step files)

-- The calls from `mkstemp` to `os.replace`; the first argument has what the temporary file holds on the
-- way, at its creation and between the flushes.
unfoldable pub write_steps : {B : Type 0} → List B → String → String → B → List (FileStep B)
write_steps [] temporary target encoded = puts temporary encoded ∷ renames temporary target ∷ []
write_steps (bytes ∷ more) temporary target encoded =
    puts temporary bytes ∷ write_steps more temporary target encoded

-- How the calls go, with what the temporary file holds on the way: all are made, or an exception comes
-- after some of them, also after the rename. The name of the temporary file is then removed, unless that
-- fails or the process is gone.
pub data Writing (B : Type 0) : Type 0 where
  completes : List B → Writing B
  breaks : (partial : List B) (made : ℕ) (removed : Bool) → Error → Writing B

abbrev pub reference_of : String → String
reference_of digest = str_append "sha256/" (str_append digest ".txt")

module _ {B : Type 0} (lib : Library B) where
  abbrev pub is_parent : String → Bool
  is_parent part = str_eq part ".."

  -- `_resolve`
  unfoldable pub resolve_reference : String → Result String
  resolve_reference reference = do
    raise_if (not (has_text reference)) (value_error "artifact reference must be non-empty")
    raise_if (lib.is_absolute reference || any_of is_parent (lib.parts reference))
        (value_error "artifact reference must be relative and contained")
    raise_if (not (lib.is_contained (lib.resolve (lib.parts reference))))
        (value_error "artifact reference escapes base directory")
    ok (lib.resolve (lib.parts reference))

  -- The exception's clause, which passes over a file that is not there.
  abbrev pub clean_up : Bool → String → Dict B → Dict B
  clean_up true temporary files = take_step (unlinks temporary) files
  clean_up false temporary files = files

  -- The file is written under a temporary name and renamed.
  unfoldable pub write_file : Writing B → String → String → B → Dict B → Result (Unit {0}) × Dict B
  write_file (completes partial) temporary target encoded files =
      (ok tt, take_steps (write_steps partial temporary target encoded) files)
  write_file (breaks partial made removed e) temporary target encoded files = (
    err e,
    clean_up removed temporary
        (take_first made (write_steps partial temporary target encoded) files),
  )

  unfoldable pub ensure_file :
      Writing B → String → Result String → B → Dict B → Result (Unit {0}) × Dict B
  ensure_file writing temporary (err e) encoded files = (err e, files)
  ensure_file writing temporary (ok target) encoded files =
      if contains target files
      then (ok tt, files)
      else write_file writing temporary target encoded files

  abbrev pub truncated : Settings → String → B → String
  truncated settings content encoded = str_append (preview settings.preview_chars content) (
      str_append "\n\n[tool result truncated; bytes=" (
        str_append (lib.format (lib.size encoded)) (
          str_append "; sha256=" (
            str_append (lib.digest encoded)
              (str_append "; ref=" (str_append (reference_of (lib.digest encoded)) "]"))))))

  abbrev pub externalized :
      Settings → String → B → Result (Unit {0}) × Dict B → Result StoredToolResult × Dict B
  externalized settings content encoded (err e, files) = (err e, files)
  externalized settings content encoded (ok u, files) = (
    ok (record {
      context_content = truncated settings content encoded;
      sha256 = lib.digest encoded;
      byte_size = lib.size encoded;
      reference = some (reference_of (lib.digest encoded));
    }),
    files,
  )

  -- `store`
  unfoldable pub store_result :
      Settings → Writing B → String → String → Dict B → Result StoredToolResult × Dict B
  store_result settings writing temporary content files =
      let encoded = lib.encode content in
      if leb (lib.size encoded) settings.threshold_bytes
      then (
        ok (record {
          context_content = content;
          sha256 = lib.digest encoded;
          byte_size = lib.size encoded;
          reference = none;
        }),
        files,
      )
      else externalized settings content encoded (
          ensure_file writing temporary (resolve_reference (reference_of (lib.digest encoded)))
            encoded files)

  -- `path.read_bytes()`
  abbrev pub read_bytes : Option B → Result B
  read_bytes none = err (file_not_found_error "tool result artifact not found: {reference}")
  read_bytes (some encoded) = ok encoded

  abbrev pub differs : Option String → String → Bool
  differs none digest = false
  differs (some expected) digest = not (str_eq digest expected)

  unfoldable pub load : String → Option String → Dict B → Result String
  load reference expected files = do
    path ← resolve_reference reference
    encoded ← read_bytes (lookup path files)
    raise_if (not (str_eq (lib.digest encoded) (lib.stem path)))
        (value_error "tool result artifact hash does not match its reference")
    raise_if (differs expected (lib.digest encoded))
        (value_error "tool result artifact hash verification failed")
    lib.decode encoded
