-- ===== src/Tests/Artifacts.antt =====
-- The artifact store over a small library of its own: bytes are texts, and the hash of a text is the text.
use Prim.Native.Char.{code}
use incident_guard.Prelude.{
  ℕ, zero, suc, String, ◌≡◌, refl, inl, true, false, some, [], ◌∷◌, List, Dict, lookup, insert,
  without, Result, ok, has_text, ◌==◌, if◌then◌else◌, file_not_found_error,
}
use incident_guard.Agents.Runtime.{StoredToolResult}
use incident_guard.Context.Artifacts.{
  take_steps, take_step, write_steps, Library, Settings, completes, breaks, reference_of,
  resolve_reference, write_file, ensure_file, store_result, load, preview,
}
use incident_guard.Context.Artifacts.RoundTrip.{Whole, store_result-Whole, load-store_result}

abbrev size : String → ℕ
size String.[] = 0
size (String.◌∷◌ c s) = suc (size s)

abbrev until_dot : String → String
until_dot String.[] = ""
until_dot (String.◌∷◌ c s) = if code c == b'.' then "" else String.◌∷◌ c (until_dot s)

abbrev after : ℕ → String → String
after zero s = s
after (suc n) String.[] = ""
after (suc n) (String.◌∷◌ c s) = after n s

abbrev joined : List String → String
joined [] = ""
joined (part ∷ parts) = part

abbrev lib : Library String
lib = record {
  encode = λ s. s;
  decode = λ s. ok s;
  size = size;
  digest = λ s. s;
  is_absolute = λ s. false;
  parts = λ s. s ∷ [];
  resolve = joined;
  is_contained = λ path. true;
  stem = λ path. until_dot (after 7 path);
  format = λ n. "9";
}

abbrev settings : Settings
settings = record { threshold_bytes = 4; preview_chars = 2 }

abbrev put : Result StoredToolResult × Dict String
put = store_result lib settings (completes ("" ∷ "rest" ∷ [])) "tmp" "restarted" []

abbrev made : StoredToolResult
made = record {
  context_content =
      "re\n\n[tool result truncated; bytes=9; sha256=restarted; ref=sha256/restarted.txt]";
  sha256 = "restarted";
  byte_size = 9;
  reference = some "sha256/restarted.txt";
}

puts :
    store_result lib settings (completes ("" ∷ "rest" ∷ [])) "tmp" "restarted" []
    ≡ (ok made, ("sha256/restarted.txt", "restarted") ∷ [])
unfolding take_steps take_step write_steps store_result ensure_file resolve_reference write_file
    has_text lookup insert without preview
puts = refl

located : resolve_reference lib "sha256/restarted.txt" ≡ ok "sha256/restarted.txt"
unfolding resolve_reference has_text
located = refl

load-store_result_example :
    load lib "sha256/restarted.txt" (some "restarted") (("sha256/restarted.txt", "restarted") ∷ [])
    ≡ ok "restarted"
unfolding lookup
load-store_result_example =
    load-store_result lib settings (completes ("" ∷ "rest" ∷ [])) "tmp" "restarted"
      "sha256/restarted.txt" "sha256/restarted.txt" [] puts refl located refl (inl refl) refl refl

store_result-Whole_example :
    Whole lib "sha256/restarted.txt"
      (resolve_reference lib (reference_of "restarted"))
      "restarted"
      []
      (store_result lib settings
        (breaks ("" ∷ "rest" ∷ []) 2 true (file_not_found_error "disk"))
        "tmp"
        "restarted"
        []).1
store_result-Whole_example =
    store_result-Whole lib settings (breaks ("" ∷ "rest" ∷ []) 2 true (file_not_found_error "disk"))
      "tmp" "restarted" "sha256/restarted.txt" [] refl
