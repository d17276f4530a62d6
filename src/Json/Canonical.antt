-- ===== src/Json/Canonical.antt =====
-- `json.loads(json.dumps(value, sort_keys=True))`: a value of the same content with its keys in order.
use Prim.Native.Char.{code}
use incident_guard.Prelude.{
  Bool-cases, inl, inr, String, ◌≡◌, refl, ap, ap₂, subst, Bool, true, false, Option, none, some,
  if◌then◌else◌, ltb, str_eq, str_eq_iff, arith,
}
use incident_guard.Json.{
  Value, Items, Fields, null, bool, int, float, str, arr, obj, nil, cons, end, field, get,
}

-- Python's order on texts: by code points, from the left.
unfoldable pub text_le : String → String → Bool
text_le String.[] t = true
text_le (String.◌∷◌ c s) String.[] = false
text_le (String.◌∷◌ c s) (String.◌∷◌ d t) =
    if ltb (code c) (code d) then true else if ltb (code d) (code c) then false else text_le s t

unfoldable pub insert_field : String → Value → Fields → Fields
insert_field k v end = field k v end
insert_field k v (field j w fs) =
    if text_le k j then field k v (field j w fs) else field j w (insert_field k v fs)

unfoldable mutual
  pub canonical : Value → Value
  canonical null = null
  canonical (bool b) = bool b
  canonical (int z) = int z
  canonical (float x) = float x
  canonical (str s) = str s
  canonical (arr xs) = arr (canonical_items xs)
  canonical (obj fs) = obj (canonical_fields fs)

  pub canonical_items : Items → Items
  canonical_items nil = nil
  canonical_items (cons x xs) = cons (canonical x) (canonical_items xs)

  pub canonical_fields : Fields → Fields
  canonical_fields end = end
  canonical_fields (field k v fs) = insert_field k (canonical v) (canonical_fields fs)

text_le_total : (s t : String) → text_le s t ≡ false → text_le t s ≡ true
unfolding text_le
text_le_total String.[] t h = cc
text_le_total (String.◌∷◌ c s) String.[] h = refl
text_le_total (String.◌∷◌ c s) (String.◌∷◌ d t) h = ground (arith, text_le_total s t)

-- A first key may stand before the fields.
abbrev Heads : String → Fields → Type 0
Heads k end = Unit
Heads k (field j w fs) = text_le k j ≡ true

-- The keys are in order, and every value is canonical already.
abbrev IsSorted : Fields → Type 0
IsSorted end = Unit
IsSorted (field k v fs) = Heads k fs × (canonical v ≡ v) × IsSorted fs

insert_field-Heads :
    (j k : String) (v : Value) (fs : Fields)
    → text_le j k ≡ true
    → Heads j fs
    → Heads j (insert_field k v fs)
unfolding insert_field
insert_field-Heads j k v end h hs = h
insert_field-Heads j k v (field i w fs) h hs = ground arith

insert_field-IsSorted :
    (k : String) (v : Value) (fs : Fields)
    → canonical v ≡ v
    → IsSorted fs
    → IsSorted (insert_field k v fs)
unfolding insert_field
insert_field-IsSorted k v end c s = (tt, c, tt)
insert_field-IsSorted k v (field j w fs) c s = elim (Bool-cases (text_le k j)) [
  | inl first ↦ rw first (first, c, s)
  | inr later ↦ rw later (
    insert_field-Heads j k v fs (text_le_total k j later) s.0,
    s.1,
    insert_field-IsSorted k v fs c s.2,
  )
]

insert_field-first :
    (k : String) (v : Value) (fs : Fields) → Heads k fs → insert_field k v fs ≡ field k v fs
unfolding insert_field
insert_field-first k v end h = refl
insert_field-first k v (field j w fs) h = rw h

canonical_fields_of_sorted : (fs : Fields) → IsSorted fs → canonical_fields fs ≡ fs
unfolding canonical
canonical_fields_of_sorted end s = refl
canonical_fields_of_sorted (field k v fs) s =
    rw (s.1, canonical_fields_of_sorted fs s.2) (insert_field-first k v fs s.0)

mutual
  unfolding canonical

  value_settles : (v : Value) → canonical (canonical v) ≡ canonical v
  value_settles null = refl
  value_settles (bool b) = refl
  value_settles (int z) = refl
  value_settles (float x) = refl
  value_settles (str s) = refl
  value_settles (arr xs) = ap arr (items_settle xs)
  value_settles (obj fs) =
      ap obj (canonical_fields_of_sorted (canonical_fields fs) (fields-IsSorted fs))

  items_settle : (xs : Items) → canonical_items (canonical_items xs) ≡ canonical_items xs
  items_settle nil = refl
  items_settle (cons x xs) = ap₂ cons (value_settles x) (items_settle xs)

  fields-IsSorted : (fs : Fields) → IsSorted (canonical_fields fs)
  fields-IsSorted end = tt
  fields-IsSorted (field k v fs) =
      insert_field-IsSorted k (canonical v) (canonical_fields fs) (value_settles v)
        (fields-IsSorted fs)

-- A payload that has been through the codec once goes through it unchanged.
pub canonical_fields_idem :
    (fs : Fields) → canonical_fields (canonical_fields fs) ≡ canonical_fields fs
canonical_fields_idem fs = canonical_fields_of_sorted (canonical_fields fs) (fields-IsSorted fs)

text_le_refl : (s : String) → text_le s s ≡ true
unfolding text_le
text_le_refl String.[] = refl
text_le_refl (String.◌∷◌ c s) = ground (arith, text_le_refl s)

text_le_of_eq : (s t : String) → s ≡ t → text_le s t ≡ true
text_le_of_eq s t e = subst (λ u. text_le s u ≡ true) e (text_le_refl s)

get-insert_field :
    (k j : String) (v : Value) (fs : Fields)
    → get (insert_field k v fs) j ≡ (if str_eq k j then some v else get fs j)
unfolding insert_field get
get-insert_field k j v end = refl
get-insert_field k j v (field i w fs) =
    ground (arith, get-insert_field k j v fs, str_eq_iff k j, str_eq_iff i j, text_le_of_eq k i)

abbrev pub canonical_option : Option Value → Option Value
canonical_option none = none
canonical_option (some v) = some (canonical v)

-- What the codec keeps of a payload: under each key, the canonical form of the value that was there.
pub get-canonical_fields :
    (fs : Fields) (j : String) → get (canonical_fields fs) j ≡ canonical_option (get fs j)
unfolding canonical get
get-canonical_fields end j = refl
get-canonical_fields (field k v fs) j =
    ground
      (arith, get-insert_field k j (canonical v) (canonical_fields fs), get-canonical_fields fs j)
