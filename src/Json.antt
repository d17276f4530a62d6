-- ===== src/Json.antt =====
-- JSON values, the payloads of events and the arguments of tools.
pub mod Canonical
pub mod Equality
use incident_guard.Prelude.{
  ℕ, zero, suc, String, Bool, true, false, Option, none, some, if◌then◌else◌, str_eq, non_empty,
}

-- `negsuc n` is -(n + 1).
pub data ℤ : Type 0 where
  pos : ℕ → ℤ
  negsuc : ℕ → ℤ

-- A finite float: `dyadic m k` is m * 2 ^ k.
pub data Float : Type 0 where
  dyadic : ℤ → ℤ → Float

mutual
  -- A dict, in the order of its insertions.
  pub data Fields : Type 0 where
    field : String → Value → Fields → Fields
    end : Fields

  pub data Value : Type 0 where
    str : String → Value
    int : ℤ → Value
    float : Float → Value
    bool : Bool → Value
    null : Value
    obj : Fields → Value
    arr : Items → Value

  -- A list or a tuple.
  pub data Items : Type 0 where
    cons : Value → Items → Items
    nil : Items

-- `payload.get(key)`
unfoldable pub get : Fields → String → Option Value
get end key = none
get (field k v fs) key = if str_eq k key then some v else get fs key

abbrev is_nonzero : ℤ → Bool
is_nonzero (pos zero) = false
is_nonzero (pos (suc n)) = true
is_nonzero (negsuc n) = true

-- `bool(value)`
unfoldable pub is_truthy : Value → Bool
is_truthy null = false
is_truthy (bool b) = b
is_truthy (int z) = is_nonzero z
is_truthy (float (dyadic m k)) = is_nonzero m
is_truthy (str s) = non_empty s
is_truthy (arr nil) = false
is_truthy (arr (cons x xs)) = true
is_truthy (obj end) = false
is_truthy (obj (field k v fs)) = true

-- `len(items)`
unfoldable pub length_items : Items → ℕ
length_items nil = 0
length_items (cons x xs) = suc (length_items xs)
