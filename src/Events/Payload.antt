-- ===== src/Events/Payload.antt =====
-- The readers of payload fields in incident_guard/events/projection.py.
use incident_guard.Prelude.{
  ◌≡◌, arith, true, false, ℕ, suc, String, Bool, not, ◌&&◌, Option, none, some, Result, ok, err,
  projection_error, type_error, if◌then◌else◌, has_text,
}
use incident_guard.Json.{
  pos, Value, null, int, str, arr, obj, Items, nil, cons, Fields, end, field, get,
}

abbrev pub text_of : Bool → Option Value → Result String
text_of allow_empty (some (str value)) =
    if not allow_empty && not (has_text value)
    then err (projection_error "{key} must be a valid string")
    else ok value
text_of allow_empty _ = err (projection_error "{key} must be a valid string")

text_of-has_text :
    (v : Option Value) (value : String) → text_of false v ≡ ok value → has_text value ≡ true
text_of-has_text none value h = cc
text_of-has_text (some (str s)) value h = ground arith
text_of-has_text (some null) value h = cc
text_of-has_text (some _) value h = cc

-- `_text(payload, key, allow_empty=...)`
unfoldable pub text : Fields → String → Bool → Result String
text payload key allow_empty = text_of allow_empty (get payload key)

abbrev pub positive_int_of : Option Value → Result ℕ
positive_int_of (some (int (pos (suc n)))) = ok (suc n)
positive_int_of _ = err (projection_error "{key} must be a positive int")

unfoldable pub positive_int : Fields → String → Result ℕ
positive_int payload key = positive_int_of (get payload key)

abbrev pub non_negative_int_of : Option Value → Result ℕ
non_negative_int_of (some (int (pos n))) = ok n
non_negative_int_of _ = err (projection_error "{key} must be a non-negative int")

unfoldable pub non_negative_int : Fields → String → Result ℕ
non_negative_int payload key = non_negative_int_of (get payload key)

abbrev pub optional_int_of : Option Value → Result (Option ℕ)
optional_int_of none = ok none
optional_int_of (some null) = ok none
optional_int_of (some (int (pos n))) = ok (some n)
optional_int_of _ = err (projection_error "{key} must be a non-negative int or null")

unfoldable pub optional_non_negative_int : Fields → String → Result (Option ℕ)
optional_non_negative_int payload key = optional_int_of (get payload key)

characters : String → Items
characters String.[] = nil
characters (String.◌∷◌ c s) = cons (str (String.◌∷◌ c String.[])) (characters s)

keys : Fields → Items
keys end = nil
keys (field k v fs) = cons (str k) (keys fs)

-- `tuple(payload.get(key, ()))`: a text is taken apart into its characters, an object into its keys
unfoldable pub tuple_of : Option Value → Result Items
unfolding characters keys
tuple_of none = ok nil
tuple_of (some (arr items)) = ok items
tuple_of (some (str s)) = ok (characters s)
tuple_of (some (obj fs)) = ok (keys fs)
tuple_of (some _) = err (type_error "object is not iterable")

-- `isinstance(value, dict)`
unfoldable pub object_of : Option Value → Result Fields
object_of (some (obj fs)) = ok fs
object_of _ = err (projection_error "tool arguments must be an object")

-- A text that must not be blank is not.
pub text-has_text :
    (payload : Fields) (key value : String)
    → text payload key false ≡ ok value
    → has_text value ≡ true
unfolding text
text-has_text payload key value h = text_of-has_text (get payload key) value h
