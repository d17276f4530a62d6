-- ===== src/Json/Equality.antt =====
-- Equality of JSON values, as Python compares texts, lists, dicts with their keys in one order, and
-- numbers of one type.
use incident_guard.Prelude.{Bool, true, false, not, ◌&&◌, str_eq, ◌==◌}
use incident_guard.Json.{
  Value, Items, Fields, ℤ, pos, negsuc, dyadic, null, bool, int, float, str, arr, obj, nil, cons,
  field, end,
}

unfoldable pub same_int : ℤ → ℤ → Bool
same_int (pos m) (pos n) = m == n
same_int (negsuc m) (negsuc n) = m == n
same_int _ _ = false

unfoldable mutual
  pub same_value : Value → Value → Bool
  same_value (str s) (str t) = str_eq s t
  same_value null null = true
  same_value (bool true) (bool b) = b
  same_value (bool false) (bool b) = not b
  same_value (int x) (int y) = same_int x y
  same_value (float (dyadic m k)) (float (dyadic n j)) = same_int m n && same_int k j
  same_value (arr xs) (arr ys) = same_items xs ys
  same_value (obj xs) (obj ys) = same_fields xs ys
  same_value _ _ = false

  pub same_items : Items → Items → Bool
  same_items nil nil = true
  same_items (cons x xs) (cons y ys) = same_value x y && same_items xs ys
  same_items _ _ = false

  pub same_fields : Fields → Fields → Bool
  same_fields end end = true
  same_fields (field j x xs) (field k y ys) = str_eq j k && same_value x y && same_fields xs ys
  same_fields _ _ = false
