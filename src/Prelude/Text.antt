-- ===== src/Prelude/Text.antt =====
-- Python text: `str.strip` seen through its one use, the test for a text that is not blank.
use Prim.Native.Char.{Char, code}
use Prim.Native.Nat.{ℕ}
use Prim.Native.String.{String}
use mathlib.Core.Path.{◌≡◌}
use native.Mathlib.Omega.{arith}
use mathlib.Core.Bool.{Bool, true, false, not, ◌&&◌, ◌||◌}
use incident_guard.Prelude.Tests.{leb, ◌==◌}

abbrev between : ℕ → ℕ → ℕ → Bool
between lo hi c = leb lo c && leb c hi

-- The code points that `str.strip` removes.
unfoldable pub is_space : ℕ → Bool
is_space c =
    between 9 13 c
    || between 28 32 c
    || c == 133
    || c == 160
    || c == 5760
    || between 8192 8202 c
    || c == 8232
    || c == 8233
    || c == 8239
    || c == 8287
    || c == 12288

unfoldable pub is_blank : String → Bool
unfolding is_space
is_blank String.[] = true
is_blank (String.◌∷◌ c s) = is_space (code c) && is_blank s

-- `bool(s.strip())`
unfoldable pub has_text : String → Bool
unfolding is_blank
has_text s = not (is_blank s)

-- `bool(s)`
abbrev pub non_empty : String → Bool
non_empty String.[] = false
non_empty (String.◌∷◌ c s) = true

pub is_space-of_space : (c : ℕ) → is_space c ≡ false → (c == b' ') ≡ false
unfolding is_space
is_space-of_space c h = ground arith

-- A text with a printing character at its head is not blank.
pub has_text-printing :
    (c : Char) (s : String) → is_space (code c) ≡ false → has_text (String.◌∷◌ c s) ≡ true
unfolding has_text
has_text-printing c s h = ground arith
