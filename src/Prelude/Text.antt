-- ===== src/Prelude/Text.antt =====
-- String literals of the source as lists of bytes, and what the C library does with text that a
-- zero byte ends.
use Prim.Native.Char.{code}
use Prim.Native.String.{String}
use Prim.Native.Nat.{ℕ}
use mathlib.Core.Path.{◌≡◌, refl}
use mathlib.Core.Logic.{◌≢◌}
use mathlib.Core.Bool.{Bool, true, false, ◌&&◌}
use mathlib.Core.Option.{Option, none, some}
use mathlib.Core.List.{List, [], ◌∷◌, ◌++◌}
use native.Mathlib.Omega.{arith}
use foodie_note.Prelude.Lists.{All}
use foodie_note.Prelude.Results.{Result, ok, fault, out_of_bounds, ◌>>=◌}
use foodie_note.Prelude.Tests.{◌==◌, if◌then◌else◌}

-- The bytes of an ASCII literal.
abbrev pub codes : String → List ℕ
codes String.[] = []
codes (String.◌∷◌ c s) = code c ∷ codes s

-- The text of a buffer up to its first zero byte; a buffer without one is read beyond its end.
unfoldable pub c_string : List ℕ → Result (List ℕ)
c_string [] = fault out_of_bounds
c_string (x ∷ xs) = do
  rest ← if x == 0 then ok [] else c_string xs
  ok (if x == 0 then [] else x ∷ rest)

-- strncmp (s, prefix, length of prefix) == 0 for a prefix without zero bytes.
unfoldable pub starts_with : List ℕ → List ℕ → Bool
starts_with s [] = true
starts_with [] (p ∷ ps) = false
starts_with (x ∷ xs) (p ∷ ps) = x == p && starts_with xs ps

-- The text behind the first occurrence of a byte, as strchr and an increment give it.
unfoldable pub behind_first_of : ℕ → List ℕ → Option (List ℕ)
behind_first_of c [] = none
behind_first_of c (x ∷ xs) = let rest = behind_first_of c xs in if x == c then some xs else rest

abbrev pub IsNonzero : ℕ → Type 0
IsNonzero b = b ≢ 0

-- A buffer with text and a zero byte reads as the text, whatever stands behind the zero byte.
pub c_string-text : (s rest : List ℕ) → All IsNonzero s → c_string (s ++ 0 ∷ rest) ≡ ok s
unfolding c_string
c_string-text [] rest h = refl
c_string-text (x ∷ xs) rest (hx, hxs) = rw (c_string-text xs rest hxs) (ground arith)

-- A buffer that holds nothing but text is read beyond its end.
pub c_string-full : (s : List ℕ) → All IsNonzero s → c_string s ≡ fault out_of_bounds
unfolding c_string
c_string-full [] h = refl
c_string-full (x ∷ xs) (hx, hxs) = rw (c_string-full xs hxs) (ground arith)
