-- ===== src/Prelude/Text.antt =====
-- Python's `str.strip()` tests on identifiers, and the test for a hexadecimal digest.
use Prim.Native.Nat.{ℕ, zero, suc}
use Prim.Native.Char.{code}
use Prim.Native.String.{String}
use mathlib.Core.Bool.{Bool, true, false, not, ◌&&◌, ◌||◌}
use audio_bodyguard_alpha.Prelude.Tests.{leb, eqb}

-- `str.isspace` of one code point
abbrev pub is_space : ℕ → Bool
is_space c =
    (leb 9 c && leb c 13)
    || (leb 28 c && leb c 32)
    || eqb c 133
    || eqb c 160
    || eqb c 5760
    || (leb 8192 c && leb c 8202)
    || eqb c 8232
    || eqb c 8233
    || eqb c 8239
    || eqb c 8287
    || eqb c 12288

-- `bool(value.strip())`
unfoldable pub is_named : String → Bool
is_named String.[] = false
is_named (String.◌∷◌ c s) = not (is_space (code c)) || is_named s

-- the last character, of a string after `c`, is no space
ends_named : ℕ → String → Bool
ends_named c String.[] = not (is_space c)
ends_named c (String.◌∷◌ d s) = ends_named (code d) s

-- `value.strip() and value == value.strip()`
unfoldable pub is_trimmed : String → Bool
unfolding ends_named
is_trimmed String.[] = false
is_trimmed (String.◌∷◌ c s) = not (is_space (code c)) && ends_named (code c) s

-- In "0123456789abcdef"
unfoldable pub is_hex : ℕ → Bool
is_hex c = (leb b'0' c && leb c b'9') || (leb b'a' c && leb c b'f')

-- `n` such characters
unfoldable pub hex_digits : ℕ → String → Bool
unfolding is_hex
hex_digits zero String.[] = true
hex_digits zero (String.◌∷◌ c s) = false
hex_digits (suc n) String.[] = false
hex_digits (suc n) (String.◌∷◌ c s) = is_hex (code c) && hex_digits n s

-- `len(value)==64 and all(character in "0123456789abcdef" for character in value)`
unfoldable pub is_digest : String → Bool
unfolding hex_digits
is_digest s = hex_digits 64 s
