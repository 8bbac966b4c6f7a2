-- ===== src/Prelude/Text.antt =====
-- Go's `strings.TrimSpace`, `strings.ToLower` and `strings.EqualFold` on texts of Unicode scalar
-- values. The case mapping outside ASCII is Unicode's table, which is a parameter.
pub mod Laws
use Prim.Native.Nat.{ℕ, zero, suc, ◌-◌}
use Prim.Native.Char.{Char, code, nul}
use Prim.Native.String.{String, compare}
use Prim.Native.Nat.{Ordering}
use mathlib.Core.Path.{◌≡◌, refl}
use mathlib.Core.Bool.{Bool, true, false, ◌&&◌, ◌||◌}
use manga_hub.Prelude.Tests.{leb, eqb, if◌then◌else◌}

-- unicode.IsSpace
unfoldable pub is_space : Char → Bool
is_space c =
    let n = code c in
    (leb 9 n && leb n 13)
    || (n_is n 32 || n_is n 0x85 || n_is n 0xa0 || n_is n 0x1680)
    || (leb 0x2000 n && leb n 0x200a)
    || (n_is n 0x2028 || n_is n 0x2029 || n_is n 0x202f || n_is n 0x205f || n_is n 0x3000)
  where
    n_is : ℕ → ℕ → Bool
    n_is a b = eqb a b

abbrev pub is_empty : String → Bool
is_empty String.[] = true
is_empty (String.◌∷◌ c s) = false

unfoldable pub trim_left : String → String
trim_left String.[] = String.[]
trim_left (String.◌∷◌ c s) = let rest = trim_left s in if is_space c then rest else String.◌∷◌ c s

unfoldable pub trim_right : String → String
trim_right String.[] = String.[]
trim_right (String.◌∷◌ c s) =
    let rest = trim_right s in if is_space c && is_empty rest then String.[] else String.◌∷◌ c rest

abbrev pub is_lt : Ordering → Bool
is_lt Ordering.lt = true
is_lt Ordering.eq = false
is_lt Ordering.gt = false

-- `s < t` on strings: UTF-8 bytes are ordered as the code points are
abbrev pub text_lt : String → String → Bool
text_lt s t = is_lt (compare s t)

-- strings.TrimSpace
unfoldable pub trim_space : String → String
unfolding trim_left trim_right is_space
trim_space s = trim_right (trim_left s)

abbrev char_at : ℕ → String → Char
char_at i String.[] = nul
char_at zero (String.◌∷◌ c s) = c
char_at (suc i) (String.◌∷◌ c s) = char_at i s

-- The lower-case mapping of the characters outside ASCII.
pub record Unicode : Type 0 where
  pub lower : Char → Char

module _ ⦃u : Unicode⦄ where
  -- unicode.ToLower
  unfoldable pub lower_rune : Char → Char
  lower_rune c =
      let n = code c in
      if leb 65 n && leb n 90
      then char_at (n - 65) "abcdefghijklmnopqrstuvwxyz"
      else if leb n 127
      then c
      else u.lower c

  -- strings.ToLower
  unfoldable pub to_lower : String → String
  unfolding lower_rune
  to_lower String.[] = String.[]
  to_lower (String.◌∷◌ c s) = String.◌∷◌ (lower_rune c) (to_lower s)

instance abbrev pub ascii : Unicode
ascii = record { lower = λ c. c }

trim_space_test : trim_space " \t a b\n" ≡ "a b"
unfolding trim_space
trim_space_test = refl

to_lower_test : to_lower "HeLLo Z@[" ≡ "hello z@["
unfolding to_lower
to_lower_test = refl
