-- ===== src/Prelude/Parse.antt =====
-- `strconv.Atoi`, `strings.Contains` and `strings.Split` at a comma.
use Prim.Native.Nat.{ℕ, zero, suc, ◌+◌, ◌*◌, ◌-◌}
use Prim.Native.Char.{Char, code}
use Prim.Native.String.{String}
use mathlib.Core.Path.{◌≡◌, refl}
use mathlib.Core.Bool.{Bool, true, false, ◌&&◌, ◌||◌}
use mathlib.Core.Option.{Option, none, some}
use mathlib.Core.List.{List, [], ◌∷◌}
use text.Mathlib.Text.{starts_with}
use manga_hub.Prelude.Tests.{leb, eqb, if◌then◌else◌}
use manga_hub.Prelude.Int.{ℤ, pos, negsuc}

abbrev is_digit : Char → Bool
is_digit c = leb 48 (code c) && leb (code c) 57

-- the number that the digits continue
unfoldable pub digits_from : ℕ → String → Option ℕ
digits_from n String.[] = some n
digits_from n (String.◌∷◌ c s) =
    let rest = digits_from (n * 10 + (code c - 48)) s in if is_digit c then rest else none

unfoldable pub magnitude : String → Option ℕ
unfolding digits_from
magnitude String.[] = none
magnitude (String.◌∷◌ c s) = digits_from 0 (String.◌∷◌ c s)

abbrev minus : ℕ → ℤ
minus zero = pos 0
minus (suc n) = negsuc n

-- int64: out of its range the value is the nearest bound, beside an error
abbrev pub int_max : ℕ
int_max = 9223372036854775807

abbrev positive : Option ℕ → ℤ × Bool
positive none = (pos 0, false)
positive (some n) = if leb n int_max then (pos n, true) else (pos int_max, false)

abbrev negative : Option ℕ → ℤ × Bool
negative none = (pos 0, false)
negative (some n) = if leb n (suc int_max) then (minus n, true) else (minus (suc int_max), false)

-- strconv.Atoi: the value, and whether the error is nil
unfoldable pub atoi : String → ℤ × Bool
unfolding magnitude
atoi String.[] = (pos 0, false)
atoi (String.◌∷◌ c s) =
    if eqb (code c) 45
    then negative (magnitude s)
    else if eqb (code c) 43
    then positive (magnitude s)
    else positive (magnitude (String.◌∷◌ c s))

-- strings.Contains
unfoldable pub contains : String → String → Bool
contains String.[] t = starts_with String.[] t
contains (String.◌∷◌ c s) t = starts_with (String.◌∷◌ c s) t || contains s t

abbrev consed : Char → List String → List String
consed c [] = String.◌∷◌ c String.[] ∷ []
consed c (s ∷ ss) = String.◌∷◌ c s ∷ ss

-- strings.Split(s, ",")
unfoldable pub split_comma : String → List String
split_comma String.[] = String.[] ∷ []
split_comma (String.◌∷◌ c s) =
    let rest = split_comma s in if eqb (code c) 44 then String.[] ∷ rest else consed c rest

atoi_test : atoi "-120" ≡ (negsuc 119, true)
unfolding atoi
atoi_test = refl

atoi_syntax : atoi "12a" ≡ (pos 0, false)
unfolding atoi
atoi_syntax = refl

atoi_range : atoi "9223372036854775808" ≡ (pos 9223372036854775807, false)
unfolding atoi
atoi_range = refl

contains_test : contains "manga not found" "not f" ≡ true
unfolding contains
contains_test = refl

split_comma_test : split_comma "a,,bc" ≡ "a" ∷ "" ∷ "bc" ∷ []
unfolding split_comma
split_comma_test = refl
