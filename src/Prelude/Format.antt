-- ===== src/Prelude/Format.antt =====
-- `strconv.Itoa` and the verb %d.
use Prim.Native.Nat.{ℕ, zero, suc, ◌/◌, ◌%◌}
use Prim.Native.Char.{Char, nul}
use Prim.Native.String.{String, ◌++◌}
use mathlib.Core.List.{List, [], ◌∷◌}
use mathlib.Core.Path.{◌≡◌, refl}
use manga_hub.Prelude.Tests.{ltb, if◌then◌else◌}
use manga_hub.Prelude.Int.{ℤ, pos, negsuc}

abbrev nth : ℕ → String → Char
nth i String.[] = nul
nth zero (String.◌∷◌ c s) = c
nth (suc i) (String.◌∷◌ c s) = nth i s

abbrev digit : ℕ → Char
digit n = nth n "0123456789"

-- the digits of `n` in front of `done`; `n + 1` rounds are more than enough
unfoldable pub digits : ℕ → ℕ → String → String
digits zero n done = done
digits (suc fuel) n done =
    let more = digits fuel (n / 10) (String.◌∷◌ (digit (n % 10)) done) in
    if ltb n 10 then String.◌∷◌ (digit n) done else more

unfoldable pub itoa : ℤ → String
unfolding digits
itoa (pos n) = digits (suc n) n ""
itoa (negsuc n) = String.◌∷◌ (nth 0 "-") (digits (suc (suc n)) (suc n) "")

-- one text after the other, and strings.Join
abbrev pub join : List String → String
join [] = ""
join (s ∷ ss) = s ++ join ss

abbrev pub join_with : String → List String → String
join_with separator [] = ""
join_with separator (s ∷ []) = s
join_with separator (s ∷ t ∷ ss) = s ++ (separator ++ join_with separator (t ∷ ss))

-- the verb %.2f on a number of hundredths
unfoldable pub hundredths : ℕ → String
unfolding digits
hundredths n =
    digits (suc n) (n / 100)
      (String.◌∷◌ (nth 0 ".") (String.◌∷◌ (digit (n / 10 % 10)) (String.◌∷◌ (digit (n % 10)) "")))

unfoldable pub decimal : ℤ → String
unfolding hundredths
decimal (pos n) = hundredths n
decimal (negsuc n) = String.◌∷◌ (nth 0 "-") (hundredths (suc n))

decimal_test : decimal (negsuc 1204) ≡ "-12.05"
unfolding decimal
decimal_test = refl

itoa_test : itoa (pos 1204) ≡ "1204"
unfolding itoa
itoa_test = refl

itoa_negative : itoa (negsuc 9) ≡ "-10"
unfolding itoa
itoa_negative = refl
