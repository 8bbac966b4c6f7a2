-- ===== src/Cli/Text.antt =====
-- The functions on texts of cmd/cli/commands/shared/shared.go, and its `ensureLeadingSlash`.
pub mod Wrapped
pub mod Centered
pub mod Grouped
use Prim.Native.Char.{Char, code, nul}
use Prim.Native.String.{String, len, ◌++◌ as str_append}
use text.Mathlib.Text.{starts_with}
use manga_hub.Prelude.{
  ℕ, zero, suc, ◌+◌, ◌-◌, ◌/◌, ◌%◌, leb, ltb, eqb, ℤ, List, [], ◌∷◌, Bool, ◌==◌, if◌then◌else◌,
  Option, none, some, itoa, trim_space, join_with,
}
use manga_hub.Prelude.Text.{is_space}

-- NonEmpty
unfoldable pub non_empty : String → String → String
non_empty value fallback = if trim_space value == "" then fallback else value

-- ensureLeadingSlash
unfoldable pub ensure_leading_slash : String → String
ensure_leading_slash path =
    if path == "" then "" else if starts_with path "/" then path else str_append "/" path

-- the number of runes
unfoldable pub rune_count : String → ℕ
rune_count String.[] = zero
rune_count (String.◌∷◌ c s) = suc (rune_count s)

-- string(r[:n])
unfoldable pub first_runes : ℕ → String → String
first_runes zero s = String.[]
first_runes (suc n) String.[] = String.[]
first_runes (suc n) (String.◌∷◌ c s) = String.◌∷◌ c (first_runes n s)

-- strings.Repeat(" ", n)
unfoldable pub spaces : ℕ → String
spaces zero = String.[]
spaces (suc n) = str_append " " (spaces n)

-- CenterText, for a width that is not negative
unfoldable pub center_text : String → ℕ → String
unfolding rune_count first_runes spaces
center_text s width =
    let trimmed = if ltb width (rune_count s) then first_runes width s else s in
    let pad = width - rune_count trimmed in
    if leb width (rune_count trimmed)
    then trimmed
    else str_append (spaces (pad / 2)) (str_append trimmed (spaces (pad - pad / 2)))

abbrev begun : Char → List String → List String
begun c [] = String.◌∷◌ c String.[] ∷ []
begun c (s ∷ ss) = String.◌∷◌ c s ∷ ss

-- the text between the spaces, also where nothing is
unfoldable pub pieces : String → List String
pieces String.[] = String.[] ∷ []
pieces (String.◌∷◌ c s) =
    let rest = pieces s in if is_space c then String.[] ∷ rest else begun c rest

unfoldable pub filled : List String → List String
filled [] = []
filled (s ∷ ss) = let rest = filled ss in if s == "" then rest else s ∷ rest

-- strings.Fields
unfoldable pub fields : String → List String
unfolding pieces filled
fields s = filled (pieces s)

-- the loop of WrapText; len() counts bytes
unfoldable pub wrap_from : ℕ → String → List String → List String
wrap_from width current [] = current ∷ []
wrap_from width current (word ∷ words) =
    let longer = wrap_from width (str_append current (str_append " " word)) words in
    let next = current ∷ wrap_from width word words in
    if leb (len current + 1 + len word) width then longer else next

unfoldable pub wrapped : List String → ℕ → List String
unfolding wrap_from
wrapped [] width = []
wrapped (word ∷ words) width = wrap_from width word words

-- WrapText, for a width that is not negative
unfoldable pub wrap_text : String → ℕ → List String
unfolding wrapped fields
wrap_text text zero = text ∷ []
wrap_text text (suc n) = wrapped (fields text) (suc n)

-- s[i:i+3] for i from 0; `none` is a slice out of range
unfoldable pub threes : String → Option (List String)
threes String.[] = some []
threes (String.◌∷◌ a String.[]) = none
threes (String.◌∷◌ a (String.◌∷◌ b String.[])) = none
threes (String.◌∷◌ a (String.◌∷◌ b (String.◌∷◌ c s))) = elim (threes s) [
  | none ↦ none
  | some parts ↦ some (String.◌∷◌ a (String.◌∷◌ b (String.◌∷◌ c String.[])) ∷ parts)
]

unfoldable pub after_runes : ℕ → String → String
after_runes zero s = s
after_runes (suc n) String.[] = String.[]
after_runes (suc n) (String.◌∷◌ c s) = after_runes n s

-- the digits in groups of three from the right; they are ASCII, so that bytes are runes
unfoldable pub grouped : String → Option String
unfolding rune_count first_runes after_runes threes
grouped s =
    let rest = rune_count s % 3 in
    let first = if eqb rest 0 then 3 else rest in
    if leb (rune_count s) 3 then some s else elim (threes (after_runes first s)) [
      | none ↦ none
      | some parts ↦ some (join_with "," (first_runes first s ∷ parts))
    ]

-- FormatNumber
unfoldable pub format_number : ℤ → Option String
unfolding grouped
format_number v = grouped (itoa v)
