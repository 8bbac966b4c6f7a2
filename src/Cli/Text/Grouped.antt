-- ===== src/Cli/Text/Grouped.antt =====
-- FormatNumber puts a comma before every group of three.
use Prim.Native.Char.{Char}
use Prim.Native.String.{String, ◌++◌ as str_append}
use Prim.Native.String.append
use manga_hub.Prelude.{
  ℕ, zero, suc, ◌≤◌, ◌⊎◌, All, ◌-◌, ◌%◌, leb, eqb, ℤ, List, [], ◌∷◌, false, some, ◌≡◌, refl, ap,
  ◌∙◌, inl, inr, Bool-cases, if◌then◌else◌, arith, itoa, join, join_with,
}
use manga_hub.Cli.Text.{rune_count, first_runes, after_runes, threes, grouped, format_number}

first-after : (n : ℕ) (s : String) → str_append (first_runes n s) (after_runes n s) ≡ s
unfolding first_runes after_runes
first-after zero s = append.nil s
first-after (suc n) String.[] = append.nil String.[]
first-after (suc n) (String.◌∷◌ c s) =
    append.cons c (first_runes n s) (after_runes n s) ∙ ap (String.◌∷◌ c) (first-after n s)

rune_count-after_runes : (n : ℕ) (s : String) → rune_count (after_runes n s) ≡ rune_count s - n
unfolding rune_count after_runes
rune_count-after_runes zero s = omega arith
rune_count-after_runes (suc n) String.[] = omega arith
rune_count-after_runes (suc n) (String.◌∷◌ c s) = omega (arith, rune_count-after_runes n s)

three-append :
    (a b c : Char) (t : String)
    → str_append (String.◌∷◌ a (String.◌∷◌ b (String.◌∷◌ c String.[]))) t
      ≡ String.◌∷◌ a (String.◌∷◌ b (String.◌∷◌ c t))
three-append a b c t =
    append.cons a (String.◌∷◌ b (String.◌∷◌ c String.[])) t
    ∙ ap (String.◌∷◌ a) (
        append.cons b (String.◌∷◌ c String.[]) t
        ∙ ap (String.◌∷◌ b) (append.cons c String.[] t ∙ ap (String.◌∷◌ c) (append.nil t)))

threes-some :
    (s : String)
    → rune_count s % 3 ≡ 0
    → (parts : List String) × (threes s ≡ some parts)
      × All (λ p. rune_count p ≡ 3) parts
      × (join parts ≡ s)
unfolding threes rune_count
threes-some String.[] h = ([], refl, tt, refl)
threes-some (String.◌∷◌ a String.[]) h = absurd (omega (arith, h))
threes-some (String.◌∷◌ a (String.◌∷◌ b String.[])) h = absurd (omega (arith, h))
threes-some (String.◌∷◌ a (String.◌∷◌ b (String.◌∷◌ c s))) h =
    let (parts, cut, each, back) = threes-some s (omega (arith, h)) in
    (
      String.◌∷◌ a (String.◌∷◌ b (String.◌∷◌ c String.[])) ∷ parts,
      rw cut refl,
      (refl, each),
      three-append a b c (join parts) ∙ ap (λ t. String.◌∷◌ a (String.◌∷◌ b (String.◌∷◌ c t))) back,
    )

head_size : ℕ → ℕ
head_size n = if eqb (n % 3) 0 then 3 else n % 3

head_size-rest : (n : ℕ) → leb n 3 ≡ false → (n - head_size n) % 3 ≡ 0
unfolding head_size
head_size-rest n long = ground arith

head_size_bounds : (n : ℕ) → leb n 3 ≡ false → (1 ≤ head_size n) × (head_size n ≤ 3)
unfolding head_size
head_size_bounds n long = (ground arith, ground arith)

rune_count-first_runes : (n : ℕ) (s : String) → n ≤ rune_count s → rune_count (first_runes n s) ≡ n
unfolding rune_count first_runes
rune_count-first_runes zero s h = refl
rune_count-first_runes (suc n) String.[] h = absurd (omega (arith, h))
rune_count-first_runes (suc n) (String.◌∷◌ c s) h =
    ap suc (rune_count-first_runes n s (omega (arith, h)))

-- FormatNumber cuts nothing out of range. Digits of at most three characters come back as they are.
-- Longer ones come back as groups with commas between them: the first has one to three characters
-- and each other three, and without the commas they are the digits. A minus sign counts as one.
pub format_number-groups :
    (v : ℤ)
    → ((rune_count (itoa v) ≤ 3) × (format_number v ≡ some (itoa v)))
      ⊎ ((head : String) × (parts : List String) × (format_number v
            ≡ some (join_with "," (head ∷ parts)))
          × (1 ≤ rune_count head)
          × (rune_count head ≤ 3)
          × All (λ p. rune_count p ≡ 3) parts
          × (join (head ∷ parts) ≡ itoa v))
unfolding format_number grouped head_size
format_number-groups v = elim (Bool-cases (leb (rune_count (itoa v)) 3)) [
  | inl short ↦ inl (ground (arith, short), rw short refl)
  | inr long ↦
      let n = rune_count (itoa v) in
      let (least, most) = head_size_bounds n long in
      let (parts, cut, each, back) =
        threes-some (after_runes (head_size n) (itoa v)) (
          ap (λ k. k % 3) (rune_count-after_runes (head_size n) (itoa v))
          ∙ head_size-rest n long) in
      let size = rune_count-first_runes (head_size n) (itoa v) (ground (arith, most, long)) in
      inr (
        first_runes (head_size n) (itoa v),
        parts,
        rw long (rw cut refl),
        omega (arith, size, least),
        omega (arith, size, most),
        each,
        ap (str_append (first_runes (head_size n) (itoa v))) back
            ∙ first-after (head_size n) (itoa v),
      )
]
