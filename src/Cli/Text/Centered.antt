-- ===== src/Cli/Text/Centered.antt =====
-- CenterText fills its width.
use Prim.Native.String.{String, ◌++◌ as str_append}
use Prim.Native.String.append
use manga_hub.Prelude.{
  ℕ, zero, suc, ◌+◌, ◌-◌, ◌/◌, ◌≤◌, leb, ltb, ◌≡◌, refl, ap, ◌∙◌, inl, inr, Bool-cases,
  if◌then◌else◌, arith,
}
use manga_hub.Cli.Text.{rune_count, first_runes, spaces, center_text}

rune_count-append : (s t : String) → rune_count (str_append s t) ≡ rune_count s + rune_count t
unfolding rune_count
rune_count-append String.[] t = ap rune_count (append.nil t) ∙ omega arith
rune_count-append (String.◌∷◌ c s) t =
    ap rune_count (append.cons c s t) ∙ omega (arith, rune_count-append s t)

rune_count-spaces : (n : ℕ) → rune_count (spaces n) ≡ n
unfolding rune_count spaces
rune_count-spaces zero = refl
rune_count-spaces (suc n) = rune_count-append " " (spaces n) ∙ omega (arith, rune_count-spaces n)

rune_count-first_runes : (n : ℕ) (s : String) → n ≤ rune_count s → rune_count (first_runes n s) ≡ n
unfolding rune_count first_runes
rune_count-first_runes zero s h = refl
rune_count-first_runes (suc n) String.[] h = omega (arith, h)
rune_count-first_runes (suc n) (String.◌∷◌ c s) h =
    ap suc (rune_count-first_runes n s (omega arith))

padded : (t : String) (width : ℕ) → String
padded t width =
    let pad = width - rune_count t in
    if leb width (rune_count t)
    then t
    else str_append (spaces (pad / 2)) (str_append t (spaces (pad - pad / 2)))

rune_count-padded :
    (t : String) (width : ℕ) → rune_count t ≤ width → rune_count (padded t width) ≡ width
unfolding padded
rune_count-padded t width fits = elim (Bool-cases (leb width (rune_count t))) [
  | inl full ↦ rw (full, padded) (ground arith)
  | inr room ↦
      let pad = width - rune_count t in
      rw (room, padded)
        (rune_count-append (spaces (pad / 2)) (str_append t (spaces (pad - pad / 2)))
          ∙ omega (
            arith,
            rune_count-append t (spaces (pad - pad / 2)),
            rune_count-spaces (pad / 2),
            rune_count-spaces (pad - pad / 2),
            fits,
          ))
]

-- Whatever the text and the width, the result has as many runes as the width.
pub rune_count-center_text : (s : String) (width : ℕ) → rune_count (center_text s width) ≡ width
unfolding center_text padded
rune_count-center_text s width = elim (Bool-cases (ltb width (rune_count s))) [
  | inl long ↦ rw long (
      rune_count-padded (first_runes width s) width
        (omega (arith, rune_count-first_runes width s (ground arith))))
  | inr short ↦ rw short (rune_count-padded s width (ground arith))
]
