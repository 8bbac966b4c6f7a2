-- ===== src/Prelude/Text/Laws.antt =====
-- Trimming twice is trimming once; the order of texts.
use Prim.Native.Nat.{ℕ, zero, suc, Ordering, compare as compare_ℕ}
use Prim.Native.Char.{code}
use Prim.Native.String.{String, compare, then as seq}
use Prim.Native.Nat.compare as compare_ℕ
use Prim.Native.String.compare
use mathlib.Core.Path.{◌≡◌, refl, ◌∙◌, sym, ap, ap₂}
use mathlib.Core.Logic.{◌≢◌, inl, inr}
use mathlib.Core.Bool.{true, false, ◌&&◌}
use text.Mathlib.Text.{◌==◌}
use text.Mathlib.TextEquality.{path_by_compare, eq_iff}
use native.Mathlib.Omega.{arith}
use manga_hub.Prelude.Tests.{Bool-cases}
use manga_hub.Prelude.Text.{is_space, is_empty, trim_left, trim_right, trim_space, is_lt, text_lt}

trim_right-trim_right : (s : String) → trim_right (trim_right s) ≡ trim_right s
unfolding trim_right
trim_right-trim_right String.[] = refl
trim_right-trim_right (String.◌∷◌ c s) = elim (Bool-cases (is_space c && is_empty (trim_right s))) [
  | inl gone ↦ rw gone refl
  | inr kept ↦ rw (kept, trim_right) (rw (trim_right-trim_right s) (rw kept refl))
]

trim_left-trim_right :
    (s : String) → trim_left (trim_right (trim_left s)) ≡ trim_right (trim_left s)
unfolding trim_left trim_right
trim_left-trim_right String.[] = refl
trim_left-trim_right (String.◌∷◌ c s) = elim (Bool-cases (is_space c)) [
  | inl space ↦ rw space (trim_left-trim_right s)
  | inr solid ↦ rw solid (rw solid (rw (solid, trim_left) refl))
]

pub trim_space-trim_space : (s : String) → trim_space (trim_space s) ≡ trim_space s
unfolding trim_space
trim_space-trim_space s =
    ap trim_right (trim_left-trim_right s) ∙ trim_right-trim_right (trim_left s)

abbrev flip : Ordering → Ordering
flip Ordering.lt = Ordering.gt
flip Ordering.eq = Ordering.eq
flip Ordering.gt = Ordering.lt

flip_then : (o r : Ordering) → flip (seq o r) ≡ seq (flip o) (flip r)
flip_then Ordering.lt r = refl
flip_then Ordering.eq r = refl
flip_then Ordering.gt r = refl

compare_ℕ-flip : (m n : ℕ) → compare_ℕ n m ≡ flip (compare_ℕ m n)
compare_ℕ-flip zero zero = refl
compare_ℕ-flip zero (suc n) = compare_ℕ.suc-zero n ∙ ap flip (sym (compare_ℕ.zero-suc n))
compare_ℕ-flip (suc m) zero = compare_ℕ.zero-suc m ∙ ap flip (sym (compare_ℕ.suc-zero m))
compare_ℕ-flip (suc m) (suc n) =
    compare_ℕ.suc-suc n m ∙ (compare_ℕ-flip m n ∙ ap flip (sym (compare_ℕ.suc-suc m n)))

compare-flip : (s t : String) → compare t s ≡ flip (compare s t)
compare-flip String.[] String.[] = refl
compare-flip String.[] (String.◌∷◌ d t) =
    compare.cons-nil d t ∙ ap flip (sym (compare.nil-cons d t))
compare-flip (String.◌∷◌ c s) String.[] =
    compare.nil-cons c s ∙ ap flip (sym (compare.cons-nil c s))
compare-flip (String.◌∷◌ c s) (String.◌∷◌ d t) =
    compare.cons-cons d c t s
    ∙ (ap₂ seq (compare_ℕ-flip (code c) (code d)) (compare-flip s t)
        ∙ (sym (flip_then (compare_ℕ (code c) (code d)) (compare s t))
            ∙ ap flip (sym (compare.cons-cons c d s t))))

asym : (o : Ordering) → is_lt o ≡ true → is_lt (flip o) ≡ false
asym Ordering.lt h = refl
asym Ordering.eq h = refl
asym Ordering.gt h = ground arith

total : (o : Ordering) → o ≢ Ordering.eq → is_lt (flip o) ≡ false → is_lt o ≡ true
total Ordering.lt differ h = refl
total Ordering.eq differ h = absurd (differ refl)
total Ordering.gt differ h = ground arith

-- of two texts at most one is less
pub text_lt_asym : (s t : String) → text_lt s t ≡ true → text_lt t s ≡ false
text_lt_asym s t h = ap is_lt (compare-flip s t) ∙ asym (compare s t) h

-- of two texts that differ one is less
pub text_lt_total : (s t : String) → (s == t) ≡ false → text_lt t s ≡ false → text_lt s t ≡ true
text_lt_total s t differ h =
    total (compare s t) (λ e. ground (arith, eq_iff s t, path_by_compare s t e))
      (sym (ap is_lt (compare-flip s t)) ∙ h)
