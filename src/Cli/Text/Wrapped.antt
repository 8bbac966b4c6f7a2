-- ===== src/Cli/Text/Wrapped.antt =====
-- WrapText loses no word, and no line is wider than asked unless it is a single word.
use Prim.Native.String.{String, len, ◌++◌ as str_append}
use text.Mathlib.TextLemmas.{append_assoc}
use text.Mathlib.TextPositions.{len-append}
use manga_hub.Prelude.{
  ℕ, suc, ◌+◌, ◌≤◌, leb, List, [], ◌∷◌, true, All, ◌≡◌, refl, ap, ◌∙◌, ◌⊎◌, inl, inr, Bool-cases,
  join_with, arith, any,
}
use text.Mathlib.Text.{◌==◌}
use manga_hub.Prelude.{eq_refl}
use manga_hub.Cli.Text.{wrap_from, wrapped, wrap_text, fields}

wrap_from-shape :
    (width : ℕ) (current : String) (words : List String)
    → (t : String) × (ts : List String) × (wrap_from width current words ≡ t ∷ ts)
unfolding wrap_from
wrap_from-shape width current [] = (current, [], refl)
wrap_from-shape width current (word ∷ words) =
    elim (Bool-cases (leb (len current + 1 + len word) width)) [
      | inl fits ↦
          rw (fits, wrap_from)
            (wrap_from-shape width (str_append current (str_append " " word)) words)
      | inr over ↦ rw (over, wrap_from) (current, wrap_from width word words, refl)
    ]

join_next :
    (c : String) (l : List String)
    → (t : String) × (ts : List String) × (l ≡ t ∷ ts)
    → join_with " " (c ∷ l) ≡ str_append c (str_append " " (join_with " " l))
join_next c l (t, ts, shape) = rw shape refl

join_longer :
    (current word : String) (words : List String)
    → join_with " " (str_append current (str_append " " word) ∷ words)
      ≡ join_with " " (current ∷ word ∷ words)
join_longer current word [] = refl
join_longer current word (w ∷ words) =
    append_assoc current (str_append " " word) (str_append " " (join_with " " (w ∷ words)))
    ∙ ap (str_append current) (append_assoc " " word (str_append " " (join_with " " (w ∷ words))))

join_with-wrap_from :
    (width : ℕ) (current : String) (words : List String)
    → join_with " " (wrap_from width current words) ≡ join_with " " (current ∷ words)
unfolding wrap_from
join_with-wrap_from width current [] = refl
join_with-wrap_from width current (word ∷ words) =
    elim (Bool-cases (leb (len current + 1 + len word) width)) [
      | inl fits ↦
          rw (fits, wrap_from)
            (join_with-wrap_from width (str_append current (str_append " " word)) words
              ∙ join_longer current word words)
      | inr over ↦
          rw (over, wrap_from)
            (join_next current (wrap_from width word words) (wrap_from-shape width word words)
              ∙ ap (λ rest. str_append current (str_append " " rest))
                  (join_with-wrap_from width word words))
    ]

module _ (width : ℕ) (P : String → Type 0)
    (narrow : (line : String) → len line ≤ width → P line) where
  wrap_from-All :
      (current : String) (words : List String)
      → P current
      → All P words
      → All P (wrap_from width current words)
  unfolding wrap_from
  wrap_from-All current [] p ps = (p, tt)
  wrap_from-All current (word ∷ words) p ps =
      elim (Bool-cases (leb (len current + 1 + len word) width)) [
        | inl fits ↦
            rw (fits, wrap_from)
              (wrap_from-All (str_append current (str_append " " word)) words
                (narrow _
                  (ground (arith, len-append current (str_append " " word), len-append " " word)))
                ps.1)
        | inr over ↦ rw (over, wrap_from) (p, wrap_from-All word words ps.0 ps.1)
      ]

-- a line of at most `width` bytes, or one of the words
abbrev pub Fits : ℕ → List String → String → Type 0
Fits width words line = (len line ≤ width) ⊎ (any (λ w. w == line) words ≡ true)

words-Fits :
    (width : ℕ) (all words : List String)
    → ((w : String) → any (λ x. x == w) words ≡ true → any (λ x. x == w) all ≡ true)
    → All (Fits width all) words
unfolding any
words-Fits width all [] sub = tt
words-Fits width all (word ∷ words) sub = (
  inr (sub word (ground (arith, eq_refl word))),
  words-Fits width all words (λ w h. sub w (ground arith)),
)

wrapped-Fits :
    (words : List String) (width : ℕ)
    → (join_with " " (wrapped words width) ≡ join_with " " words)
      × All (Fits width words) (wrapped words width)
unfolding wrapped wrap_from
wrapped-Fits [] width = (refl, tt)
wrapped-Fits (word ∷ words) width =
    let all = words-Fits width (word ∷ words) (word ∷ words) (λ w h. h) in
    (
      join_with-wrap_from width word words,
      wrap_from-All width (Fits width (word ∷ words)) (λ line fits. inl fits) word words all.0
          all.1,
    )

-- The lines, put together again, are the words of the text with one space between them, and a line
-- that is wider than asked is a single word of the text.
pub wrap_text-Fits :
    (text : String) (n : ℕ)
    → (join_with " " (wrap_text text (suc n)) ≡ join_with " " (fields text))
      × All (Fits (suc n) (fields text)) (wrap_text text (suc n))
unfolding wrap_text
wrap_text-Fits text n = wrapped-Fits (fields text) (suc n)
