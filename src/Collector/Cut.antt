-- ===== src/Collector/Cut.antt =====
-- trimTo of helpers.go, on the bytes that Go cuts.
use manga_hub.Prelude.{
  ℕ, ◌-◌, ◌≤◌, leb, ℤ, pos, negsuc, List, [], ◌∷◌, ◌++◌, if◌then◌else◌, Result, ok, err, panic,
  length, take, ◌≡◌, refl, length-append, arith, length-take, Bool-cases, inl, inr,
}

abbrev dots : List ℕ
dots = 46 ∷ 46 ∷ 46 ∷ []

-- a negative limit is an index out of range
unfoldable pub trim_to : List ℕ → ℤ → Result (List ℕ)
trim_to input (negsuc n) = err (panic "slice bounds out of range")
trim_to input (pos limit) =
    if leb (length input) limit
    then ok input
    else if leb limit 3
    then ok (take limit input)
    else ok (take (limit - 3) input ++ dots)

-- A limit that is not negative bounds the result's length, and a text within it stays whole.
pub trim_to_bounds :
    (input : List ℕ) (limit : ℕ)
    → (out : List ℕ) × (trim_to input (pos limit) ≡ ok out)
      × (length out ≤ limit)
      × (length input ≤ limit → out ≡ input)
unfolding trim_to
trim_to_bounds input limit = elim (Bool-cases (leb (length input) limit)) [
  | inl short ↦ (input, rw short refl, ground arith, λ h. refl)
  | inr long ↦ elim (Bool-cases (leb limit 3)) [
    | inl tiny ↦ (
      take limit input,
      rw (long, tiny) refl,
      omega (arith, length-take limit input),
      λ h. absurd (ground arith),
    )
    | inr fits ↦ (
      take (limit - 3) input ++ dots,
      rw (long, fits) refl,
      ground (arith, length-append (take (limit - 3) input) dots, length-take (limit - 3) input),
      λ h. absurd (ground arith),
    )
  ]
]
