-- ===== src/Prelude/Maps.antt =====
-- Go's maps with string keys, as association lists. The order of a list is the order in which one
-- `range` over the map happens to visit it.
use Prim.Native.String.{String}
use mathlib.Core.Path.{◌≡◌, refl, ◌∙◌}
use mathlib.Core.Logic.{inl, inr}
use mathlib.Core.Bool.{false}
use mathlib.Core.List.{List, [], ◌∷◌}
use mathlib.Core.Option.{Option, none, some}
use native.Mathlib.Omega.{arith}
use text.Mathlib.Text.{◌==◌}
use text.Mathlib.TextEquality.{eq_iff}
use text.Mathlib.TextPositions.{eq_refl}
use manga_hub.Prelude.Tests.{if◌then◌else◌, Bool-cases}

abbrev pub Map {ℓ} : Type ℓ → Type ℓ
Map A = List (String × A)

module _ {ℓ} {A : Type ℓ} where
  -- a, ok := m[k]
  unfoldable pub lookup : String → Map A → Option A
  lookup k [] = none
  lookup k ((l, a) ∷ m) = if l == k then some a else lookup k m

  -- m[k] = a
  unfoldable pub put : String → A → Map A → Map A
  put k a [] = (k, a) ∷ []
  put k a ((l, b) ∷ m) = let rest = put k a m in if l == k then (k, a) ∷ m else (l, b) ∷ rest

  -- delete(m, k)
  unfoldable pub drop : String → Map A → Map A
  drop k [] = []
  drop k ((l, b) ∷ m) = let rest = drop k m in if l == k then rest else (l, b) ∷ rest

  -- no key stands twice
  abbrev pub Keyed : Map A → Type ℓ
  Keyed [] = Unit
  Keyed ((k, a) ∷ m) = (lookup k m ≡ none) × Keyed m

  pub lookup-put : (k : String) (a : A) (m : Map A) → lookup k (put k a m) ≡ some a
  unfolding lookup put
  lookup-put k a [] = ground (arith, eq_refl k)
  lookup-put k a ((l, b) ∷ m) = ground (arith, lookup-put k a m, eq_refl k)

  pub lookup-put_ne :
      (k l : String) (a : A) (m : Map A) → k == l ≡ false → lookup l (put k a m) ≡ lookup l m
  unfolding lookup put
  lookup-put_ne k l a [] h = ground arith
  lookup-put_ne k l a ((j, b) ∷ m) h = ground (arith, lookup-put_ne k l a m h, eq_iff j k)

  pub lookup-drop : (k : String) (m : Map A) → lookup k (drop k m) ≡ none
  unfolding lookup drop
  lookup-drop k [] = refl
  lookup-drop k ((l, b) ∷ m) = ground (arith, lookup-drop k m)

  pub lookup-drop_ne :
      (k l : String) (m : Map A) → k == l ≡ false → lookup l (drop k m) ≡ lookup l m
  unfolding lookup drop
  lookup-drop_ne k l [] h = refl
  lookup-drop_ne k l ((j, b) ∷ m) h = ground (arith, lookup-drop_ne k l m h, eq_iff j k)

  pub put-Keyed : (k : String) (a : A) (m : Map A) → Keyed m → Keyed (put k a m)
  unfolding put lookup
  put-Keyed k a [] h = (refl, tt)
  put-Keyed k a ((l, b) ∷ m) h = elim (Bool-cases (l == k)) [
    | inl same ↦ rw same (rw ((eq_iff l k).0 same) at h.0, h.1)
    | inr other ↦
        rw other (
          lookup-put_ne k l a m (ground (arith, eq_iff l k, eq_iff k l)) ∙ h.0,
          put-Keyed k a m h.1,
        )
  ]

  pub drop-Keyed : (k : String) (m : Map A) → Keyed m → Keyed (drop k m)
  unfolding drop lookup
  drop-Keyed k [] h = tt
  drop-Keyed k ((l, b) ∷ m) h = elim (Bool-cases (l == k)) [
    | inl same ↦ rw same (drop-Keyed k m h.1)
    | inr other ↦
        rw other
          (lookup-drop_ne k l m (ground (arith, eq_iff l k, eq_iff k l)) ∙ h.0, drop-Keyed k m h.1)
  ]
