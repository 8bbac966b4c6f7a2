-- ===== src/Prelude/Sorting/Order.antt =====
-- A sorted list's neighbours are in order.
use mathlib.Core.Path.{◌≡◌}
use mathlib.Core.Logic.{inl, inr}
use mathlib.Core.Bool.{Bool, true, false}
use mathlib.Core.List.{List, [], ◌∷◌}
use manga_hub.Prelude.Tests.{Bool-cases}
use manga_hub.Prelude.Lists.{All}
use manga_hub.Prelude.Sorting.{insert_by, sort_by}

module _ {ℓ} {A : Type ℓ} (R : A → A → Type 0) where
  -- `a` is related to the list's first element, where it has one
  abbrev pub Under : A → List A → Type 0
  Under a [] = Unit
  Under a (x ∷ xs) = R a x

  abbrev pub Chain : List A → Type 0
  Chain [] = Unit
  Chain (x ∷ xs) = Under x xs × Chain xs

module _ {ℓ} {A : Type ℓ} (before : A → A → Bool) where
  abbrev pub Before : A → A → Type 0
  Before a b = before a b ≡ true

  module _ (total : (a b : A) → before a b ≡ false → before b a ≡ true) where
    insert_by-Under :
        (y x : A) (xs : List A)
        → Before y x
        → Under Before y xs
        → Under Before y (insert_by before x xs)
    unfolding insert_by
    insert_by-Under y x [] first under = first
    insert_by-Under y x (z ∷ zs) first under = elim (Bool-cases (before x z)) [
      | inl here ↦ rw (here, insert_by) first
      | inr later ↦ rw (later, insert_by) under
    ]

    insert_by-Chain : (x : A) (xs : List A) → Chain Before xs → Chain Before (insert_by before x xs)
    unfolding insert_by
    insert_by-Chain x [] chain = (tt, tt)
    insert_by-Chain x (y ∷ ys) chain = elim (Bool-cases (before x y)) [
      | inl here ↦ rw (here, insert_by) (here, chain)
      | inr later ↦
          rw (later, insert_by)
            (insert_by-Under y x ys (total x y later) chain.0, insert_by-Chain x ys chain.1)
    ]

    pub sort_by-Chain : (xs : List A) → Chain Before (sort_by before xs)
    unfolding sort_by
    sort_by-Chain [] = tt
    sort_by-Chain (x ∷ xs) = insert_by-Chain x (sort_by before xs) (sort_by-Chain xs)

  module _ {κ} (P : A → Type κ) where
    insert_by-All : (x : A) (xs : List A) → P x → All P xs → All P (insert_by before x xs)
    unfolding insert_by
    insert_by-All x [] p all = (p, tt)
    insert_by-All x (y ∷ ys) p all = elim (Bool-cases (before x y)) [
      | inl here ↦ rw (here, insert_by) (p, all)
      | inr later ↦ rw (later, insert_by) (all.0, insert_by-All x ys p all.1)
    ]

    pub sort_by-All : (xs : List A) → All P xs → All P (sort_by before xs)
    unfolding sort_by
    sort_by-All [] all = tt
    sort_by-All (x ∷ xs) all = insert_by-All x (sort_by before xs) all.0 (sort_by-All xs all.1)
