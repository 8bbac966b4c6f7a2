-- ===== src/Prelude/Sorting.antt =====
-- `ORDER BY` and `sort.Slice` as a stable insertion sort, and what a search finds in a sorted list.
pub mod Order
use mathlib.Core.Path.{◌≡◌, refl}
use mathlib.Core.Bool.{Bool, true, false}
use mathlib.Core.List.{List, [], ◌∷◌, Perm}
use mathlib.Core.List.Perm
use native.Mathlib.Omega.{arith}
use manga_hub.Prelude.Tests.{if◌then◌else◌, Bool-cases}
use manga_hub.Prelude.Lists.{find, any}
use mathlib.Core.Logic.{inl, inr}

-- `before x y` says that `x` may stand before `y`
module _ {ℓ} {A : Type ℓ} (before : A → A → Bool) where
  unfoldable pub insert_by : A → List A → List A
  insert_by x [] = x ∷ []
  insert_by x (y ∷ ys) = if before x y then x ∷ y ∷ ys else y ∷ insert_by x ys

  unfoldable pub sort_by : List A → List A
  sort_by [] = []
  sort_by (x ∷ xs) = insert_by x (sort_by xs)

  pub insert_by-perm : (x : A) (xs : List A) → Perm (insert_by x xs) (x ∷ xs)
  unfolding insert_by
  insert_by-perm x [] = Perm.refl (x ∷ [])
  insert_by-perm x (y ∷ ys) = elim (Bool-cases (before x y)) [
    | inl first ↦ rw first (Perm.refl (x ∷ y ∷ ys))
    | inr later ↦ rw later (Perm.trans (Perm.cons y (insert_by-perm x ys)) (Perm.swap x y ys))
  ]

  pub sort_by-perm : (xs : List A) → Perm (sort_by xs) xs
  unfolding sort_by
  sort_by-perm [] = Perm.refl []
  sort_by-perm (x ∷ xs) = Perm.trans (insert_by-perm x (sort_by xs)) (Perm.cons x (sort_by-perm xs))

module _ {ℓ} {A : Type ℓ} (p : A → Bool) where
  -- at most one element passes the test
  abbrev pub Single : List A → Type 0
  Single [] = Unit
  Single (x ∷ xs) = (p x ≡ true → any p xs ≡ false) × Single xs

  module _ (before : A → A → Bool) where
    pub any-insert_by : (x : A) (xs : List A) → any p (insert_by before x xs) ≡ any p (x ∷ xs)
    unfolding any insert_by
    any-insert_by x [] = refl
    any-insert_by x (y ∷ ys) = ground (arith, any-insert_by x ys)

    pub any-sort_by : (xs : List A) → any p (sort_by before xs) ≡ any p xs
    unfolding any sort_by
    any-sort_by [] = refl
    any-sort_by (x ∷ xs) = ground (arith, any-insert_by x (sort_by before xs), any-sort_by xs)

    find-insert_by :
        (x : A) (xs : List A)
        → (p x ≡ true → any p xs ≡ false)
        → find p (insert_by before x xs) ≡ find p (x ∷ xs)
    unfolding find any insert_by
    find-insert_by x [] h = refl
    find-insert_by x (y ∷ ys) h = ground (arith, find-insert_by x ys)

    -- Where at most one element passes the test, a search does not depend on the order.
    pub find-sort_by : (xs : List A) → Single xs → find p (sort_by before xs) ≡ find p xs
    unfolding find sort_by
    find-sort_by [] h = refl
    find-sort_by (x ∷ xs) h =
        ground
          (arith, find-insert_by x (sort_by before xs), find-sort_by xs h.1, any-sort_by xs, h.0)
