-- ===== src/Store/Sql/Rows.antt =====
-- What a search finds after a statement, and which rows it leaves.
use manga_hub.Prelude.{
  List, [], ◌∷◌, ◌++◌, Bool, true, false, ◌||◌, ◌≡◌, refl, Option, none, some, find, any, keep, All,
  arith, Bool-cases, inl, inr, if◌then◌else◌,
}
use manga_hub.Store.Sql.{update_where, delete_where, upsert}

-- what the row of the key becomes
abbrev pub merged {ℓ} : {A : Type ℓ} → (A → A) → A → Option A → A
merged merge fresh none = fresh
merged merge fresh (some x) = merge x

module _ {ℓ} {A : Type ℓ} where
  pub any-find : (p : A → Bool) (xs : List A) (x : A) → find p xs ≡ some x → any p xs ≡ true
  unfolding find any
  any-find p [] x h = ground arith
  any-find p (y ∷ xs) x h = ground (arith, any-find p xs x)

  pub find-none : (p : A → Bool) (xs : List A) → find p xs ≡ none → any p xs ≡ false
  unfolding find any
  find-none p [] h = refl
  find-none p (y ∷ xs) h = ground (arith, find-none p xs)

  pub find_sound : (p : A → Bool) (xs : List A) (x : A) → find p xs ≡ some x → p x ≡ true
  unfolding find
  find_sound p [] x h = ground arith
  find_sound p (y ∷ xs) x h = ground (arith, find_sound p xs x)

  pub find-of_any : (p : A → Bool) (xs : List A) → any p xs ≡ true → (x : A) × (find p xs ≡ some x)
  unfolding find any
  find-of_any p [] h = absurd (ground arith)
  find-of_any p (y ∷ xs) h = elim (Bool-cases (p y)) [
    | inl here ↦ (y, rw here)
    | inr there ↦ rw there (find-of_any p xs (ground arith))
  ]

  pub any-append : (p : A → Bool) (xs ys : List A) → any p (xs ++ ys) ≡ (any p xs || any p ys)
  unfolding any
  any-append p [] ys = refl
  any-append p (x ∷ xs) ys = ground (arith, any-append p xs ys)

  pub find-upsert_self :
      (p : A → Bool) (merge : A → A) (fresh : A) (xs : List A)
      → ((x : A) → p x ≡ true → p (merge x) ≡ true)
      → p fresh ≡ true
      → find p (upsert p merge fresh xs) ≡ some (merged merge fresh (find p xs))
  unfolding find upsert
  find-upsert_self p merge fresh [] keeps h = rw h
  find-upsert_self p merge fresh (x ∷ xs) keeps h =
      ground (arith, keeps x, find-upsert_self p merge fresh xs keeps h)

  pub find-upsert_ne :
      (p q : A → Bool) (merge : A → A) (fresh : A) (xs : List A)
      → ((x : A) → p x ≡ true → q x ≡ false)
      → ((x : A) → p x ≡ true → q (merge x) ≡ false)
      → q fresh ≡ false
      → find q (upsert p merge fresh xs) ≡ find q xs
  unfolding find upsert
  find-upsert_ne p q merge fresh [] apart kept h = rw h
  find-upsert_ne p q merge fresh (x ∷ xs) apart kept h =
      ground (arith, apart x, kept x, find-upsert_ne p q merge fresh xs apart kept h)

  pub find-update_where :
      (p q : A → Bool) (f : A → A) (xs : List A)
      → ((x : A) → q (f x) ≡ q x)
      → find q (update_where p f xs)
        ≡ elim (find q xs) [ none ↦ none | some x ↦ some (if p x then f x else x) ]
  unfolding find update_where
  find-update_where p q f [] h = refl
  find-update_where p q f (x ∷ xs) h = ground (arith, h x, find-update_where p q f xs h)

  pub any-update_where :
      (p q : A → Bool) (f : A → A) (xs : List A)
      → ((x : A) → q (f x) ≡ q x)
      → any q (update_where p f xs) ≡ any q xs
  unfolding any update_where
  any-update_where p q f [] h = refl
  any-update_where p q f (x ∷ xs) h = ground (arith, h x, any-update_where p q f xs h)

  pub any-delete_where_self : (p : A → Bool) (xs : List A) → any p (delete_where p xs) ≡ false
  unfolding any keep delete_where
  any-delete_where_self p [] = refl
  any-delete_where_self p (x ∷ xs) = ground (arith, any-delete_where_self p xs)

  pub find-delete_where_ne :
      (p q : A → Bool) (xs : List A)
      → ((x : A) → p x ≡ true → q x ≡ false)
      → find q (delete_where p xs) ≡ find q xs
  unfolding find keep delete_where
  find-delete_where_ne p q [] apart = refl
  find-delete_where_ne p q (x ∷ xs) apart =
      ground (arith, apart x, find-delete_where_ne p q xs apart)

  pub any-delete_where_ne :
      (p q : A → Bool) (xs : List A)
      → ((x : A) → p x ≡ true → q x ≡ false)
      → any q (delete_where p xs) ≡ any q xs
  unfolding any keep delete_where
  any-delete_where_ne p q [] apart = refl
  any-delete_where_ne p q (x ∷ xs) apart = ground (arith, apart x, any-delete_where_ne p q xs apart)

  pub any-delete_where :
      (p q : A → Bool) (xs : List A) → any q xs ≡ false → any q (delete_where p xs) ≡ false
  unfolding any keep delete_where
  any-delete_where p q [] h = refl
  any-delete_where p q (x ∷ xs) h = ground (arith, any-delete_where p q xs)

module _ {ℓ κ} {A : Type ℓ} (P : A → Type κ) where
  pub All-delete_where : (p : A → Bool) (xs : List A) → All P xs → All P (delete_where p xs)
  unfolding keep delete_where
  All-delete_where p [] h = tt
  All-delete_where p (x ∷ xs) h = elim (Bool-cases (p x)) [
    | inl gone ↦ rw gone (All-delete_where p xs h.1)
    | inr kept ↦ rw kept (h.0, All-delete_where p xs h.1)
  ]

  pub All-update_where :
      (p : A → Bool) (f : A → A) (xs : List A)
      → ((x : A) → P x → P (f x))
      → All P xs
      → All P (update_where p f xs)
  unfolding update_where
  All-update_where p f [] keeps h = tt
  All-update_where p f (x ∷ xs) keeps h = elim (Bool-cases (p x)) [
    | inl hit ↦ rw hit (keeps x h.0, All-update_where p f xs keeps h.1)
    | inr miss ↦ rw miss (h.0, All-update_where p f xs keeps h.1)
  ]

  pub All-upsert :
      (p : A → Bool) (merge : A → A) (fresh : A) (xs : List A)
      → ((x : A) → P x → P (merge x))
      → P fresh
      → All P xs
      → All P (upsert p merge fresh xs)
  unfolding upsert
  All-upsert p merge fresh [] keeps new h = (new, tt)
  All-upsert p merge fresh (x ∷ xs) keeps new h = elim (Bool-cases (p x)) [
    | inl hit ↦ rw hit (keeps x h.0, h.1)
    | inr miss ↦ rw miss (h.0, All-upsert p merge fresh xs keeps new h.1)
  ]

-- what is left does not satisfy the test
pub All-kept {ℓ κ μ} :
    {A : Type ℓ} (P : A → Type κ) (Q : A → Type μ) (p : A → Bool) (xs : List A)
    → ((x : A) → p x ≡ false → P x → Q x)
    → All P xs
    → All Q (delete_where p xs)
unfolding keep delete_where
All-kept P Q p [] f h = tt
All-kept P Q p (x ∷ xs) f h = elim (Bool-cases (p x)) [
  | inl gone ↦ rw gone (All-kept P Q p xs f h.1)
  | inr kept ↦ rw kept (f x kept h.0, All-kept P Q p xs f h.1)
]

pub All-map {ℓ κ μ} :
    {A : Type ℓ} (P : A → Type κ) (Q : A → Type μ) (xs : List A)
    → ((x : A) → P x → Q x)
    → All P xs
    → All Q xs
All-map P Q [] f h = tt
All-map P Q (x ∷ xs) f h = (f x h.0, All-map P Q xs f h.1)
