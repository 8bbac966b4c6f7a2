-- ===== src/Store/Sql/Keys.antt =====
-- Unique keys: no two rows of a table agree on the key, and which statements keep that so.
use manga_hub.Prelude.{
  String, List, [], ◌∷◌, ◌++◌, Bool, true, false, ◌==◌, ◌&&◌, ◌≡◌, refl, ◌∙◌, ◌↔◌, any, keep, arith,
  Bool-cases, inl, inr, eq_iff,
}
use manga_hub.Store.Sql.{update_where, delete_where, upsert}
use manga_hub.Store.Sql.Rows.{any-delete_where, any-append}

pub record Eq {ℓ} (K : Type ℓ) : Type ℓ where
  pub beq : K → K → Bool
  pub beq_iff : (a b : K) → (beq a b ≡ true) ↔ (a ≡ b)

instance abbrev pub string_eq : Eq String
string_eq = record { beq = ◌==◌; beq_iff = eq_iff }

abbrev pub pair_beq : String × String → String × String → Bool
pair_beq p q = p.0 == q.0 && p.1 == q.1

pub pair_beq_iff : (p q : String × String) → (pair_beq p q ≡ true) ↔ (p ≡ q)
pair_beq_iff p q = ground (arith, eq_iff p.0 q.0, eq_iff p.1 q.1)

instance abbrev pub pair_eq : Eq (String × String)
pair_eq = record { beq = pair_beq; beq_iff = pair_beq_iff }

module _ {ℓ κ} {A : Type ℓ} {K : Type κ} ⦃e : Eq K⦄ (key : A → K) where
  -- the test WHERE key = k
  abbrev pub at : K → A → Bool
  at k x = e.beq (key x) k

  abbrev pub Distinct : List A → Type 0
  Distinct [] = Unit
  Distinct (x ∷ xs) = (any (at (key x)) xs ≡ false) × Distinct xs

  beq_sym : (a b : K) → e.beq a b ≡ false → e.beq b a ≡ false
  beq_sym a b h = ground (arith, e.beq_iff a b, e.beq_iff b a)

  pub Distinct-append :
      (xs : List A) (x : A) → any (at (key x)) xs ≡ false → Distinct xs → Distinct (xs ++ x ∷ [])
  unfolding any
  Distinct-append [] x h d = (refl, tt)
  Distinct-append (y ∷ xs) x h d = (
    ground (
      arith,
      any-append (at (key y)) xs (x ∷ []),
      e.beq_iff (key x) (key y),
      e.beq_iff (key y) (key x),
    ),
    Distinct-append xs x (ground arith) d.1,
  )

  pub Distinct-delete_where :
      (p : A → Bool) (xs : List A) → Distinct xs → Distinct (delete_where p xs)
  unfolding keep delete_where
  Distinct-delete_where p [] d = tt
  Distinct-delete_where p (x ∷ xs) d = elim (Bool-cases (p x)) [
    | inl gone ↦ rw gone (Distinct-delete_where p xs d.1)
    | inr kept ↦ rw kept (
      unfold delete_where in any-delete_where p (at (key x)) xs d.0,
      Distinct-delete_where p xs d.1,
    )
  ]

  module _ (f : A → A) (same : (x : A) → key (f x) ≡ key x) where
    any-update_where_key :
        (p : A → Bool) (k : K) (xs : List A) → any (at k) (update_where p f xs) ≡ any (at k) xs
    unfolding any update_where
    any-update_where_key p k [] = refl
    any-update_where_key p k (x ∷ xs) = ground (arith, same x, any-update_where_key p k xs)

    pub Distinct-update_where :
        (p : A → Bool) (xs : List A) → Distinct xs → Distinct (update_where p f xs)
    unfolding update_where
    Distinct-update_where p [] d = tt
    Distinct-update_where p (x ∷ xs) d = elim (Bool-cases (p x)) [
      | inl hit ↦
          rw (hit, same x, any-update_where_key p (key x) xs) (d.0, Distinct-update_where p xs d.1)
      | inr miss ↦
          rw (miss, any-update_where_key p (key x) xs) (d.0, Distinct-update_where p xs d.1)
    ]

    module _ (fresh : A) where
      any-upsert_ne :
          (k : K) (xs : List A)
          → e.beq (key fresh) k ≡ false
          → any (at k) (upsert (at (key fresh)) f fresh xs) ≡ any (at k) xs
      unfolding any upsert
      any-upsert_ne k [] h = rw h
      any-upsert_ne k (x ∷ xs) h = ground (arith, same x, any-upsert_ne k xs h)

      pub Distinct-upsert :
          (xs : List A) → Distinct xs → Distinct (upsert (at (key fresh)) f fresh xs)
      unfolding upsert
      Distinct-upsert [] d = (unfold any in refl, tt)
      Distinct-upsert (x ∷ xs) d = elim (Bool-cases (at (key fresh) x)) [
        | inl hit ↦ rw hit (rw same (d.0), d.1)
        | inr miss ↦ rw miss (
          any-upsert_ne (key x) xs (beq_sym (key x) (key fresh) miss) ∙ d.0,
          Distinct-upsert xs d.1,
        )
      ]
