-- ===== src/Store/Sql.antt =====
-- What the SQL statements of pkg/database do with the rows of a table: WHERE, UPDATE, DELETE and
-- INSERT … ON CONFLICT DO UPDATE, over a list of rows in row-id order.
pub mod Rows
pub mod Keys
use manga_hub.Prelude.{String, List, [], ◌∷◌, Bool, not, ◌==◌, ◌&&◌, if◌then◌else◌, keep, map, any}

module _ {ℓ} {A : Type ℓ} where
  -- UPDATE … SET f WHERE p
  unfoldable pub update_where : (A → Bool) → (A → A) → List A → List A
  update_where p f [] = []
  update_where p f (x ∷ xs) = (if p x then f x else x) ∷ update_where p f xs

  -- DELETE … WHERE p
  unfoldable pub delete_where : (A → Bool) → List A → List A
  delete_where p xs = keep (λ x. not (p x)) xs

  -- INSERT … ON CONFLICT DO UPDATE: `conflicts` is the test of the unique key
  unfoldable pub upsert : (A → Bool) → (A → A) → A → List A → List A
  upsert conflicts merge fresh [] = fresh ∷ []
  upsert conflicts merge fresh (x ∷ xs) =
      if conflicts x then merge x ∷ xs else x ∷ upsert conflicts merge fresh xs
