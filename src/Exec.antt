-- ===== src/Exec.antt =====
-- A Go method with an `error` result on a shared state: what was written before an error stays
-- written, so the state comes back beside the error too.
pub mod Keeps
pub mod Inversion
use manga_hub.Prelude.{Result, ok, err, Error, ◌≡◌, refl}

abbrev pub Exec {ℓ} : Type ℓ → Type ℓ → Type ℓ
Exec S A = S → Result A × S

module _ {ℓ} {S A : Type ℓ} where
  abbrev pub pure : A → Exec S A
  pure a s = (ok a, s)

  abbrev pub raise : Error → Exec S A
  raise e s = (err e, s)

  abbrev pub lift : Result A → Exec S A
  lift r s = (r, s)

  -- the pair `(value, err)` for a caller that tests `err` itself
  abbrev pub caught : Exec S A → Exec S (Result A)
  caught m s = (ok (m s).0, (m s).1)

module _ {ℓ} {S A B : Type ℓ} where
  abbrev pub continue : Result A → (A → Exec S B) → Exec S B
  continue (ok a) f s = f a s
  continue (err e) f s = (err e, s)

  infixl 10 ◌>>=◌ ◌>>◌
  -- `if err != nil { return err }` after each step
  abbrev pub ◌>>=◌ : Exec S A → (A → Exec S B) → Exec S B
  ◌>>=◌ m f s = continue (m s).0 f (m s).1

  abbrev pub ◌>>◌ : Exec S A → Exec S B → Exec S B
  m >> n = m >>= λ _. n

abbrev pub replace_error {ℓ} : {A : Type ℓ} → Error → Result A → Result A
replace_error e (ok a) = ok a
replace_error e (err _) = err e

module _ {ℓ} {S A : Type ℓ} where
  -- the caller returns an error of its own in place of the callee's
  abbrev pub or_raise : Exec S A → Error → Exec S A
  or_raise m e s = (replace_error e (m s).0, (m s).1)
