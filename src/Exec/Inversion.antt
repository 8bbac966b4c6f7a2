-- ===== src/Exec/Inversion.antt =====
-- What a chain of steps did before it returned a value.
use manga_hub.Prelude.{Result, ok, err, Error, ◌≡◌, refl}
use manga_hub.Exec.{Exec, continue, ◌>>=◌, or_raise, replace_error, lift}

module _ {ℓ} {S A B : Type ℓ} where
  continue-eq-ok :
      (x : Result A × S) (f : A → Exec S B) {b : B} {s' : S}
      → continue x.0 f x.1 ≡ (ok b, s')
      → (a : A) × (s₁ : S) × (x ≡ (ok a, s₁)) × (f a s₁ ≡ (ok b, s'))
  continue-eq-ok (ok a, s₁) f h = (a, s₁, refl, h)
  continue-eq-ok (err e, s₁) f h = cc

  pub bind-eq-ok :
      (m : Exec S A) (f : A → Exec S B) (s : S) {b : B} {s' : S}
      → (m >>= f) s ≡ (ok b, s')
      → (a : A) × (s₁ : S) × (m s ≡ (ok a, s₁)) × (f a s₁ ≡ (ok b, s'))
  bind-eq-ok m f s h = continue-eq-ok (m s) f h

  pub lift-eq-ok :
      (x : Result A) (f : A → Exec S B) (s : S) {b : B} {s' : S}
      → (lift x >>= f) s ≡ (ok b, s')
      → (a : A) × (x ≡ ok a) × (f a s ≡ (ok b, s'))
  lift-eq-ok (ok a) f s h = (a, refl, h)
  lift-eq-ok (err e) f s h = cc

module _ {ℓ} {S A : Type ℓ} where
  or_raise-replaced :
      (x : Result A × S) (e : Error) {a : A} {s' : S}
      → ◌≡◌ {A = Result A × S} (replace_error e x.0, x.1) (ok a, s')
      → x ≡ (ok a, s')
  or_raise-replaced (ok b, s₁) e h = h
  or_raise-replaced (err _, s₁) e h = cc

  pub or_raise-eq-ok :
      (m : Exec S A) (e : Error) (s : S) {a : A} {s' : S}
      → or_raise m e s ≡ (ok a, s')
      → m s ≡ (ok a, s')
  or_raise-eq-ok m e s h = or_raise-replaced (m s) e h
