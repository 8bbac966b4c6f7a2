-- ===== src/Exec/Keeps.antt =====
-- What a method leaves true of the state, whether it returns a value or an error.
use manga_hub.Prelude.{Result, ok, err, Error}
use manga_hub.Exec.{Exec, pure, raise, continue, ◌>>=◌, or_raise}

pub record Keeps {ℓ} {S A : Type ℓ} (P : S → Type ℓ) (m : Exec S A) : Type ℓ where
  pub after : (s : S) → P s → P (m s).1

module _ {ℓ} {S A : Type ℓ} {P : S → Type ℓ} where
  pub Keeps-pure : (a : A) → Keeps P (pure a)
  Keeps-pure a = record { after = λ s h. h }

  pub Keeps-raise : (e : Error) → Keeps P (raise {A = A} e)
  Keeps-raise e = record { after = λ s h. h }

  pub Keeps-or_raise : (m : Exec S A) (e : Error) → Keeps P m → Keeps P (or_raise m e)
  Keeps-or_raise m e k = record { after = k.after }

module _ {ℓ} {S A B : Type ℓ} {P : S → Type ℓ} where
  continue-after :
      (r : Result A) (f : A → Exec S B) (s : S)
      → ((a : A) → Keeps P (f a))
      → P s
      → P (continue r f s).1
  continue-after (ok a) f s k h = (k a).after s h
  continue-after (err e) f s k h = h

  pub Keeps-bind :
      (m : Exec S A) (f : A → Exec S B) → Keeps P m → ((a : A) → Keeps P (f a)) → Keeps P (m >>= f)
  Keeps-bind m f km kf = record {
    after = λ s h. continue-after (m s).0 f (m s).1 kf (km.after s h);
  }

pub ruleset keeps_rules = (Keeps-pure, Keeps-raise, Keeps-or_raise, Keeps-bind)
