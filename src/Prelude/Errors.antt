-- ===== src/Prelude/Errors.antt =====
-- Go's `error` values and the pair `(value, error)`.
use Prim.Native.String.{String}
use mathlib.Core.Path.{◌≡◌, refl}
use mathlib.Core.Logic.{◌⊎◌, inl, inr}
use manga_hub.Prelude.Int.{ℤ}

-- The constructors of `Error` are the ways the program makes an error; `wrap t e` is
-- `fmt.Errorf("t: %w", e)`, and
-- `panic t` is a run-time panic, which ends the request.
pub data Error : Type 0 where
  no_rows : Error
  failure : String → Error
  new : String → Error
  panic : String → Error
  wrap : String → Error → Error
  not_in_library : String → Error
  chapter_exceeds : ℤ → ℤ → Error
  chapter_behind : ℤ → ℤ → Error
  volume_behind : ℤ → ℤ → Error
  unsupported_type : String → Error
  unsupported_source : String → Error
  both_failed : Error → Error → Error

pub data Result {ℓ} (A : Type ℓ) : Type ℓ where
  ok : A → Result A
  err : Error → Result A

pub Result-cases {ℓ} :
    {A : Type ℓ} (r : Result A) → ((a : A) × (r ≡ ok a)) ⊎ ((e : Error) × (r ≡ err e))
Result-cases (ok a) = inl (a, refl)
Result-cases (err e) = inr (e, refl)
