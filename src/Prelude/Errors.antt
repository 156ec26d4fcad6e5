-- ===== src/Prelude/Errors.antt =====
-- Go errors as values, and the result of a call that can fail.
use Prim.Native.String.{String}
use mathlib.Core.Bool.{Bool, true, false}
use mathlib.Core.Path.{◌≡◌, refl}
use mathlib.Core.Logic.{◌⊎◌, inl, inr}

-- `wrapped` is `fmt.Errorf("prefix: %w", err)`, and `no_rows` is `sql.ErrNoRows`.
pub data Error : Type 0 where
  no_rows : Error
  redis_nil : Error
  message : String → Error
  invalid_argument : String → Error
  internal : Error → Error
  wrapped : String → Error → Error

-- `errors.Is(err, sql.ErrNoRows)` looks through the wrapping. A status error hides its cause.
unfoldable pub is_no_rows : Error → Bool
is_no_rows no_rows = true
is_no_rows (wrapped prefix e) = is_no_rows e
is_no_rows _ = false

pub data Result {ℓ} (A : Type ℓ) : Type ℓ where
  ok : A → Result A
  err : Error → Result A

infixl 5 ◌>>=◌
abbrev pub ◌>>=◌ {ℓ κ} : {A : Type ℓ} {B : Type κ} → Result A → (A → Result B) → Result B
ok a >>= f = f a
err e >>= f = err e

pub Result-cases {ℓ} :
    {A : Type ℓ} (r : Result A) → ((a : A) × (r ≡ ok a)) ⊎ ((e : Error) × (r ≡ err e))
Result-cases (ok a) = inl (a, refl)
Result-cases (err e) = inr (e, refl)
