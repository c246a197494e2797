-- ===== src/Results.antt =====
-- Go's error values and the pair (value, error). `ice` is capacity.ErrICE of pkg/capacity/errors.go;
-- `not_found` and `already_exists` are the classes of API errors that the program tells apart.
use opencoda.Prelude.{Text, Bool, true, false, ◌≡◌, refl, ◌⊎◌, inl, inr}

pub data Error : Type 0 where
  ice not_found already_exists : Error
  message : Text → Error

pub data Result {ℓ} (A : Type ℓ) : Type ℓ where
  ok : A → Result A
  err : Error → Result A

-- capacity.IsICE
unfoldable pub is_ice : Error → Bool
is_ice ice = true
is_ice _ = false

infixl 5 ◌>>=◌
abbrev pub ◌>>=◌ {ℓ κ} : {A : Type ℓ} {B : Type κ} → Result A → (A → Result B) → Result B
ok a >>= f = f a
err e >>= f = err e

pub Result-cases {ℓ} :
    {A : Type ℓ} (r : Result A) → ((e : Error) × (r ≡ err e)) ⊎ ((a : A) × (r ≡ ok a))
Result-cases (err e) = inl (e, refl)
Result-cases (ok a) = inr (a, refl)
