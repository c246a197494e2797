-- ===== src/Floats.antt =====
-- The float64 operations that the program uses. IEEE arithmetic is the processor's: it is an
-- argument of every definition that computes with floats.
pub mod Sample
use opencoda.Prelude.{ℕ, ℤ, Bool}
use opencoda.Api.{Float64}

pub record FloatOps : Type 0 where
  pub add : Float64 → Float64 → Float64
  pub sub : Float64 → Float64 → Float64
  pub mul : Float64 → Float64 → Float64
  pub div : Float64 → Float64 → Float64
  -- x < y
  pub less : Float64 → Float64 → Bool
  -- x == y
  pub equal : Float64 → Float64 → Bool
  -- float64(n)
  pub of_int : ℤ → Float64
  -- int(x)
  pub trunc : Float64 → ℤ
  -- The float64 nearest to n / d: the source's decimal constants.
  pub ratio : ℕ → ℕ → Float64
