-- ===== src/Prelude/Digits.antt =====
-- What the decimal text of a number is made of, and how strconv.ParseUint reads it.
use Prim.Native.Nat.{ℕ, zero, suc, ◌+◌, ◌-◌, ◌*◌, ◌/◌, ◌%◌, ◌^◌, ◌≤◌, ◌<◌}
use mathlib.Core.Path.{◌≡◌}
use mathlib.Core.Bool.{true}
use mathlib.Core.Logic.{inl, inr}
use mathlib.Core.List.{[], ◌∷◌}
use mathlib.Core.Option.{some}
use native.Mathlib.Omega.{arith}
use opencoda.Prelude.Tests.{ltb, Bool-cases}
use opencoda.Prelude.Lists.{All}
use opencoda.Prelude.Texts.{Text}
use opencoda.Prelude.Decimal.{
  digits_onto, digits_onto-cons, parse_digits-onto, decimal_ℕ, is_digit, parse_digits, uint_digits,
  parse_uint,
}

-- A text of digits.
abbrev pub IsDigits : Text → Type 0
IsDigits = All (λ c. is_digit c ≡ true)

digits_onto-IsDigits : (f n : ℕ) (s : Text) → IsDigits s → IsDigits (digits_onto f n s)
unfolding digits_onto
digits_onto-IsDigits zero n s h = (ground arith, h)
digits_onto-IsDigits (suc f) n s h = elim (Bool-cases (ltb n 10)) [
  | inl small ↦ rw small (ground arith, h)
  | inr large ↦ rw large (digits_onto-IsDigits f (n / 10) ((48 + n % 10) ∷ s) (ground arith, h))
]

pub decimal_ℕ-IsDigits : (n : ℕ) → IsDigits (decimal_ℕ n)
unfolding decimal_ℕ
decimal_ℕ-IsDigits n = digits_onto-IsDigits n n [] tt

-- The digits that are read make the number no smaller.
le_of_parse_digits : (n m : ℕ) (s : Text) → parse_digits n s ≡ some m → n ≤ m
unfolding parse_digits
le_of_parse_digits n m [] e = ground (arith, e)
le_of_parse_digits n m (c ∷ s) e = elim (Bool-cases (is_digit c)) [
  | inl digit ↦
      let after = le_of_parse_digits (n * 10 + (c - 48)) m s (ground (arith, digit, e)) in
      omega (arith, after)
  | inr other ↦ absurd (ground (arith, other, e))
]

uint_digits-parse_digits :
    (n m : ℕ) (s : Text) → m < 2 ^ 64 → parse_digits n s ≡ some m → uint_digits n s ≡ m
unfolding parse_digits uint_digits
uint_digits-parse_digits n m [] h e = ground (arith, e)
uint_digits-parse_digits n m (c ∷ s) h e = elim (Bool-cases (is_digit c)) [
  | inl digit ↦
      let reads : parse_digits (n * 10 + (c - 48)) s ≡ some m = ground (arith, digit, e) in
      ground (
        arith,
        digit,
        le_of_parse_digits (n * 10 + (c - 48)) m s reads,
        uint_digits-parse_digits (n * 10 + (c - 48)) m s h reads,
      )
  | inr other ↦ absurd (ground (arith, other, e))
]

-- A uint64 is read back from its decimal text.
pub parse_uint-decimal_ℕ : (n : ℕ) → n < 2 ^ 64 → parse_uint (decimal_ℕ n) ≡ n
unfolding parse_uint decimal_ℕ parse_digits
parse_uint-decimal_ℕ n h =
    uint_digits-parse_digits 0 n (decimal_ℕ n) h (parse_digits-onto n n [] (omega arith))

-- The decimal text has a first digit.
pub decimal_ℕ-cons : (n : ℕ) → (c : ℕ) × (t : Text) × (decimal_ℕ n ≡ c ∷ t)
unfolding decimal_ℕ
decimal_ℕ-cons n = let (c, t, e, lo, hi) = digits_onto-cons n n [] in (c, t, e)
