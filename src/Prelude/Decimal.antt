-- ===== src/Prelude/Decimal.antt =====
-- fmt's %d, strconv.Atoi and strconv.ParseUint(s, 10, 64).
use Prim.Native.Nat.{ℕ, zero, suc, ◌+◌, ◌-◌, ◌*◌, ◌/◌, ◌%◌, ◌^◌, ◌≤◌, ◌<◌}
use mathlib.Core.Path.{◌≡◌, refl, ◌∙◌}
use mathlib.Core.Logic.{inl, inr}
use mathlib.Core.Bool.{Bool, ◌&&◌}
use mathlib.Core.List.{[], ◌∷◌}
use mathlib.Core.Option.{Option, none, some}
use native.Mathlib.Omega.{arith}
use opencoda.Prelude.Tests.{ltb, leb, nat_beq, Bool-cases, if◌then◌else◌}
use opencoda.Prelude.Int.{ℤ, pos, negsuc}
use opencoda.Prelude.Texts.{Text}

-- The digits of a number in front of a text; the fuel bounds the number.
unfoldable pub digits_onto : ℕ → ℕ → Text → Text
digits_onto zero n s = (48 + n % 10) ∷ s
digits_onto (suc f) n s =
    let more = digits_onto f (n / 10) ((48 + n % 10) ∷ s) in if ltb n 10 then (48 + n) ∷ s else more

unfoldable pub decimal_ℕ : ℕ → Text
unfolding digits_onto
decimal_ℕ n = digits_onto n n []

unfoldable pub decimal : ℤ → Text
unfolding decimal_ℕ
decimal (pos n) = decimal_ℕ n
decimal (negsuc n) = b'-' ∷ decimal_ℕ (suc n)

abbrev pub is_digit : ℕ → Bool
is_digit c = leb 48 c && leb c 57

unfoldable pub parse_digits : ℕ → Text → Option ℕ
parse_digits n [] = some n
parse_digits n (c ∷ s) =
    let rest = parse_digits (n * 10 + (c - 48)) s in if is_digit c then rest else none

unfoldable pub parse_ℕ : Text → Option ℕ
unfolding parse_digits
parse_ℕ [] = none
parse_ℕ (c ∷ s) = parse_digits 0 (c ∷ s)

abbrev in_range : ℕ → (ℕ → ℤ) → Option ℕ → Option ℤ
in_range limit f none = none
in_range limit f (some n) = if leb n limit then some (f n) else none

abbrev negate : ℕ → ℤ
negate zero = pos 0
negate (suc n) = negsuc n

unfoldable pub atoi : Text → Option ℤ
unfolding parse_ℕ
atoi [] = none
atoi (c ∷ s) =
    if nat_beq c b'-'
    then in_range (2 ^ 63) negate (parse_ℕ s)
    else if nat_beq c b'+'
    then in_range (2 ^ 63 - 1) pos (parse_ℕ s)
    else in_range (2 ^ 63 - 1) pos (parse_ℕ (c ∷ s))

-- The value that comes with or without an error: 0 for bad syntax, the greatest for an overflow,
-- which is found before any bad character behind it.
unfoldable pub uint_digits : ℕ → Text → ℕ
uint_digits n [] = n
uint_digits n (c ∷ s) =
    let next = uint_digits (n * 10 + (c - 48)) s in
    if is_digit c then (if leb (2 ^ 64) (n * 10 + (c - 48)) then 2 ^ 64 - 1 else next) else 0

unfoldable pub parse_uint : Text → ℕ
unfolding uint_digits
parse_uint s = uint_digits 0 s

-- Reading the digits of `n` comes to `n`, whatever follows.
pub parse_digits-onto :
    (f n : ℕ) (s : Text) → n ≤ f → parse_digits 0 (digits_onto f n s) ≡ parse_digits n s
unfolding parse_digits digits_onto
parse_digits-onto zero n s h = ground arith
parse_digits-onto (suc f) n s h = elim (Bool-cases (ltb n 10)) [
  | inl small ↦ rw small (ground arith)
  | inr large ↦
      rw large (parse_digits-onto f (n / 10) ((48 + n % 10) ∷ s) (ground arith) ∙ ground arith)
]

pub digits_onto-cons :
    (f n : ℕ) (s : Text) → (c : ℕ) × (t : Text) × (digits_onto f n s ≡ c ∷ t) × (48 ≤ c) × (c ≤ 57)
unfolding digits_onto
digits_onto-cons zero n s = (48 + n % 10, s, refl, omega arith, omega arith)
digits_onto-cons (suc f) n s =
    let (c, t, e, lo, hi) = digits_onto-cons f (n / 10) ((48 + n % 10) ∷ s) in
    elim (Bool-cases (ltb n 10)) [
      | inl small ↦ (48 + n, s, rw small, omega arith, ground arith)
      | inr large ↦ (c, t, rw large e, lo, hi)
    ]

pub parse_ℕ-decimal_ℕ : (n : ℕ) → parse_ℕ (decimal_ℕ n) ≡ some n
unfolding parse_ℕ decimal_ℕ
parse_ℕ-decimal_ℕ n =
    let (c, t, e, lo, hi) = digits_onto-cons n n [] in
    ground (arith, e, parse_digits-onto n n [] (omega arith))

-- An int64 is read back from its decimal text.
pub atoi-decimal_pos : (n : ℕ) → n < 2 ^ 63 → atoi (decimal (pos n)) ≡ some (pos n)
unfolding atoi decimal
atoi-decimal_pos n h =
    let (c, t, e, lo, hi) = digits_onto-cons n n [] in ground (arith, e, parse_ℕ-decimal_ℕ n)

pub atoi-decimal_negsuc : (n : ℕ) → n < 2 ^ 63 → atoi (decimal (negsuc n)) ≡ some (negsuc n)
unfolding atoi decimal
atoi-decimal_negsuc n h = ground (arith, parse_ℕ-decimal_ℕ (suc n))
