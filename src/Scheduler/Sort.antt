-- ===== src/Scheduler/Sort.antt =====
-- The documented behaviour of sort.Slice: it permutes its argument, and where the comparison is a
-- strict weak order of its elements, none of the result is less than one before it. Equal elements may come in any order.
pub mod Insertion
use opencoda.Prelude.{Bool, true, false, List, [], ◌∷◌, ◌≡◌, ◌⊎◌, All}
use mathlib.Core.List.{Mem, Perm}

-- A strict weak order of the elements with `P`.
pub record IsWeakOrder {ℓ κ} {A : Type ℓ} (less : A → A → Bool) (P : A → Type κ)
    : Type (ℓ ⊔ κ) where
  pub asymm : (a b : A) → P a → P b → less a b ≡ true → less b a ≡ false
  pub split :
      (a b c : A) → P a → P b → P c → less a c ≡ true → (less a b ≡ true) ⊎ (less b c ≡ true)

abbrev pub IsSorted {ℓ} : {A : Type ℓ} → (A → A → Bool) → List A → Type ℓ
IsSorted less [] = Unit
IsSorted less (x ∷ xs) = All (λ y. less y x ≡ false) xs × IsSorted less xs

pub record SortSlice (A : Type 0) : Type 0 where
  pub sort : (A → A → Bool) → List A → List A
  pub sort-perm : (less : A → A → Bool) (xs : List A) → Perm (sort less xs) xs
  pub sort-IsSorted :
      (less : A → A → Bool) (xs : List A)
      → IsWeakOrder less (λ x. Mem x xs)
      → IsSorted less (sort less xs)
