-- ===== src/Prelude/Members.antt =====
-- Lists and their members.
use mathlib.Core.Path.{◌≡◌, refl, sym, ap, ◌∙◌}
use mathlib.Core.Bool.{Bool, true, false, Bool-set}
use mathlib.Core.List.{
  List, [], ◌∷◌, Mem, not-mem-nil, mem-cons_self, mem-cons_of_mem, eq-or-mem_of_mem-cons,
}
use mathlib.Core.Logic.Or
use opencoda.Prelude.Lists.{All, any}
use native.Mathlib.Omega.{arith}

-- What a test denies of all elements it denies of each.
pub All-mem {ℓ} :
    {A : Type ℓ} (f : A → Bool) (xs : List A) (x : A)
    → All (λ y. f y ≡ false) xs
    → Mem x xs
    → f x ≡ false
All-mem f [] x h m = absurd (not-mem-nil m)
All-mem f (y ∷ xs) x h m =
    Or.elim (Bool-set (f x) false) (eq-or-mem_of_mem-cons m) (λ e. ap f e ∙ h.0)
      (λ k. All-mem f xs x h.1 k)

-- What holds of each element holds of all.
pub All-of_mem {ℓ κ} :
    {A : Type ℓ} (P : A → Type κ) (xs : List A) → ((x : A) → Mem x xs → P x) → All P xs
All-of_mem P [] h = tt
All-of_mem P (x ∷ xs) h = (h x mem-cons_self, All-of_mem P xs (λ y m. h y (mem-cons_of_mem x m)))

pub any_of_mem {ℓ} :
    {A : Type ℓ} (f : A → Bool) (xs : List A) (x : A) → Mem x xs → f x ≡ true → any f xs ≡ true
any_of_mem f [] x m h = absurd (not-mem-nil m)
any_of_mem f (y ∷ xs) x m h =
    Or.elim (Bool-set (any f (y ∷ xs)) true) (eq-or-mem_of_mem-cons m)
      (λ e. let same : f y ≡ true = sym (ap f e) ∙ h in rw same refl)
      (λ k. let rest = any_of_mem f xs x k h in ground (arith, rest))

pub any-All {ℓ} :
    {A : Type ℓ} (f : A → Bool) (xs : List A) → All (λ x. f x ≡ false) xs → any f xs ≡ false
any-All f [] h = refl
any-All f (x ∷ xs) h = rw (h.0, any-All f xs h.1) refl
