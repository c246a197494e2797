-- ===== src/Scheduler/Sort/Insertion.antt =====
-- An insertion sort with the behaviour that Sort asks for.
use mathlib.Core.List.{Mem, Perm}
use mathlib.Core.List.Perm
use opencoda.Prelude.{
  ◌≡◌, inl, inr, Bool, false, List, [], ◌∷◌, arith, if◌then◌else◌, Bool-cases, All, All-of_mem,
}
use opencoda.Scheduler.Sort.{SortSlice, IsWeakOrder, IsSorted}

module _ {A : Type 0} (less : A → A → Bool) where
  unfoldable pub place : A → List A → List A
  place x [] = x ∷ []
  place x (y ∷ ys) = let rest = place x ys in if less y x then y ∷ rest else x ∷ y ∷ ys

  unfoldable pub insertion_sort : List A → List A
  unfolding place
  insertion_sort [] = []
  insertion_sort (x ∷ xs) = place x (insertion_sort xs)

  place-perm : (x : A) (ys : List A) → Perm (place x ys) (x ∷ ys)
  unfolding place
  place-perm x [] = Perm.refl (x ∷ [])
  place-perm x (y ∷ ys) = elim (Bool-cases (less y x)) [
    | inl e ↦ rw e (Perm.trans (Perm.cons y (place-perm x ys)) (Perm.swap x y ys))
    | inr e ↦ rw e (Perm.refl (x ∷ y ∷ ys))
  ]

  pub insertion_sort-perm : (xs : List A) → Perm (insertion_sort xs) xs
  unfolding insertion_sort
  insertion_sort-perm [] = Perm.refl []
  insertion_sort-perm (x ∷ xs) =
      Perm.trans (place-perm x (insertion_sort xs)) (Perm.cons x (insertion_sort-perm xs))

module _ {A : Type 0} (less : A → A → Bool) (P : A → Type 0) (w : IsWeakOrder less P) where
  place-All {κ} : (Q : A → Type κ) (x : A) (ys : List A) → Q x → All Q ys → All Q (place less x ys)
  unfolding place
  place-All Q x [] h k = (h, tt)
  place-All Q x (y ∷ ys) h k = elim (Bool-cases (less y x)) [
    | inl e ↦ rw e (k.0, place-All Q x ys h k.1)
    | inr e ↦ rw e (h, k)
  ]

  not_less_trans :
      (a b c : A) → P a → P b → P c → less b a ≡ false → less c b ≡ false → less c a ≡ false
  not_less_trans a b c pa pb pc h k = let either = w.split c b a pc pb pa in ground (arith, either)

  All-trans :
      (a b : A) (ys : List A)
      → P a
      → P b
      → All P ys
      → less b a ≡ false
      → All (λ y. less y b ≡ false) ys
      → All (λ y. less y a ≡ false) ys
  All-trans a b [] pa pb ps h k = tt
  All-trans a b (y ∷ ys) pa pb ps h k =
      (not_less_trans a b y pa pb ps.0 h k.0, All-trans a b ys pa pb ps.1 h k.1)

  place-IsSorted :
      (x : A) (ys : List A) → P x → All P ys → IsSorted less ys → IsSorted less (place less x ys)
  unfolding place
  place-IsSorted x [] px ps h = (tt, tt)
  place-IsSorted x (y ∷ ys) px ps h = elim (Bool-cases (less y x)) [
    | inl e ↦ rw e (
      place-All (λ z. less z y ≡ false) x ys (w.asymm y x ps.0 px e) h.0,
      place-IsSorted x ys px ps.1 h.1,
    )
    | inr e ↦ rw e ((e, All-trans x y ys px ps.0 ps.1 e h.0), h)
  ]

  insertion_sort-All : (xs : List A) → All P xs → All P (insertion_sort less xs)
  unfolding insertion_sort
  insertion_sort-All [] ps = tt
  insertion_sort-All (x ∷ xs) ps =
      place-All P x (insertion_sort less xs) ps.0 (insertion_sort-All xs ps.1)

  pub insertion_sort-IsSorted : (xs : List A) → All P xs → IsSorted less (insertion_sort less xs)
  unfolding insertion_sort
  insertion_sort-IsSorted [] ps = tt
  insertion_sort-IsSorted (x ∷ xs) ps =
      place-IsSorted x (insertion_sort less xs) ps.0 (insertion_sort-All xs ps.1)
        (insertion_sort-IsSorted xs ps.1)

unfoldable pub insertion : {A : Type 0} → SortSlice A
unfolding insertion_sort
insertion = record {
  sort = insertion_sort;
  sort-perm = insertion_sort-perm;
  sort-IsSorted = λ less xs w.
      insertion_sort-IsSorted less (λ x. Mem x xs) w xs (All-of_mem (λ x. Mem x xs) xs (λ x m. m));
}
