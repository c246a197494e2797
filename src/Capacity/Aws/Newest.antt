-- ===== src/Capacity/Aws/Newest.antt =====
-- Which image latestGPUAMI takes.
use opencoda.Prelude.{
  ◌≡◌, refl, sym, ◌⊎◌, inl, inr, true, false, List, [], ◌∷◌, arith, ltb, Bool-cases, All-mem, Text,
}
use mathlib.Core.List.{Mem, mem-cons_self, not-mem-nil}
use mathlib.Core.List.Perm
use mathlib.Core.Path.{subst}
use opencoda.Results.{ok}
use opencoda.Scheduler.Sort.{SortSlice, IsWeakOrder, IsSorted}
use opencoda.Capacity.Aws.Types.{Image, Ec2, images}
use opencoda.Capacity.Aws.Images.{text_greater, newer, first_id, latest_gpu_ami}

text_greater-asymm : (s t : Text) → text_greater s t ≡ true → text_greater t s ≡ false
unfolding text_greater
text_greater-asymm [] t h = absurd (cc h)
text_greater-asymm (c ∷ s) [] h = refl
text_greater-asymm (c ∷ s) (d ∷ t) h = let rest = text_greater-asymm s t in ground (arith, h, rest)

text_greater-split :
    (s t u : Text) → text_greater s u ≡ true → (text_greater s t ≡ true) ⊎ (text_greater t u ≡ true)
unfolding text_greater
text_greater-split [] t u h = absurd (cc h)
text_greater-split (c ∷ s) [] u h = inl refl
text_greater-split (c ∷ s) (d ∷ t) [] h = inr refl
text_greater-split (c ∷ s) (d ∷ t) (e ∷ u) h = elim (Bool-cases (ltb d c)) [
  | inl dc ↦ inl (rw dc refl)
  | inr dc ↦ elim (Bool-cases (ltb e d)) [
    | inl ed ↦ inr (rw ed refl)
    | inr ed ↦
        let same : text_greater s u ≡ true = ground (arith, h, dc, ed) in
        let cd : ltb c d ≡ false = ground (arith, h, dc, ed) in
        let de : ltb d e ≡ false = ground (arith, h, dc, ed) in
        elim (text_greater-split s t u same) [
          | inl st ↦ inl (rw (dc, cd) st)
          | inr tu ↦ inr (rw (ed, de) tu)
        ]
  ]
]

newer-IsWeakOrder {κ} : (P : Image → Type κ) → IsWeakOrder newer P
newer-IsWeakOrder P = record {
  asymm = λ a b p q. text_greater-asymm a.creation_date b.creation_date;
  split = λ a b c p q r. text_greater-split a.creation_date b.creation_date c.creation_date;
}

newer_irrefl : (a : Image) → newer a a ≡ false
newer_irrefl a = elim (Bool-cases (newer a a)) [
  | inl e ↦ text_greater-asymm a.creation_date a.creation_date e
  | inr e ↦ e
]

List-cases {ℓ} :
    {A : Type ℓ} (xs : List A) → (xs ≡ []) ⊎ ((x : A) × (rest : List A) × (xs ≡ x ∷ rest))
List-cases [] = inl refl
List-cases (x ∷ rest) = inr (x, rest, refl)

module _ {W : Type 0} (ec2 : Ec2 W) (s : SortSlice Image) where
  -- Of the images that EC2 lists for a pattern, the answer is the id of one of them that none of the
  -- others is newer than, or the empty id when there are none.
  pub latest_gpu_ami-newest :
      (pattern : Text) (w : W) (found : List Image)
      → (ec2.describe_images pattern w).1 ≡ images found
      → ((found ≡ []) × ((latest_gpu_ami ec2 s pattern w).1 ≡ ok []))
        ⊎ ((newest : Image) × Mem newest found
            × ((latest_gpu_ami ec2 s pattern w).1 ≡ ok newest.image_id)
            × ((other : Image) → Mem other found → newer other newest ≡ false))
  unfolding latest_gpu_ami
  latest_gpu_ami-newest pattern w found h =
      let after : (latest_gpu_ami ec2 s pattern w).1 ≡ ok (first_id ec2 s (s.sort newer found)) =
        rw (latest_gpu_ami, h) refl in
      elim (List-cases (s.sort newer found)) [
        | inl none_sorted ↦ elim (List-cases found) [
          | inl none_found ↦ inl (none_found, rw (after, none_sorted) refl)
          | inr (x, rest, at) ↦
              let m : Mem x found = subst (Mem x) (sym at) mem-cons_self in
              absurd (
                not-mem-nil
                  (subst (Mem x) none_sorted ((Perm.mem_iff (s.sort-perm newer found)).1 m)))
        ]
        | inr (newest, rest, at) ↦
            let order : IsSorted newer (newest ∷ rest) =
              subst (IsSorted newer) at
                (s.sort-IsSorted newer found (newer-IsWeakOrder (λ x. Mem x found))) in
            let itself = newer_irrefl newest in
            inr (
              newest,
              (Perm.mem_iff (s.sort-perm newer found)).0
                  (subst (Mem newest) (sym at) mem-cons_self),
              rw (after, at) refl,
              (λ other m.
                  All-mem (λ y. newer y newest) (newest ∷ rest) other (itself, order.0)
                    (subst (Mem other) at ((Perm.mem_iff (s.sort-perm newer found)).1 m))),
            )
      ]
