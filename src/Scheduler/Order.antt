-- ===== src/Scheduler/Order.antt =====
-- What a plan of greedy.go promises for the pools as they are given, before they are sorted.
use mathlib.Core.List.{Mem, Perm, mem-cons_self, mem-cons_of_mem}
use mathlib.Core.List.Perm
use mathlib.Core.List.{Permᴰ}
use mathlib.Core.Logic.{∥∥₁_elim}
use native.Mathlib.Decide.{ℕ_discrete}
use opencoda.Prelude.{
  ◌≡◌, refl, ap, ◌∙◌, inl, inr, Bool, false, List, [], ◌∷◌, ◌++◌, arith, if◌then◌else◌, All, ◌+ℤ◌,
  ◌-ℤ◌, ◌≤ℤ◌, ◌<ℤ◌, leb_ℤ, min_ℤ, max_ℤ, ≤ℤ_cases, min_ℤ_left, max_ℤ_left, max_ℤ_right, min_ℤ_glb,
  leb_ℤ-true, leb_ℤ-false, ℤ, int_laws, pos, cut,
}
use opencoda.Floats.{FloatOps}
use opencoda.Results.{ok}
use opencoda.Scheduler.Types.{PoolView, PlanEntry, Plan}
use opencoda.Scheduler.Sort.{SortSlice, IsWeakOrder, IsSorted}
use opencoda.Scheduler.Greedy.{cheaper, fill_loop, fill}
use opencoda.Scheduler.Filling.{
  usable, usable_sum, granted, full, usable_sum_nonneg, fill_loop_done, fill_loop_skip,
  fill_loop_take, fill_loop_empty, granted-fill_loop, fill_loop_enough, fill_loop_short,
}

add_swap : (a b c : ℤ) → a +ℤ (b +ℤ c) ≡ b +ℤ (a +ℤ c)
add_swap a b c = omega int_laws

ℤ_discrete : Discrete ℤ
ℤ_discrete = hlevel ℕ_discrete

ℤ_set : IsSet ℤ
ℤ_set = hlevel ℕ_discrete

usable_sum-permᴰ : {ps qs : List PoolView} → Permᴰ ps qs → usable_sum ps ≡ usable_sum qs
usable_sum-permᴰ Permᴰ.nil = refl
usable_sum-permᴰ (Permᴰ.cons e p) = cc (usable_sum-permᴰ p)
usable_sum-permᴰ (Permᴰ.swap {a = a} {b = b} {l = l} e f) =
    rw (← e, ← f) (add_swap (usable a) (usable b) (usable_sum l))
usable_sum-permᴰ (Permᴰ.trans p q) = usable_sum-permᴰ p ∙ usable_sum-permᴰ q

usable_sum-perm : {ps qs : List PoolView} → Perm ps qs → usable_sum ps ≡ usable_sum qs
usable_sum-perm {ps} {qs} p = ∥∥₁_elim p (ℤ_set (usable_sum ps) (usable_sum qs)) usable_sum-permᴰ

-- Where an entry of a plan comes from.
abbrev pub ComesFrom : List PoolView → PlanEntry → Type 0
ComesFrom pools e =
    (p : PoolView) × Mem p pools
    × (e.pool_name ≡ p.name)
    × (pos 0 <ℤ e.node_count)
    × (e.node_count ≤ℤ usable p)

ComesFrom-mono :
    {ps qs : List PoolView} (es : List PlanEntry)
    → ((p : PoolView) → Mem p ps → Mem p qs)
    → All (ComesFrom ps) es
    → All (ComesFrom qs) es
ComesFrom-mono [] sub h = tt
ComesFrom-mono (e ∷ es) sub ((p, m, n, g, l), hs) =
    ((p, sub p m, n, g, l), ComesFrom-mono es sub hs)

fill_loop-ComesFrom : (r : ℤ) (ps : List PoolView) → All (ComesFrom ps) (fill_loop r ps)
fill_loop-ComesFrom r [] = rw (fill_loop_empty r) tt
fill_loop-ComesFrom r (p ∷ ps) = elim (≤ℤ_cases (usable p) (pos 0)) [
  | inl none_left ↦
      rw (fill_loop_skip r p ps none_left)
        (ComesFrom-mono (fill_loop r ps) (λ q. mem-cons_of_mem p) (fill_loop-ComesFrom r ps))
  | inr room ↦ elim (≤ℤ_cases r (pos 0)) [
    | inl done ↦ rw (fill_loop_done r (p ∷ ps) done) tt
    | inr more ↦ rw (fill_loop_take r p ps room more) (
      (p, mem-cons_self, refl, ground arith, ground arith),
      ComesFrom-mono (fill_loop (r -ℤ min_ℤ (usable p) r) ps) (λ q. mem-cons_of_mem p)
          (fill_loop-ComesFrom (r -ℤ min_ℤ (usable p) r) ps),
    )
  ]
]

All-drop {ℓ κ} : {A : Type ℓ} (P : A → Type κ) (xs ys : List A) → All P (xs ++ ys) → All P ys
All-drop P [] ys h = h
All-drop P (x ∷ xs) ys h = All-drop P xs ys h.1

All-push {ℓ} :
    {A : Type ℓ} (less : A → A → Bool) (x : A) (xs ys : List A)
    → All (λ y. less y x ≡ false) ys
    → All (λ y. All (λ z. less y z ≡ false) xs) ys
    → All (λ y. All (λ z. less y z ≡ false) (x ∷ xs)) ys
All-push less x xs [] h k = tt
All-push less x xs (y ∷ ys) h k = ((h.0, k.0), All-push less x xs ys h.1 k.1)

IsSorted-append {ℓ} :
    {A : Type ℓ} (less : A → A → Bool) (xs ys : List A)
    → IsSorted less (xs ++ ys)
    → All (λ y. All (λ x. less y x ≡ false) xs) ys
IsSorted-append less [] [] h = tt
IsSorted-append less [] (y ∷ ys) h = (tt, IsSorted-append less [] ys h.1)
IsSorted-append less (x ∷ xs) ys h =
    All-push less x xs ys (All-drop (λ y. less y x ≡ false) xs ys h.0)
      (IsSorted-append less xs ys h.1)

module _ (fl : FloatOps) (s : SortSlice PoolView) where
  -- For every need, `fill` returns a plan, and the nodes of the plan add up to the need or to all
  -- that the pools can take, whichever is less, and to nothing if the need is not positive.
  pub granted-fill :
      (need : ℤ) (pools : List PoolView)
      → (plan : Plan) × (fill fl s need pools ≡ ok plan)
        × (granted plan.entries ≡ max_ℤ (pos 0) (min_ℤ need (usable_sum pools)))
  unfolding fill
  granted-fill need pools = elim (≤ℤ_cases need (pos 0)) [
    | inl nothing ↦ (
      record { entries = [] },
      rw (leb_ℤ-true need (pos 0) nothing),
      rw (
        min_ℤ_left need (usable_sum pools) (omega (arith, usable_sum_nonneg pools)),
        max_ℤ_left (pos 0) need nothing,
      ),
    )
    | inr some_need ↦ (
      record { entries = fill_loop need (s.sort (cheaper fl) pools) },
      rw (leb_ℤ-false need (pos 0) some_need),
      rw (
        granted-fill_loop need (s.sort (cheaper fl) pools) (omega arith),
        usable_sum-perm (s.sort-perm (cheaper fl) pools),
        max_ℤ_right (pos 0) (min_ℤ need (usable_sum pools))
            (min_ℤ_glb (pos 0) need (usable_sum pools) (omega arith) (usable_sum_nonneg pools)),
      ),
    )
  ]

  -- Every entry of the plan is of a pool that was given, and takes at least one node and at most
  -- what that pool can take.
  pub fill-ComesFrom :
      (need : ℤ) (pools : List PoolView) (plan : Plan)
      → fill fl s need pools ≡ ok plan
      → All (ComesFrom pools) plan.entries
  unfolding fill
  fill-ComesFrom need pools plan e = elim (≤ℤ_cases need (pos 0)) [
    | inl nothing ↦
        let h : plan.entries ≡ [] = ground (arith, leb_ℤ-true need (pos 0) nothing) in rw h tt
    | inr some_need ↦
        let h : plan.entries ≡ fill_loop need (s.sort (cheaper fl) pools) =
          ground (arith, leb_ℤ-false need (pos 0) some_need) in
        rw h (
          ComesFrom-mono (fill_loop need (s.sort (cheaper fl) pools))
            (λ q. (Perm.mem_iff (s.sort-perm (cheaper fl) pools)).0)
            (fill_loop-ComesFrom need (s.sort (cheaper fl) pools)))
  ]

  -- When the comparison of costs is a strict weak order of the pools that are given, as it is where
  -- none of their costs is a NaN, cut these pools in order of cost into `xs` and `ys`. No pool of
  -- `ys` is cheaper than one of `xs`; if `xs` can take the need, the plan is that for `xs` alone;
  -- and if it cannot, the plan fills up each pool of `xs` and leaves the rest of the need to `ys`.
  pub fill_cheapest_first :
      (need : ℤ) (pools xs ys : List PoolView) (plan : Plan)
      → IsWeakOrder (cheaper fl) (λ p. Mem p pools)
      → pos 0 <ℤ need
      → s.sort (cheaper fl) pools ≡ xs ++ ys
      → fill fl s need pools ≡ ok plan
      → All (λ y. All (λ x. cheaper fl y x ≡ false) xs) ys
        × (plan.entries ≡ (
            if leb_ℤ need (usable_sum xs)
            then fill_loop need xs
            else full xs ++ fill_loop (need -ℤ usable_sum xs) ys))
  unfolding fill
  fill_cheapest_first need pools xs ys plan w n cut e =
      let h : plan.entries ≡ fill_loop need (xs ++ ys) =
        ground (arith, leb_ℤ-false need (pos 0) n, ap (fill_loop need) cut) in
      (
        IsSorted-append (cheaper fl) xs ys (rw cut at (s.sort-IsSorted (cheaper fl) pools w)),
        elim (≤ℤ_cases need (usable_sum xs)) [
          | inl fits ↦
              rw (leb_ℤ-true need (usable_sum xs) fits) (h ∙ fill_loop_enough need xs ys fits)
          | inr over ↦
              rw (leb_ℤ-false need (usable_sum xs) over)
                (h ∙ fill_loop_short need xs ys (omega arith))
        ],
      )
