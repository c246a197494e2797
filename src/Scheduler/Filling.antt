-- ===== src/Scheduler/Filling.antt =====
-- The loop of greedy.go against the room of the pools: how much a plan takes from a list of pools.
use opencoda.Prelude.{
  ◌≡◌, refl, sym, ap, ◌∙◌, inl, inr, ◌&&◌, List, [], ◌∷◌, ◌++◌, arith, if◌then◌else◌, ◌+ℤ◌, ◌-ℤ◌,
  ◌≤ℤ◌, ◌<ℤ◌, ltb_ℤ, leb_ℤ, min_ℤ, ≤ℤ_cases, min_ℤ_left, min_ℤ_right, sub_sub, sub_zero, ℤ,
  int_laws, pos,
}
use opencoda.Scheduler.Types.{PoolView, PlanEntry}
use opencoda.Scheduler.Greedy.{fill_loop}

-- What a pool can still take: below its limit, at most what the provider offers, if it says so.
pub usable : PoolView → ℤ
usable p =
    let free = p.max_nodes -ℤ p.current_nodes in
    if leb_ℤ free (pos 0)
    then pos 0
    else if ltb_ℤ (pos 0) p.available && ltb_ℤ p.available free
    then p.available
    else free

abbrev pub usable_sum : List PoolView → ℤ
usable_sum [] = pos 0
usable_sum (p ∷ ps) = usable p +ℤ usable_sum ps

abbrev pub granted : List PlanEntry → ℤ
granted [] = pos 0
granted (e ∷ es) = e.node_count +ℤ granted es

-- The entries that use up every pool of a list.
abbrev pub full : List PoolView → List PlanEntry
full [] = []
full (p ∷ ps) =
    let rest = full ps in
    if leb_ℤ (usable p) (pos 0)
    then rest
    else record { pool_name = p.name; node_count = usable p } ∷ rest

pub usable_nonneg : (p : PoolView) → pos 0 ≤ℤ usable p
unfolding usable
usable_nonneg p = ground arith

pub usable_sum_nonneg : (ps : List PoolView) → pos 0 ≤ℤ usable_sum ps
usable_sum_nonneg [] = omega arith
usable_sum_nonneg (p ∷ ps) = omega (int_laws, usable_nonneg p, usable_sum_nonneg ps)

-- One round of the loop, by cases on what is left and on what the pool can take.
pub fill_loop_done : (r : ℤ) (ps : List PoolView) → r ≤ℤ pos 0 → fill_loop r ps ≡ []
unfolding fill_loop
fill_loop_done r [] h = refl
fill_loop_done r (p ∷ ps) h = ground arith

pub fill_loop_skip :
    (r : ℤ) (p : PoolView) (ps : List PoolView)
    → usable p ≤ℤ pos 0
    → fill_loop r (p ∷ ps) ≡ fill_loop r ps
unfolding fill_loop usable
fill_loop_skip r p ps h = ground (arith, fill_loop_done r ps)

pub fill_loop_take :
    (r : ℤ) (p : PoolView) (ps : List PoolView)
    → pos 0 <ℤ usable p
    → pos 0 <ℤ r
    → fill_loop r (p ∷ ps)
      ≡ record { pool_name = p.name; node_count = min_ℤ (usable p) r }
        ∷ fill_loop (r -ℤ min_ℤ (usable p) r) ps
unfolding fill_loop usable
fill_loop_take r p ps h k = ground arith

sub_min_nonneg : (u r : ℤ) → pos 0 ≤ℤ r -ℤ min_ℤ u r
sub_min_nonneg u r = elim (≤ℤ_cases r u) [
  | inl le ↦ rw (min_ℤ_right u r le) (omega int_laws)
  | inr gt ↦ rw (min_ℤ_left u r (omega arith)) (omega int_laws)
]

sub_min-le : (u r s : ℤ) → r ≤ℤ u +ℤ s → pos 0 ≤ℤ s → r -ℤ min_ℤ u r ≤ℤ s
sub_min-le u r s h k = elim (≤ℤ_cases r u) [
  | inl le ↦ rw (min_ℤ_right u r le) (omega int_laws)
  | inr gt ↦ rw (min_ℤ_left u r (omega arith)) (omega int_laws)
]

-- Taking from one pool and then from the others is taking from them all.
min_ℤ-step :
    (u r s : ℤ)
    → pos 0 ≤ℤ r
    → pos 0 ≤ℤ s
    → (min_ℤ u r +ℤ min_ℤ (r -ℤ min_ℤ u r) s) ≡ min_ℤ r (u +ℤ s)
min_ℤ-step u r s h k = elim (≤ℤ_cases r u) [
  | inl le ↦
      rw
        (
          min_ℤ_right u r le,
          min_ℤ_left (r -ℤ r) s (omega int_laws),
          min_ℤ_left r (u +ℤ s) (omega int_laws),
        )
        (omega int_laws)
  | inr gt ↦ elim (≤ℤ_cases (r -ℤ u) s) [
    | inl fits ↦
        rw
          (
            min_ℤ_left u r (omega arith),
            min_ℤ_left (r -ℤ u) s fits,
            min_ℤ_left r (u +ℤ s) (omega int_laws),
          )
          (omega int_laws)
    | inr over ↦
        rw
          (
            min_ℤ_left u r (omega arith),
            min_ℤ_right (r -ℤ u) s (omega arith),
            min_ℤ_right r (u +ℤ s) (omega int_laws),
          )
          refl
  ]
]

pub fill_loop_empty : (r : ℤ) → fill_loop r [] ≡ []
unfolding fill_loop
fill_loop_empty r = refl

-- The plan takes exactly what is needed, or all that the pools can take if that is less.
pub granted-fill_loop :
    (r : ℤ) (ps : List PoolView) → pos 0 ≤ℤ r → granted (fill_loop r ps) ≡ min_ℤ r (usable_sum ps)
granted-fill_loop r [] h = rw (fill_loop_empty r) (sym (min_ℤ_right r (pos 0) h))
granted-fill_loop r (p ∷ ps) h = elim (≤ℤ_cases (usable p) (pos 0)) [
  | inl none_left ↦
      rw (fill_loop_skip r p ps none_left)
        (granted-fill_loop r ps h ∙ ap (min_ℤ r) (omega (int_laws, usable_nonneg p)))
  | inr room ↦ elim (≤ℤ_cases r (pos 0)) [
    | inl done ↦
        rw
          (
            fill_loop_done r (p ∷ ps) done,
            min_ℤ_left r (usable p +ℤ usable_sum ps) (omega (int_laws, usable_sum_nonneg ps)),
          )
          (omega int_laws)
    | inr more ↦
        rw
          (
            fill_loop_take r p ps room more,
            granted-fill_loop (r -ℤ min_ℤ (usable p) r) ps (sub_min_nonneg (usable p) r),
          )
          (min_ℤ-step (usable p) r (usable_sum ps) h (usable_sum_nonneg ps))
  ]
]

-- Where the first pools have room enough the others get nothing.
pub fill_loop_enough :
    (r : ℤ) (xs ys : List PoolView) → r ≤ℤ usable_sum xs → fill_loop r (xs ++ ys) ≡ fill_loop r xs
fill_loop_enough r [] ys h = rw (fill_loop_done r ys h, fill_loop_done r [] h)
fill_loop_enough r (x ∷ xs) ys h = elim (≤ℤ_cases r (pos 0)) [
  | inl done ↦ rw (fill_loop_done r (x ∷ (xs ++ ys)) done, fill_loop_done r (x ∷ xs) done)
  | inr more ↦ elim (≤ℤ_cases (usable x) (pos 0)) [
    | inl none_left ↦
        rw (fill_loop_skip r x (xs ++ ys) none_left, fill_loop_skip r x xs none_left)
          (fill_loop_enough r xs ys (omega (int_laws, usable_nonneg x)))
    | inr room ↦
        rw (fill_loop_take r x (xs ++ ys) room more, fill_loop_take r x xs room more)
          (cc (
            fill_loop_enough (r -ℤ min_ℤ (usable x) r) xs ys
              (sub_min-le (usable x) r (usable_sum xs) h (usable_sum_nonneg xs))))
  ]
]

full_skip : (p : PoolView) (ps : List PoolView) → usable p ≤ℤ pos 0 → full (p ∷ ps) ≡ full ps
full_skip p ps h = ground arith

full_take :
    (p : PoolView) (ps : List PoolView)
    → pos 0 <ℤ usable p
    → full (p ∷ ps) ≡ record { pool_name = p.name; node_count = usable p } ∷ full ps
full_take p ps h = ground arith

-- Where they have not they are filled up, and the others get the rest of the need.
pub fill_loop_short :
    (r : ℤ) (xs ys : List PoolView)
    → usable_sum xs ≤ℤ r
    → fill_loop r (xs ++ ys) ≡ full xs ++ fill_loop (r -ℤ usable_sum xs) ys
fill_loop_short r [] ys h = ap (λ n. fill_loop n ys) (sym (sub_zero r))
fill_loop_short r (x ∷ xs) ys h = elim (≤ℤ_cases (usable x) (pos 0)) [
  | inl none_left ↦
      rw (fill_loop_skip r x (xs ++ ys) none_left, full_skip x xs none_left)
        (fill_loop_short r xs ys (omega (int_laws, usable_nonneg x))
          ∙ ap (λ n. full xs ++ fill_loop n ys) (omega (int_laws, usable_nonneg x)))
  | inr room ↦
      rw
        (
          fill_loop_take r x (xs ++ ys) room (omega (int_laws, usable_sum_nonneg xs)),
          full_take x xs room,
          min_ℤ_left (usable x) r (omega (int_laws, usable_sum_nonneg xs)),
          ← sub_sub r (usable x) (usable_sum xs),
        )
        (cc (fill_loop_short (r -ℤ usable x) xs ys (omega int_laws)))
]
