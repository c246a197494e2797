-- ===== src/Scheduler/Tests.antt =====
-- A concrete sort and concrete float operations, which show that what is assumed of them can hold,
-- and the plans of the package's own test.
use mathlib.Core.List.{Mem}
use opencoda.Floats.{FloatOps}
use opencoda.Prelude.{
  Bool, List, not, ◌&&◌, ◌||◌, ltb, nat_beq, All-mem, Bool-cases, inl, inr, true, ◌⊎◌, ℕ, ◌≡◌, refl,
  false, [], ◌∷◌, ◌++◌, arith, if◌then◌else◌, All, ◌-ℤ◌, leb_ℤ, min_ℤ, max_ℤ, pos, Text, bytes,
}
use opencoda.Floats.Sample.{sample}
use opencoda.Results.{ok}
use opencoda.Scheduler.Types.{PoolView, Plan}
use opencoda.Scheduler.Sort.{IsWeakOrder}
use opencoda.Scheduler.Sort.Insertion.{insertion}
use opencoda.Scheduler.Greedy.{cost, cheaper, fill_loop, fill}
use opencoda.Scheduler.Filling.{granted, usable_sum, full}
use opencoda.Scheduler.Order.{ComesFrom, fill-ComesFrom, granted-fill, fill_cheapest_first}

abbrev view : Text → ℕ → ℕ → ℕ → PoolView
view name priority usd max_nodes = record {
  name = name;
  priority = pos priority;
  observed_hourly_usd = usd;
  ice_penalty = 1;
  max_nodes = pos max_nodes;
  current_nodes = pos 0;
  available = pos 10;
}

abbrev expensive : PoolView
expensive = view (bytes "expensive") 20 50 10

abbrev cheap : PoolView
cheap = view (bytes "cheap") 10 5 2

abbrev plan : Plan
plan = record {
  entries =
      record { pool_name = bytes "cheap"; node_count = pos 2 }
      ∷ record { pool_name = bytes "expensive"; node_count = pos 1 }
      ∷ [];
}

fill_both : fill sample insertion (pos 3) (expensive ∷ cheap ∷ []) ≡ ok plan
unfolding fill fill_loop insertion cost ◌-ℤ◌
fill_both = refl

-- Whole numbers with one pattern that stands for NaN, which nothing is less than and which is less
-- than nothing.
abbrev nan : ℕ → Bool
nan x = nat_beq x 1_000_000

abbrev with_nan : FloatOps
with_nan = record sample { less = λ x y. ltb x y && not (nan x || nan y) }

abbrev two_pools : List PoolView
two_pools = expensive ∷ cheap ∷ []

costs : (p : PoolView) → Mem p two_pools → nan (cost with_nan p) ≡ false
unfolding cost
costs p m = All-mem (λ y. nan (cost with_nan y)) two_pools p (refl, (refl, tt)) m

ltb_split :
    (x y z : ℕ) (not_nan : nan y ≡ false)
    → (ltb x z && not (nan x || nan z)) ≡ true
    → ((ltb x y && not (nan x || nan y)) ≡ true) ⊎ ((ltb y z && not (nan y || nan z)) ≡ true)
ltb_split x y z not_nan h = elim (Bool-cases (ltb x y)) [
  | inl e ↦ inl (ground (arith, h, not_nan, e))
  | inr e ↦ inr (ground (arith, h, not_nan, e))
]

with_nan-IsWeakOrder : IsWeakOrder (cheaper with_nan) (λ p. Mem p two_pools)
with_nan-IsWeakOrder = record {
  asymm = λ a b p q h. ground (arith, h);
  split = λ a b c p q r h.
      ltb_split (cost with_nan a) (cost with_nan b) (cost with_nan c) (costs b q) h;
}

fill_with_nan : fill with_nan insertion (pos 3) two_pools ≡ ok plan
unfolding fill fill_loop insertion cost ◌-ℤ◌
fill_with_nan = refl

granted-fill_example :
    (p : Plan) × (fill sample insertion (pos 3) (expensive ∷ cheap ∷ []) ≡ ok p)
    × (granted p.entries ≡ max_ℤ (pos 0) (min_ℤ (pos 3) (usable_sum (expensive ∷ cheap ∷ []))))
granted-fill_example = granted-fill sample insertion (pos 3) (expensive ∷ cheap ∷ [])

fill-ComesFrom_example : All (ComesFrom (expensive ∷ cheap ∷ [])) plan.entries
fill-ComesFrom_example =
    fill-ComesFrom sample insertion (pos 3) (expensive ∷ cheap ∷ []) plan fill_both

sorted_pair : insertion.sort (cheaper with_nan) two_pools ≡ (cheap ∷ []) ++ (expensive ∷ [])
unfolding insertion cost
sorted_pair = refl

fill_cheapest_first_example :
    All (λ y. All (λ x. cheaper with_nan y x ≡ false) (cheap ∷ [])) (expensive ∷ [])
    × (plan.entries ≡ (
        if leb_ℤ (pos 3) (usable_sum (cheap ∷ []))
        then fill_loop (pos 3) (cheap ∷ [])
        else full (cheap ∷ []) ++ fill_loop (pos 3 -ℤ usable_sum (cheap ∷ [])) (expensive ∷ [])))
fill_cheapest_first_example =
    fill_cheapest_first with_nan insertion (pos 3) two_pools (cheap ∷ []) (expensive ∷ []) plan
      with_nan-IsWeakOrder (omega arith) sorted_pair fill_with_nan
