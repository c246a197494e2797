-- ===== src/Scheduler/Greedy.antt =====
-- pkg/scheduler/greedy/greedy.go. `remaining` and the pools left are the loop's variables.
use opencoda.Prelude.{ℤ, pos, ◌-ℤ◌, ltb_ℤ, leb_ℤ, Bool, List, [], ◌∷◌, ◌&&◌, if◌then◌else◌}
use opencoda.Api.{Float64}
use opencoda.Floats.{FloatOps}
use opencoda.Results.{Result, ok}
use opencoda.Scheduler.Types.{PoolView, PlanEntry, Plan, Scheduler}
use opencoda.Scheduler.Sort.{SortSlice}

module _ (fl : FloatOps) where
  -- float64(Priority) + ObservedHourlyUSD*ICEPenalty
  unfoldable pub cost : PoolView → Float64
  cost p = fl.add (fl.of_int p.priority) (fl.mul p.observed_hourly_usd p.ice_penalty)

  abbrev pub cheaper : PoolView → PoolView → Bool
  cheaper p q = fl.less (cost p) (cost q)

-- The loop over the sorted pools; the empty list at `remaining <= 0` is the break.
unfoldable pub fill_loop : ℤ → List PoolView → List PlanEntry
fill_loop remaining [] = []
fill_loop remaining (pool ∷ rest) =
    let skip = fill_loop remaining rest in
    let free = pool.max_nodes -ℤ pool.current_nodes in
    let capacity =
      if ltb_ℤ (pos 0) pool.available && ltb_ℤ pool.available free then pool.available else free in
    let n = if ltb_ℤ capacity remaining then capacity else remaining in
    let taken : List PlanEntry =
      record { pool_name = pool.name; node_count = n } ∷ fill_loop (remaining -ℤ n) rest in
    if leb_ℤ remaining (pos 0)
    then []
    else if leb_ℤ free (pos 0)
    then skip
    else if leb_ℤ n (pos 0)
    then skip
    else taken

module _ (fl : FloatOps) (s : SortSlice PoolView) where
  unfoldable pub fill : ℤ → List PoolView → Result Plan
  fill need pools =
      if leb_ℤ need (pos 0)
      then ok (record { entries = [] })
      else ok (record { entries = fill_loop need (s.sort (cheaper fl) pools) })

  -- greedy.New()
  pub new : Scheduler
  new = record { fill = fill }
