-- ===== src/Buffer/Views.antt =====
-- buildPoolViews: the pools as the scheduler sees them.
use opencoda.Prelude.{List, [], ◌∷◌, if◌then◌else◌, ◌+ℤ◌, ◌-ℤ◌, ltb_ℤ, ℤ, pos}
use opencoda.Api.{Time, Duration, GpuPool, PoolRef}
use opencoda.Buffer.Types.{Api}
use opencoda.Floats.{FloatOps}
use opencoda.Results.{ok, err}
use opencoda.Scheduler.{PoolView}

-- 15 minutes
abbrev pub ice_window : Duration
ice_window = pos 900_000_000_000

abbrev pub nodes_of : GpuPool → ℤ
nodes_of pool =
    (pool.status.nodes.active +ℤ pool.status.nodes.buffered) +ℤ pool.status.nodes.provisioning

unfoldable pub pool_view : FloatOps → Time → GpuPool → PoolView
pool_view fl now pool = record {
  name = pool.metadata.name;
  priority = pool.spec.priority;
  observed_hourly_usd = pool.status.observed_capacity.observed_hourly_usd;
  ice_penalty =
      if ltb_ℤ (now -ℤ ice_window) pool.status.observed_capacity.last_ice
      then fl.ratio 2 1
      else fl.ratio 1 1;
  max_nodes = pool.spec.limits.max_nodes;
  current_nodes = nodes_of pool;
  available = pool.status.observed_capacity.available;
}

unfoldable pub build_pool_views :
    {S : Type 0} → Api S → FloatOps → Time → List PoolRef → S → List PoolView
unfolding pool_view
build_pool_views api fl now [] s = []
build_pool_views api fl now (ref ∷ refs) s =
    let rest = build_pool_views api fl now refs s in
    elim (api.get_pool ref.name s) [ err e ↦ rest | ok pool ↦ pool_view fl now pool ∷ rest ]
