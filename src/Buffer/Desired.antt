-- ===== src/Buffer/Desired.antt =====
-- desiredWarmGPUs and countWarmGPUs.
pub mod Bounds
use opencoda.Prelude.{
  ◌&&◌, none, some, List, [], ◌∷◌, if◌then◌else◌, ◌+ℤ◌, ltb_ℤ, ℤ, pos, bytes, text_beq,
}
use opencoda.Api.{Float64, DynamicTarget, BufferTarget, PoolRef, BufferPolicy}
use opencoda.Buffer.Types.{Api}
use opencoda.Floats.{FloatOps}
use opencoda.Results.{ok, err}

abbrev clamp_base : BufferTarget → ℤ → ℤ
clamp_base t base =
    if ltb_ℤ t.max_warm_gpus base
    then t.max_warm_gpus
    else if ltb_ℤ base t.min_warm_gpus
    then t.min_warm_gpus
    else base

abbrev fixed_base : BufferTarget → ℤ
fixed_base t = if ltb_ℤ (pos 0) t.min_warm_gpus then t.min_warm_gpus else pos 0

abbrev dynamic_base : FloatOps → BufferTarget → Float64 → DynamicTarget → ℤ
dynamic_base fl t demand d =
    if fl.less (fl.ratio 0 1) demand && fl.less (fl.ratio 0 1) d.k
    then t.min_warm_gpus +ℤ fl.trunc (fl.mul d.k demand)
    else t.min_warm_gpus

unfoldable pub desired_warm_gpus : FloatOps → BufferPolicy → ℤ
unfolding text_beq
desired_warm_gpus fl policy =
    let t = policy.spec.target in
    if text_beq t.mode (bytes "dynamic")
    then (elim t.dynamic [
      | none ↦ fixed_base t
      | some d ↦ clamp_base t (dynamic_base fl t policy.status.demand_ewma d)
    ])
    else fixed_base t

-- The loop over the pools of a policy, from a total on; a pool that cannot be read counts nothing.
unfoldable pub count_warm_gpus : {S : Type 0} → Api S → List PoolRef → ℤ → S → ℤ
count_warm_gpus api [] total s = total
count_warm_gpus api (ref ∷ refs) total s =
    count_warm_gpus api refs
      (elim (api.get_pool ref.name s) [
        | err e ↦ total
        | ok pool ↦ total +ℤ (pool.status.nodes.buffered +ℤ pool.status.nodes.provisioning)
      ])
      s
