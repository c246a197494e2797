-- ===== src/Buffer/Desired/Bounds.antt =====
-- What desiredWarmGPUs promises.
use opencoda.Prelude.{arith, ◌≤ℤ◌, pos}
use opencoda.Api.{BufferPolicy}
use opencoda.Floats.{FloatOps}
use opencoda.Buffer.Desired.{desired_warm_gpus}

-- With 0 <= minWarmGPUs <= maxWarmGPUs, the GPUs to keep warm lie between the two in every mode,
-- whatever the float operations give.
pub desired_warm_gpus_bounds :
    (fl : FloatOps) (policy : BufferPolicy)
    → pos 0 ≤ℤ policy.spec.target.min_warm_gpus
    → policy.spec.target.min_warm_gpus ≤ℤ policy.spec.target.max_warm_gpus
    → (policy.spec.target.min_warm_gpus ≤ℤ desired_warm_gpus fl policy)
      × (desired_warm_gpus fl policy ≤ℤ policy.spec.target.max_warm_gpus)
unfolding desired_warm_gpus
desired_warm_gpus_bounds fl policy h k = ground arith
