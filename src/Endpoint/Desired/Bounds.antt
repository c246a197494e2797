-- ===== src/Endpoint/Desired/Bounds.antt =====
-- What desiredReplicas promises.
use opencoda.Prelude.{
  ℕ, suc, ◌^◌, ◌<◌, ◌≡◌, Option, some, arith, ◌≤ℤ◌, pos, Text, decimal, atoi-decimal_pos, Dict,
  lookup, erase,
}
use opencoda.Api.{Time, Duration, CodaEndpoint}
use opencoda.Constants.{annotation_desired_replicas}
use opencoda.Endpoint.Desired.{key_of, clamp, desired_replicas}

module _ (parse_duration : Text → Option Duration) (ep : CodaEndpoint) (now : Time)
    (idle : Dict Time) where
  -- With 0 <= minReplicas <= maxReplicas the result lies between the two, on every branch.
  pub desired_replicas_bounds :
      pos 0 ≤ℤ ep.spec.scaling.min_replicas
      → ep.spec.scaling.min_replicas ≤ℤ ep.spec.scaling.max_replicas
      → (ep.spec.scaling.min_replicas ≤ℤ (desired_replicas parse_duration ep now idle).1)
        × ((desired_replicas parse_duration ep now idle).1 ≤ℤ ep.spec.scaling.max_replicas)
  unfolding desired_replicas
  desired_replicas_bounds h k = ground arith

  -- A positive int64 that the gateway writes into the annotation in decimal is read back:
  -- the result is that number held between the minimum and the maximum, and the endpoint is no
  -- longer counted as idle.
  pub desired_replicas-decimal :
      (n : ℕ)
      → suc n < 2 ^ 63
      → lookup annotation_desired_replicas ep.metadata.annotations ≡ some (decimal (pos (suc n)))
      → desired_replicas parse_duration ep now idle ≡ (
        erase (key_of ep.metadata) idle,
        clamp ep.spec.scaling.min_replicas ep.spec.scaling.max_replicas (pos (suc n)),
      )
  unfolding desired_replicas
  desired_replicas-decimal n h e =
      rw (e, desired_replicas, atoi-decimal_pos (suc n) h) (ground arith)
