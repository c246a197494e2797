-- ===== src/Flows/Replicas.antt =====
-- From the autoscaler through the annotation to the endpoint controller.
use opencoda.Prelude.{
  ℕ, suc, ◌^◌, ◌<◌, ◌≡◌, refl, sym, ap, ◌∙◌, Option, some, [], ◌∷◌, arith, ◌≤ℤ◌, ℤ, pos, Text,
  text_beq_refl, decimal, Dict, lookup, insert, erase, lookup-insert,
}
use opencoda.Api.{Time, Duration, CodaEndpoint}
use opencoda.Constants.{annotation_desired_replicas}
use opencoda.Endpoint.Desired.{key_of, clamp, desired_replicas}
use opencoda.Endpoint.Desired.Bounds.{desired_replicas-decimal}
use opencoda.Floats.{FloatOps}
use opencoda.Gateway.Autoscaler.{Autoscaler, evaluate}
use opencoda.Gateway.Autoscaler.Bounds.{evaluate_bounds}
use opencoda.Gateway.Sync.{patch_desired_replicas, patch_endpoint}

lookup-insert_self : (k v : Text) (m : Dict Text) → lookup k (insert k v m) ≡ some v
lookup-insert_self k v m = rw (lookup-insert k k v m, text_beq_refl k) refl

clamp_within : (min max n : ℤ) → min ≤ℤ n → n ≤ℤ max → clamp min max n ≡ n
clamp_within min max n h k = ground (arith, h, k)

module _ (fl : FloatOps) (a : Autoscaler) (ep : CodaEndpoint) (in_flight queue_depth : ℕ) where
  -- The replicas that the autoscaler asks for.
  abbrev pub wanted : ℤ
  wanted = (evaluate fl ep in_flight queue_depth a).1

  -- With a minimum not above the maximum, the positive int64 that the autoscaler asks for is written
  -- into the endpoint as one patch, and the endpoint controller, which reads the endpoint written at
  -- whatever time, comes to just that number and takes the endpoint off those that are idle.
  pub desired_replicas-patch_desired_replicas :
      (n : ℕ)
      → ep.spec.scaling.min_replicas ≤ℤ ep.spec.scaling.max_replicas
      → wanted ≡ pos (suc n)
      → suc n < 2 ^ 63
      → (written : CodaEndpoint) × (patch_desired_replicas ep wanted ≡ patch_endpoint written ∷ [])
        × ((parse_duration : Text → Option Duration) (now : Time) (idle_since : Dict Time)
            → desired_replicas parse_duration written now idle_since
              ≡ (erase (key_of ep.metadata) idle_since, wanted))
  unfolding patch_desired_replicas
  desired_replicas-patch_desired_replicas n ordered positive fits =
      let (low, high) = evaluate_bounds fl ep a a in_flight queue_depth ordered in
      (
        _,
        refl,
        (λ parse_duration now idle_since.
            desired_replicas-decimal parse_duration
              (record ep {
                metadata = record ep.metadata {
                  annotations =
                      insert annotation_desired_replicas (decimal wanted) ep.metadata.annotations;
                };
              })
              now idle_since n fits
              (lookup-insert_self annotation_desired_replicas (decimal wanted)
                  ep.metadata.annotations
                ∙ ap (λ z. some (decimal z)) positive)
            ∙ ap (λ z. (erase (key_of ep.metadata) idle_since, z))
                (ap (clamp ep.spec.scaling.min_replicas ep.spec.scaling.max_replicas) (sym positive)
                  ∙ clamp_within ep.spec.scaling.min_replicas ep.spec.scaling.max_replicas wanted
                      low high)),
      )
