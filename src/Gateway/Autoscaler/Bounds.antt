-- ===== src/Gateway/Autoscaler/Bounds.antt =====
-- What the replicas that the autoscaler asks for are bound by.
use opencoda.Prelude.{ℕ, ◌+◌, ◌/◌, ◌≤◌, arith, pos_part, ◌≤ℤ◌}
use opencoda.Api.{CodaEndpoint}
use opencoda.Floats.{FloatOps}
use opencoda.Gateway.Autoscaler.{Autoscaler, desired_for, evaluate}

desired_for_bounds :
    (ep : CodaEndpoint) (load : ℕ)
    → ep.spec.scaling.min_replicas ≤ℤ ep.spec.scaling.max_replicas
    → (ep.spec.scaling.min_replicas ≤ℤ desired_for ep load)
      × (desired_for ep load ≤ℤ ep.spec.scaling.max_replicas)
unfolding desired_for
desired_for_bounds ep load h = ground arith

quotient_mono : (t m n : ℕ) → m ≤ n → m / t ≤ n / t
quotient_mono t m n h = grind arith

desired_for_mono : (ep : CodaEndpoint) (m n : ℕ) → m ≤ n → desired_for ep m ≤ℤ desired_for ep n
unfolding desired_for
desired_for_mono ep m n h =
    ground (arith, quotient_mono 8 m n, quotient_mono (pos_part ep.spec.scaling.target.value) m n)

module _ (fl : FloatOps) (ep : CodaEndpoint) (a b : Autoscaler) where
  -- With a minimum not above the maximum, the result lies between them whatever the load.
  pub evaluate_bounds :
      (in_flight queue_depth : ℕ)
      → ep.spec.scaling.min_replicas ≤ℤ ep.spec.scaling.max_replicas
      → (ep.spec.scaling.min_replicas ≤ℤ (evaluate fl ep in_flight queue_depth a).1)
        × ((evaluate fl ep in_flight queue_depth a).1 ≤ℤ ep.spec.scaling.max_replicas)
  unfolding evaluate
  evaluate_bounds in_flight queue_depth h = desired_for_bounds ep (in_flight + queue_depth) h

  -- More load never asks for fewer replicas.
  pub evaluate_mono :
      (i q j r : ℕ) → i + q ≤ j + r → (evaluate fl ep i q a).1 ≤ℤ (evaluate fl ep j r b).1
  unfolding evaluate
  evaluate_mono i q j r h = desired_for_mono ep (i + q) (j + r) h
