-- ===== src/Gateway/Autoscaler.antt =====
-- The Autoscaler of internal/gateway/server.go. Its router field is never read and is left out.
pub mod Bounds
use opencoda.Prelude.{
  ℕ, ◌+◌, ◌/◌, [], ◌∷◌, if◌then◌else◌, pos_part, ltb_ℤ, leb_ℤ, ℤ, pos, Text, Dict, get_or, insert,
}
use opencoda.Api.{Float64, CodaEndpoint}
use opencoda.Floats.{FloatOps}

pub record Autoscaler : Type 0 where
  pub ewma : Dict Float64

unfoldable pub new_autoscaler : Autoscaler
new_autoscaler = record { ewma = [] }

-- The quotient by a positive target is that of natural numbers.
unfoldable pub desired_for : CodaEndpoint → ℕ → ℤ
desired_for ep load =
    let min = ep.spec.scaling.min_replicas in
    let max = ep.spec.scaling.max_replicas in
    let value = ep.spec.scaling.target.value in
    let target = if leb_ℤ value (pos 0) then 8 else pos_part value in
    let quotient = pos (load / target) in
    let raised = if ltb_ℤ quotient min then min else quotient in
    if ltb_ℤ max raised then max else raised

module _ (fl : FloatOps) where
  -- alpha*float64(load) + (1-alpha)*prev, with alpha = 0.3
  unfoldable pub smoothed : ℕ → Float64 → Float64
  smoothed load prev =
      let alpha = fl.ratio 3 10 in
      fl.add (fl.mul alpha (fl.of_int (pos load))) (fl.mul (fl.sub (fl.ratio 1 1) alpha) prev)

  unfoldable pub evaluate : CodaEndpoint → ℕ → ℕ → Autoscaler → Autoscaler × ℤ
  unfolding desired_for smoothed
  evaluate ep in_flight queue_depth a = (
    record {
      ewma =
          insert ep.metadata.name
            (smoothed (in_flight + queue_depth) (get_or a.ewma ep.metadata.name (fl.ratio 0 1)))
            a.ewma;
    },
    desired_for ep (in_flight + queue_depth),
  )

  unfoldable pub demand_forecast : Text → Autoscaler → Float64
  demand_forecast endpoint a = get_or a.ewma endpoint (fl.ratio 0 1)

  unfoldable pub sum_from : Float64 → Dict Float64 → Float64
  sum_from total [] = total
  sum_from total ((k, v) ∷ visited) = sum_from (fl.add total v) visited

  -- `visit` is the order in which the range meets the entries of the map.
  unfoldable pub total_demand : (Dict Float64 → Dict Float64) → Autoscaler → Float64
  total_demand visit a = sum_from (fl.ratio 0 1) (visit a.ewma)
