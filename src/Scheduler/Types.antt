-- ===== src/Scheduler/Types.antt =====
-- pkg/scheduler/scheduler.go
use opencoda.Prelude.{ℤ, Text, List}
use opencoda.Api.{Float64}
use opencoda.Results.{Result}

pub record PoolView : Type 0 where
  pub name : Text
  pub priority : ℤ
  pub observed_hourly_usd : Float64
  pub ice_penalty : Float64
  pub max_nodes : ℤ
  pub current_nodes : ℤ
  pub available : ℤ

pub record PlanEntry : Type 0 where
  pub pool_name : Text
  pub node_count : ℤ

pub record Plan : Type 0 where
  pub entries : List PlanEntry

pub record Scheduler : Type 0 where
  pub fill : ℤ → List PoolView → Result Plan
