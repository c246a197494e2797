-- ===== src/Api/Policy.antt =====
-- BufferPolicy of api/v1alpha1/opencoda_types.go.
use opencoda.Prelude.{ℤ, Text, List, Option}
use opencoda.Api.Base.{Float64, ObjectMeta, Condition}

pub record DynamicTarget : Type 0 where
  pub window : Text
  pub formula : Text
  pub k : Float64

pub record BufferTarget : Type 0 where
  pub mode : Text
  pub min_warm_gpus : ℤ
  pub max_warm_gpus : ℤ
  pub dynamic : Option DynamicTarget

pub record PoolRef : Type 0 where
  pub name : Text

pub record ScaleDownSpec : Type 0 where
  pub stabilization_window : Text
  pub drain_timeout : Text

pub record BufferPolicySpec : Type 0 where
  pub target : BufferTarget
  pub pools : List PoolRef
  pub scale_down : ScaleDownSpec

pub record BufferPolicyStatus : Type 0 where
  pub current_warm_gpus : ℤ
  pub demand_ewma : Float64
  pub conditions : List Condition

pub record BufferPolicy : Type 0 where
  pub metadata : ObjectMeta
  pub spec : BufferPolicySpec
  pub status : BufferPolicyStatus
