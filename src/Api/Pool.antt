-- ===== src/Api/Pool.antt =====
-- GPUPool of api/v1alpha1/opencoda_types.go.
use opencoda.Prelude.{ℤ, Text, Dict, List}
use opencoda.Api.Base.{Time, Float64, ObjectMeta, Condition}

pub record SecretRef : Type 0 where
  pub secret_name : Text

pub record ProviderSpec : Type 0 where
  pub name : Text
  pub credentials_ref : SecretRef
  pub params : Dict Text

pub record GpuProfile : Type 0 where
  pub kind : Text
  pub per_node : ℤ

pub record PoolLimits : Type 0 where
  pub max_nodes : ℤ
  pub max_hourly_usd : Float64

pub record TaintSpec : Type 0 where
  pub key : Text
  pub effect : Text

pub record GpuPoolSpec : Type 0 where
  pub provider : ProviderSpec
  pub instance_types : List Text
  pub gpu : GpuProfile
  pub limits : PoolLimits
  pub priority : ℤ
  pub taints : List TaintSpec

-- The state is provisioning, buffered, active, draining, released or discovered, as a string.
pub record NodeRecord : Type 0 where
  pub provider_id : Text
  pub node_name : Text
  pub state : Text
  pub launched_at : Time
  pub pool_name : Text

pub record ObservedCapacity : Type 0 where
  pub available : ℤ
  pub last_ice : Time
  pub observed_hourly_usd : Float64

pub record PoolNodeCounts : Type 0 where
  pub active : ℤ
  pub buffered : ℤ
  pub provisioning : ℤ

pub record GpuPoolStatus : Type 0 where
  pub observed_capacity : ObservedCapacity
  pub nodes : PoolNodeCounts
  pub node_records : List NodeRecord
  pub conditions : List Condition

pub record GpuPool : Type 0 where
  pub metadata : ObjectMeta
  pub spec : GpuPoolSpec
  pub status : GpuPoolStatus
