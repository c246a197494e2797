-- ===== src/Api/Endpoint.antt =====
-- CodaEndpoint and CodaToken of api/v1alpha1/opencoda_types.go.
use opencoda.Prelude.{ℤ, Text, List, Option, Bool}
use opencoda.Api.Base.{Time, Float64, ObjectMeta, Condition}

pub record ModelSpec : Type 0 where
  pub source : Text
  pub quantization : Text

pub record EngineSpec : Type 0 where
  pub kind : Text
  pub version : Text
  pub args : List Text

pub record ResourceSpec : Type 0 where
  pub gpu : ℤ
  pub gpu_type : Text

pub record RuntimeSpec : Type 0 where
  pub class : Text

pub record ScalingTarget : Type 0 where
  pub metric : Text
  pub value : ℤ

pub record ScalingSpec : Type 0 where
  pub min_replicas : ℤ
  pub max_replicas : ℤ
  pub target : ScalingTarget
  pub scale_to_zero_after : Text

pub record SnapshotRef : Type 0 where
  pub class_ref : Text

pub record RemoteRef : Type 0 where
  pub bucket : Text
  pub prefix : Text
  pub endpoint : Text

pub record LmCacheSpec : Type 0 where
  pub enabled : Bool
  pub shared : Bool
  pub tiers : List Text
  pub remote_ref : RemoteRef

pub record KvSpec : Type 0 where
  pub lm_cache : Option LmCacheSpec

pub record CodaEndpointSpec : Type 0 where
  pub model : ModelSpec
  pub engine : EngineSpec
  pub resources : ResourceSpec
  pub runtime : RuntimeSpec
  pub scaling : ScalingSpec
  pub snapshot : Option SnapshotRef
  pub kv : KvSpec

pub record ReplicaStatus : Type 0 where
  pub ready : ℤ
  pub starting : ℤ

pub record ColdStartMetrics : Type 0 where
  pub p50_ms : ℤ
  pub p95_ms : ℤ

pub record CodaEndpointStatus : Type 0 where
  pub replicas : ReplicaStatus
  pub cold_start : ColdStartMetrics
  pub kv_hit_rate : Float64
  pub conditions : List Condition

pub record CodaEndpoint : Type 0 where
  pub metadata : ObjectMeta
  pub spec : CodaEndpointSpec
  pub status : CodaEndpointStatus

pub record CodaTokenSpec : Type 0 where
  pub token_id : Text
  pub secret_hash : Text
  pub expires_at : Option Time

pub record CodaTokenStatus : Type 0 where
  pub conditions : List Condition

pub record CodaToken : Type 0 where
  pub metadata : ObjectMeta
  pub spec : CodaTokenSpec
  pub status : CodaTokenStatus
