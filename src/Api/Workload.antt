-- ===== src/Api/Workload.antt =====
-- SnapshotClass and CodaFunction of api/v1alpha1/opencoda_types.go, which no controller reads yet.
use opencoda.Prelude.{ℤ, Text, List, Option, Bool, Dict}
use opencoda.Api.Base.{Time, ObjectMeta, Condition}
use opencoda.Api.Endpoint.{ResourceSpec}

pub record SnapshotPreSpec : Type 0 where
  pub offload_weights_to_host : Bool
  pub drop_kv_cache : Bool

pub record StorageRef : Type 0 where
  pub ref : Text
  pub compression : Text

pub record RetentionSpec : Type 0 where
  pub max_per_key : ℤ
  pub ttl : Text

pub record SnapshotClassSpec : Type 0 where
  pub scope : Text
  pub checkpoint_after : Text
  pub pre : SnapshotPreSpec
  pub storage : StorageRef
  pub retention : RetentionSpec

pub record SnapshotClass : Type 0 where
  pub metadata : ObjectMeta
  pub spec : SnapshotClassSpec

pub record CodaFunctionSpec : Type 0 where
  pub image : Text
  pub resources : ResourceSpec
  pub timeout : Text
  pub env : Dict Text

pub record CodaFunctionStatus : Type 0 where
  pub phase : Text
  pub start_time : Option Time
  pub finish_time : Option Time
  pub conditions : List Condition

pub record CodaFunction : Type 0 where
  pub metadata : ObjectMeta
  pub spec : CodaFunctionSpec
  pub status : CodaFunctionStatus
