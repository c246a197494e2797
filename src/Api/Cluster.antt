-- ===== src/Api/Cluster.antt =====
-- The Kubernetes objects that the program reads and writes, with the fields that it uses. The
-- types are those of k8s.io/api, which is not part of the repository.
use opencoda.Prelude.{ℤ, Text, Dict, List, Option, Bool, any, ◌&&◌}
use opencoda.Api.Base.{ObjectMeta}

-- A variable with a value, or with a key of a secret: the secret's name, the key, and whether
-- it may be missing.
pub record SecretKey : Type 0 where
  pub secret : Text
  pub key : Text
  pub optional : Bool

pub record EnvVar : Type 0 where
  pub name : Text
  pub value : Text
  pub from : Option SecretKey

pub record ContainerPort : Type 0 where
  pub name : Text
  pub port : ℤ

pub record Probe : Type 0 where
  pub path : Text
  pub port : ℤ
  pub initial_delay_seconds : ℤ
  pub period_seconds : ℤ

pub record Container : Type 0 where
  pub name : Text
  pub image : Text
  pub command : List Text
  pub args : List Text
  pub env : List EnvVar
  pub ports : List ContainerPort
  pub limits : Dict ℤ
  pub requests : Dict ℤ
  pub volume_mounts : List Text
  pub readiness_probe : Option Probe

pub record Toleration : Type 0 where
  pub key : Text
  pub operator : Text
  pub effect : Text

pub record PodSpec : Type 0 where
  pub node_name : Text
  pub containers : List Container
  pub init_containers : List Container
  pub volumes : List Text
  pub node_selector : Dict Text
  pub tolerations : List Toleration

-- A pod condition as the program reads it: its type is PodReady, its status is True.
pub record PodCondition : Type 0 where
  pub is_pod_ready : Bool
  pub is_true : Bool

pub record Pod : Type 0 where
  pub metadata : ObjectMeta
  pub spec : PodSpec
  pub pod_ip : Text
  pub conditions : List PodCondition

pub record Node : Type 0 where
  pub metadata : ObjectMeta
  pub unschedulable : Bool

-- The loop over the conditions of a pod that the program writes out in each place.
abbrev pub pod_ready : List PodCondition → Bool
pod_ready conditions = any (λ c. c.is_pod_ready && c.is_true) conditions
