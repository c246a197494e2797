-- ===== src/Engine/Types.antt =====
-- pkg/engine/engine.go
use opencoda.Prelude.{Option, List, [], Text, Dict, lookup, insert}
use opencoda.Api.{Float64, CodaEndpoint}
use opencoda.Api.Cluster.{Container, EnvVar, PodSpec, Probe}
use opencoda.Results.{Result}

pub record NodeProfile : Type 0 where
  pub pinned_memory_gib : Float64
  pub nvme_cache_dir : Text

pub record PodPatch : Type 0 where
  pub containers : List Container
  pub init_containers : List Container
  pub env : List EnvVar
  pub volumes : List Text
  pub volume_mounts : List Text

abbrev pub empty_patch : PodPatch
empty_patch = record {
  containers = [];
  init_containers = [];
  env = [];
  volumes = [];
  volume_mounts = [];
}

pub record Engine : Type 0 where
  pub name : Text
  pub render_pod_spec : CodaEndpoint → NodeProfile → PodPatch → Result PodSpec
  pub readiness_probe : Probe
  pub metrics_endpoint : Text
  pub served_model_id : CodaEndpoint → Text

pub record Registry : Type 0 where
  pub engines : Dict Engine

unfoldable pub new_registry : Registry
new_registry = record { engines = [] }

unfoldable pub register : Engine → Registry → Registry
register e r = record { engines = insert e.name e r.engines }

unfoldable pub get : Text → Registry → Option Engine
get name r = lookup name r.engines
