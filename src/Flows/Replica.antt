-- ===== src/Flows/Replica.antt =====
-- A pod that the endpoint controller builds, as the gateway, the controller itself and the scheduler
-- of Kubernetes meet it again (internal/controller/endpoint, pkg/engine/vllm, internal/gateway).
mod Tests
use opencoda.Prelude.{
  ◌≡◌, Bool, Option, none, some, List, [], ◌∷◌, ◌++◌, if◌then◌else◌, leb_ℤ, ℤ, pos, Text, bytes,
  text_beq, contains, to_lower, lookup, decimal,
}
use opencoda.Api.{CodaEndpoint}
use opencoda.Api.Cluster.{Pod, PodSpec, Container}
use opencoda.Clock.{Clock}
use opencoda.Constants.{label_endpoint, label_gpu}
use opencoda.Endpoint.Count.{pod_hash}
use opencoda.Engine.{PodPatch}
use opencoda.Engine.Vllm as Vllm
use opencoda.Gateway.Sync.{url_of}
use opencoda.Gateway.Server.{serve_model_id}
use opencoda.Kv.LmCache as LmCache

-- The image that New takes for the one in the environment, and whether it is the fake engine's.
abbrev image_used : Text → Text
image_used image = if text_beq image [] then bytes "vllm/vllm-openai:latest" else image

abbrev pub is_fake : Text → Bool
is_fake image = contains (to_lower (image_used image)) (bytes "fakevllm")

-- The GPUs that are asked for, where there are any.
abbrev pub gpus_of : CodaEndpoint → Option ℤ
gpus_of ep = if leb_ℤ ep.spec.resources.gpu (pos 0) then none else some ep.spec.resources.gpu

-- The arguments of an engine that serves the endpoint's model at a port of every address.
abbrev pub serving : CodaEndpoint → ℤ → List Text → List Text
serving ep number more =
    bytes "serve"
    ∷ serve_model_id ep.spec.model.source
    ∷ bytes "--host"
    ∷ bytes "0.0.0.0"
    ∷ bytes "--port"
    ∷ decimal number
    ∷ more

-- The pod carries the label by which the gateway and the controller list it, and the hash by which
-- it is counted; its first container gets the GPUs on a GPU node, its one port is the one at which
-- the gateway calls a replica, and it serves there, under the name that the gateway puts into a
-- completion that names the model.
pub record IsReplica (image : Text) (ep : CodaEndpoint) (spec_hash : Text) (pod : Pod)
    : Type 0 where
  pub container : Container
  pub others : List Container
  pub labelled : lookup label_endpoint pod.metadata.labels ≡ some ep.metadata.name
  pub hashed : pod_hash pod ≡ spec_hash
  pub first : pod.spec.containers ≡ container ∷ others
  pub number : ℤ
  pub port : container.ports ≡ record { name = bytes "http"; port = number } ∷ []
  pub called : (ip : Text) → url_of ip ≡ bytes "http://" ++ (ip ++ (b':' ∷ decimal number))
  pub limits : lookup (bytes "nvidia.com/gpu") container.limits ≡ gpus_of ep
  pub requests : lookup (bytes "nvidia.com/gpu") container.requests ≡ gpus_of ep
  pub placed :
      lookup label_gpu pod.spec.node_selector
      ≡ (if leb_ℤ ep.spec.resources.gpu (pos 0) then none else some (bytes "true"))
  pub more : List Text
  pub serves : container.args ≡ (if is_fake image then more else serving ep number more)

-- What the engine renders.
abbrev spec_of : Text → CodaEndpoint → PodPatch → PodSpec
spec_of image ep patch = record {
  node_name = [];
  containers =
      record {
        name = bytes "vllm";
        image = image_used image;
        command = if is_fake image then [] else bytes "vllm" ∷ [];
        args = if is_fake image then [] else Vllm.serve_args ep;
        env = Vllm.plain_env (bytes "PYTHONHASHSEED") (bytes "0") ∷ patch.env;
        ports = record { name = bytes "http"; port = pos 8000 } ∷ [];
        limits = [];
        requests = [];
        volume_mounts = patch.volume_mounts;
        readiness_probe = some Vllm.readiness_probe;
      }
      ∷ patch.containers;
  init_containers = patch.init_containers;
  volumes = patch.volumes;
  node_selector = [];
  tolerations = [];
}
