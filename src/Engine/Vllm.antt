-- ===== src/Engine/Vllm.antt =====
-- pkg/engine/vllm/vllm.go
use opencoda.Prelude.{
  quoted, not, none, some, List, [], ◌∷◌, ◌++◌, if◌then◌else◌, ltb_ℤ, pos, Text, bytes, text_beq,
  trim_prefix, contains, to_lower, decimal,
}
use opencoda.Api.{CodaEndpoint}
use opencoda.Api.Cluster.{EnvVar, PodSpec, Probe}
use opencoda.Engine.Types.{Engine, NodeProfile, PodPatch}
use opencoda.Results.{Result, ok, err, message}

abbrev pub engine_name : Text
engine_name = bytes "vllm"

unfoldable pub readiness_probe : Probe
readiness_probe = record {
  path = bytes "/health";
  port = pos 8000;
  initial_delay_seconds = pos 30;
  period_seconds = pos 10;
}

unfoldable pub model_id_for_serve : Text → Text
model_id_for_serve source = trim_prefix source (bytes "hf://")

abbrev pub plain_env : Text → Text → EnvVar
plain_env name value = record { name = name; value = value; from = none }

unfoldable pub serve_args : CodaEndpoint → List Text
serve_args ep =
    (bytes "serve"
      ∷ model_id_for_serve ep.spec.model.source
      ∷ bytes "--host"
      ∷ bytes "0.0.0.0"
      ∷ bytes "--port"
      ∷ decimal (pos 8000)
      ∷ [])
    ++ ((if ltb_ℤ (pos 1) ep.spec.resources.gpu
          then bytes "--tensor-parallel-size" ∷ decimal ep.spec.resources.gpu ∷ []
          else [])
        ++ ep.spec.engine.args)

unfoldable pub render_pod_spec : Text → CodaEndpoint → NodeProfile → PodPatch → Result PodSpec
unfolding serve_args
render_pod_spec image ep node kv_patch =
    let fake = contains (to_lower image) (bytes "fakevllm") in
    ok (record {
      node_name = [];
      containers =
          record {
            name = bytes "vllm";
            image = image;
            command = if fake then [] else bytes "vllm" ∷ [];
            args = if fake then [] else serve_args ep;
            env = plain_env (bytes "PYTHONHASHSEED") (bytes "0") ∷ kv_patch.env;
            ports = record { name = bytes "http"; port = pos 8000 } ∷ [];
            limits = [];
            requests = [];
            volume_mounts = kv_patch.volume_mounts;
            readiness_probe = some readiness_probe;
          }
          ∷ kv_patch.containers;
      init_containers = kv_patch.init_containers;
      volumes = kv_patch.volumes;
      node_selector = [];
      tolerations = [];
    })

-- New(image), with its default image
unfoldable pub new : Text → Engine
unfolding render_pod_spec text_beq
new image =
    let used = if text_beq image [] then bytes "vllm/vllm-openai:latest" else image in
    record {
      name = engine_name;
      render_pod_spec = render_pod_spec used;
      readiness_probe = readiness_probe;
      metrics_endpoint = bytes "/metrics";
      served_model_id = λ ep. ep.spec.model.source;
    }

unfoldable pub validate_engine_type : Text → Result (Unit {0})
validate_engine_type t =
    if not (text_beq (to_lower t) engine_name)
    then err
        (message (bytes "engine type " ++ (quoted t ++ bytes " not supported in v1 (only vllm)")))
    else ok tt
