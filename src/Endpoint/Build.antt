-- ===== src/Endpoint/Build.antt =====
-- buildPod, applyGPUScheduling and selectKV: the pod of one replica.
use opencoda.Prelude.{
  quoted, ◌≡◌, Bool, false, not, Option, none, some, List, [], ◌∷◌, ◌++◌, map, arith, if◌then◌else◌,
  leb_ℤ, ℤ, pos, Text, bytes, text_beq, decimal, insert,
}
use opencoda.Api.{Time, CodaEndpoint}
use opencoda.Api.Cluster.{Pod, PodSpec, Container}
use opencoda.Clock.{Clock}
use opencoda.Constants.{annotation_spec_hash, annotation_pod_created_at, label_gpu, label_endpoint}
use opencoda.Engine.{Engine, NodeProfile}
use opencoda.Engine as Engines
use opencoda.Floats.{FloatOps}
use opencoda.Kv.{KvProvider}
use opencoda.Kv as Kvs
use opencoda.Kv.LmCache
use opencoda.Kv.Null
use opencoda.Results.{◌>>=◌, Result, ok, err, message}

abbrev pub lm_cache_enabled : CodaEndpoint → Bool
lm_cache_enabled ep = elim ep.spec.kv.lm_cache [ none ↦ false | some lm ↦ lm.enabled ]

-- `none` is a nil provider, whose use panics; NewReconciler registers both.
unfoldable pub select_kv : Kvs.Registry → CodaEndpoint → Option KvProvider
select_kv registry ep =
    let null_provider = Kvs.get Null.provider_name registry in
    if lm_cache_enabled ep
    then (elim (Kvs.get LmCache.provider_name registry) [ none ↦ null_provider | some p ↦ some p ])
    else null_provider

abbrev pub transfer_args : List Text
transfer_args =
    bytes "--kv-transfer-config"
    ∷ bytes
        "{\"kv_connector\":\"LMCacheMPConnector\",\"kv_role\":\"kv_both\",\"kv_connector_extra_config\":{\"lmcache.mp.host\":\"tcp://localhost\",\"lmcache.mp.port\":5555}}"
    ∷ []

-- The loop that ends at the first container named vllm.
unfoldable pub add_transfer_args : List Container → List Container
add_transfer_args [] = []
add_transfer_args (c ∷ cs) =
    let rest = add_transfer_args cs in
    if text_beq c.name (bytes "vllm")
    then record c { args = c.args ++ transfer_args } ∷ cs
    else c ∷ rest

abbrev with_gpus : ℤ → Container → Container
with_gpus gpu c = if not (text_beq c.name (bytes "vllm")) then c else record c {
  limits = insert (bytes "nvidia.com/gpu") gpu c.limits;
  requests = insert (bytes "nvidia.com/gpu") gpu c.requests;
}

unfoldable pub apply_gpu_scheduling : CodaEndpoint → PodSpec → PodSpec
apply_gpu_scheduling ep spec = if leb_ℤ ep.spec.resources.gpu (pos 0) then spec else record spec {
  node_selector = insert label_gpu (bytes "true") spec.node_selector;
  tolerations =
      spec.tolerations
      ++ (record {
        key = bytes "opencoda.io/gpu";
        operator = bytes "Exists";
        effect = bytes "NoSchedule";
      }
          ∷ []);
  containers = map (with_gpus ep.spec.resources.gpu) spec.containers;
}

-- fmt.Sprintf("%s-replica-%d", ep.Name, index)
unfoldable pub replica_name : CodaEndpoint → ℤ → Text
replica_name ep index = ep.metadata.name ++ (bytes "-replica-" ++ decimal index)

module _ (fl : FloatOps) (clock : Clock) (now : Time) where
  abbrev pub node_profile : NodeProfile
  node_profile = record {
    pinned_memory_gib = fl.ratio 8 1;
    nvme_cache_dir = bytes "/var/cache/opencoda";
  }

  -- The pod around a rendered spec.
  unfoldable pub replica_pod : CodaEndpoint → ℤ → Text → PodSpec → Pod
  unfolding add_transfer_args apply_gpu_scheduling replica_name
  replica_pod ep index spec_hash spec =
      let extended =
        if lm_cache_enabled ep
        then record spec { containers = add_transfer_args spec.containers }
        else spec in
      record {
        metadata = record {
          name = replica_name ep index;
          namespace = ep.metadata.namespace;
          labels =
              (label_endpoint, ep.metadata.name)
              ∷ (bytes "app.kubernetes.io/name", bytes "opencoda")
              ∷ [];
          annotations =
              (annotation_spec_hash, spec_hash)
              ∷ (annotation_pod_created_at, clock.format_time now)
              ∷ [];
          creation_timestamp = pos 0;
        };
        spec = apply_gpu_scheduling ep extended;
        pod_ip = [];
        conditions = [];
      }

  abbrev pub rendered : Engine → CodaEndpoint → ℤ → Text → KvProvider → Result Pod
  rendered eng ep index spec_hash kv = do
    kv_patch ← kv.render_pod_patch ep node_profile
    spec ← eng.render_pod_spec ep node_profile kv_patch
    ok (replica_pod ep index spec_hash spec)

  unfoldable pub build_pod : Engines.Registry → Kvs.Registry → CodaEndpoint → ℤ → Text → Result Pod
  unfolding select_kv replica_pod
  build_pod engines kvs ep index spec_hash = elim (Engines.get ep.spec.engine.kind engines) [
    | none ↦
        err (message (bytes "engine " ++ (quoted ep.spec.engine.kind ++ bytes " not registered")))
    | some eng ↦ elim (select_kv kvs ep) [
      | none ↦ err (message (bytes "nil pointer dereference"))
      | some kv ↦ rendered eng ep index spec_hash kv
    ]
  ]

  pub build_pod-name :
      (engines : Engines.Registry) (kvs : Kvs.Registry) (ep : CodaEndpoint) (index : ℤ)
      (spec_hash : Text) (pod : Pod)
      → build_pod engines kvs ep index spec_hash ≡ ok pod
      → pod.metadata.name ≡ replica_name ep index
  unfolding build_pod
  build_pod-name engines kvs ep index spec_hash pod e = ground arith
