-- ===== src/Api/Sample.antt =====
-- An endpoint, a pod and a pool that the examples share.
use opencoda.Prelude.{ℕ, true, none, [], ◌∷◌, pos, Text, bytes, Dict}
use opencoda.Api.{ObjectMeta, GpuPool, CodaEndpoint}
use opencoda.Api.Cluster.{Pod}

abbrev pub meta : Text → ObjectMeta
meta name = record {
  name = name;
  namespace = bytes "default";
  labels = [];
  annotations = [];
  creation_timestamp = pos 0;
}

-- An endpoint with the given annotations and bounds of its replicas.
abbrev pub endpoint : Text → Dict Text → ℕ → ℕ → CodaEndpoint
endpoint name annotations min max = record {
  metadata = record (meta name) { annotations = annotations };
  spec = record {
    model = record { source = bytes "hf://m"; quantization = [] };
    engine = record { kind = bytes "vllm"; version = bytes "v1"; args = [] };
    resources = record { gpu = pos 1; gpu_type = bytes "h100" };
    runtime = record { class = [] };
    scaling = record {
      min_replicas = pos min;
      max_replicas = pos max;
      target = record { metric = bytes "concurrency"; value = pos 2 };
      scale_to_zero_after = [];
    };
    snapshot = none;
    kv = record { lm_cache = none };
  };
  status = record {
    replicas = record { ready = pos 0; starting = pos 0 };
    cold_start = record { p50_ms = pos 0; p95_ms = pos 0 };
    kv_hit_rate = 0;
    conditions = [];
  };
}

-- A ready pod of the given spec hash.
abbrev pub ready_pod : Text → Text → Pod
ready_pod name hash = record {
  metadata = record (meta name) { annotations = (bytes "opencoda.dev/spec-hash", hash) ∷ [] };
  spec = record {
    node_name = [];
    containers = [];
    init_containers = [];
    volumes = [];
    node_selector = [];
    tolerations = [];
  };
  pod_ip = bytes "10.0.0.1";
  conditions = record { is_pod_ready = true; is_true = true } ∷ [];
}

abbrev pub pool : Text → GpuPool
pool name = record {
  metadata = meta name;
  spec = record {
    provider = record {
      name = bytes "static";
      credentials_ref = record { secret_name = [] };
      params = [];
    };
    instance_types = [];
    gpu = record { kind = bytes "h100"; per_node = pos 8 };
    limits = record { max_nodes = pos 2; max_hourly_usd = 0 };
    priority = pos 0;
    taints = [];
  };
  status = record {
    observed_capacity = record { available = pos 0; last_ice = pos 0; observed_hourly_usd = 0 };
    nodes = record { active = pos 0; buffered = pos 0; provisioning = pos 0 };
    node_records = [];
    conditions = [];
  };
}
