-- ===== src/Kv/LmCache.antt =====
-- pkg/kv/lmcache/lmcache.go. json.Marshal of the adapter's spec is an argument.
use opencoda.Prelude.{
  Bool, true, false, not, none, some, List, [], ◌∷◌, ◌++◌, if◌then◌else◌, pos, Text, bytes,
  text_beq, has_prefix, trim_prefix, decimal,
}
use opencoda.Api.{Float64, CodaEndpoint, LmCacheSpec}
use opencoda.Api.Cluster.{Container, EnvVar}
use opencoda.Engine.{PodPatch, NodeProfile, empty_patch}
use opencoda.Engine.Vllm.{plain_env}
use opencoda.Floats.{FloatOps}
use opencoda.Kv.Types.{KvProvider}
use opencoda.Kv.Fingerprint.{fingerprint}
use opencoda.Results.{◌>>=◌, Result, ok}

abbrev pub provider_name : Text
provider_name = bytes "lmcache"

pub record L2AdapterSpec : Type 0 where
  pub kind : Text
  pub s3_endpoint : Text
  pub s3_region : Text
  pub disable_tls : Bool
  pub s3_prefer_http2 : Bool
  pub s3_enable_s3_express : Bool
  pub max_capacity_gb : Float64
  pub aws_access_key_id : Text
  pub aws_secret_access_key : Text

abbrev or_default : Text → Text → Text
or_default s default = if text_beq s [] then default else s

abbrev secret_env : Text → EnvVar
secret_env name = record {
  name = name;
  value = [];
  from = some (record { secret = bytes "garage-s3-credentials"; key = name; optional = true });
}

module _ (fl : FloatOps) (marshal : L2AdapterSpec → Result Text) (garage_endpoint : Text) where
  unfoldable pub adapter_spec : LmCacheSpec → L2AdapterSpec
  unfolding text_beq
  adapter_spec lm =
      let remote_endpoint = or_default lm.remote_ref.endpoint garage_endpoint in
      let s3_host =
        trim_prefix (trim_prefix remote_endpoint (bytes "http://")) (bytes "https://") in
      record {
        kind = bytes "s3";
        s3_endpoint = s3_host;
        s3_region = bytes "us-east-1";
        disable_tls = has_prefix remote_endpoint (bytes "http://");
        s3_prefer_http2 = false;
        s3_enable_s3_express = false;
        max_capacity_gb = fl.ratio 8 1;
        aws_access_key_id = bytes "opencoda";
        aws_secret_access_key = bytes "opencoda-garage-secret";
      }

  unfoldable pub lmcache_server : Text → Container
  lmcache_server l2_json = record {
    name = bytes "lmcache-server";
    image = bytes "lmcache/standalone:v0.5.0";
    command = bytes "lmcache" ∷ bytes "server" ∷ [];
    args =
        bytes "--host"
        ∷ bytes "0.0.0.0"
        ∷ bytes "--port"
        ∷ decimal (pos 5555)
        ∷ bytes "--l1-size-gb"
        ∷ bytes "4"
        ∷ bytes "--eviction-policy"
        ∷ bytes "LRU"
        ∷ bytes "--l2-adapter"
        ∷ l2_json
        ∷ [];
    env =
        plain_env (bytes "LMCACHE_CHUNK_SIZE") (bytes "256")
        ∷ plain_env (bytes "PYTHONHASHSEED") (bytes "0")
        ∷ secret_env (bytes "AWS_ACCESS_KEY_ID")
        ∷ secret_env (bytes "AWS_SECRET_ACCESS_KEY")
        ∷ [];
    ports = record { name = bytes "mp"; port = pos 5555 } ∷ [];
    limits = [];
    requests = [];
    volume_mounts = [];
    readiness_probe = none;
  }

  unfoldable pub vllm_env : Text → List EnvVar
  vllm_env bucket =
      plain_env (bytes "PYTHONHASHSEED") (bytes "0")
      ∷ plain_env (bytes "LMCACHE_CHUNK_SIZE") (bytes "256")
      ∷ plain_env (bytes "LMCACHE_REMOTE_URL") (bytes "s3://" ++ bucket)
      ∷ plain_env (bytes "LMCACHE_REMOTE_SERDE") (bytes "naive")
      ∷ []

  abbrev enabled_patch : LmCacheSpec → Result PodPatch
  enabled_patch lm = do
    l2_json ← marshal (adapter_spec lm)
    ok (record {
      containers = lmcache_server l2_json ∷ [];
      init_containers = [];
      env = vllm_env (or_default lm.remote_ref.bucket (bytes "coda-kv"));
      volumes = [];
      volume_mounts = [];
    })

  unfoldable pub render_pod_patch : CodaEndpoint → NodeProfile → Result PodPatch
  unfolding adapter_spec lmcache_server vllm_env
  render_pod_patch ep node = elim ep.spec.kv.lm_cache [
    | none ↦ ok empty_patch
    | some lm ↦ if not lm.enabled then ok empty_patch else enabled_patch lm
  ]

  unfoldable pub new : KvProvider
  unfolding render_pod_patch
  new = record {
    name = provider_name;
    capabilities = record {
      warm_restore = true;
      affinity_hints = true;
      shared_remote_tier = true;
      tier_spill = true;
    };
    render_pod_patch = render_pod_patch;
    on_restore = λ replica. ok tt;
    fingerprint = fingerprint;
  }
