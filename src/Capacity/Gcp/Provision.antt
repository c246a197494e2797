-- ===== src/Capacity/Gcp/Provision.antt =====
-- NewFactory, Quote, Provision, Release and Capacity.
use opencoda.Prelude.{
  ℕ, true, Option, none, some, List, [], ◌∷◌, ◌++◌, if◌then◌else◌, ◌+ℤ◌, pos, Text, bytes, text_beq,
  decimal_ℕ, Dict, get_or,
}
use opencoda.Api.{Time, GpuPool}
use opencoda.Capacity.Bootstrap.{Config, startup_script}
use opencoda.Capacity.Memory.{Memory, Memories, on_world}
use opencoda.Capacity.Provider.{
  returning, Factory, GpuRequest, Offer, NodeHandle, CapacityReport, CapacityProvider,
  BootstrapConfig,
}
use opencoda.Floats.{FloatOps}
use opencoda.Results.{Result, ice, message, ok, err}
use opencoda.Capacity.Gcp.Types.{
  provider_name, is_exhausted, parse_instance_name, Provider, InsertRequest, Operation, Compute,
  refused, ended,
}

abbrev first_or : List Text → Text → Text
first_or [] default = default
first_or (t ∷ ts) default = t

abbrev pub or_default : Text → Text → Text
or_default t default = if text_beq t [] then default else t

unfoldable pub provider_of : GpuPool → Dict Text → BootstrapConfig → Provider
unfolding text_beq
provider_of pool creds boot = record {
  project =
      or_default (get_or pool.spec.provider.params (bytes "project") [])
        (get_or creds (bytes "GCP_PROJECT") []);
  zone = or_default (get_or pool.spec.provider.params (bytes "zone") []) (bytes "us-central1-a");
  pool_name = pool.metadata.name;
  instance_types = pool.spec.instance_types;
  boot = boot;
}

unfoldable pub json_credentials : Dict Text → Option Text
unfolding text_beq
json_credentials creds =
    let json = get_or creds (bytes "GOOGLE_APPLICATION_CREDENTIALS_JSON") [] in
    if text_beq json [] then none else some json

abbrev pub config_of : Provider → Config
config_of p = record {
  api_server_url = p.boot.api_server_url;
  ca_bundle = p.boot.ca_bundle;
  join_token = p.boot.join_token;
  pool_name = p.pool_name;
  cluster_name = [];
  join_mode = bytes "gke";
}

abbrev pub instance_name : Provider → ℕ → Text
instance_name p unix_nano = bytes "coda-" ++ (p.pool_name ++ (b'-' ∷ decimal_ℕ unix_nano))

unfoldable pub insert_request : (Text → Text) → Provider → ℕ → InsertRequest
unfolding startup_script
insert_request quote p unix_nano = record {
  project = p.project;
  zone = p.zone;
  resource = record {
    name = instance_name p unix_nano;
    provisioning_model = bytes "SPOT";
    source_image = bytes "projects/debian-cloud/global/images/family/debian-12";
    auto_delete = true;
    boot_disk = true;
    network = bytes "global/networks/default";
    access_config = (bytes "External NAT", bytes "ONE_TO_ONE_NAT");
    metadata =
        (bytes "startup-script", startup_script quote (config_of p))
        ∷ (bytes "opencoda-pool", p.pool_name)
        ∷ [];
    accelerator_count = pos 1;
    accelerator_type = bytes "zones/" ++ (p.zone ++ bytes "/acceleratorTypes/nvidia-tesla-a100");
  };
}

abbrev pub handle_of : Provider → Time → ℕ → NodeHandle
handle_of p now unix_nano = record {
  provider_id =
      bytes "gcp://" ++ (p.project ++ (b'/' ∷ (p.zone ++ (b'/' ∷ instance_name p unix_nano))));
  node_name = instance_name p unix_nano;
  labels =
      (bytes "opencoda.dev/provider", provider_name)
      ∷ (bytes "opencoda.dev/pool", p.pool_name)
      ∷ [];
  launched_at = now;
}

-- What becomes of an error of Insert or of the operation.
unfoldable pub failed : Time → Text → Memory → Memory × Result NodeHandle
unfolding is_exhausted
failed now msg m =
    if is_exhausted msg
    then (record m { last_ice = m.last_ice ++ (now ∷ []) }, err ice)
    else (m, err (message msg))

abbrev pub finished : Operation → Result (Unit {0})
finished (refused msg) = err (message msg)
finished (ended none) = ok tt
finished (ended (some msg)) = err (message msg)

unfoldable pub capacity : Memory → CapacityReport
capacity m = record {
  available = pos 4;
  recent_ice = m.last_ice;
  observed_hourly_usd = m.hourly_usd;
}

unfoldable pub quote_offers : FloatOps → Time → ℕ → Provider → GpuRequest → Memory → List Offer
unfolding text_beq
quote_offers fl now unix_nano p req m =
    record {
      id = bytes "gcp-" ++ (p.pool_name ++ (b'-' ∷ decimal_ℕ unix_nano));
      instance_type =
          first_or req.instance_types (first_or p.instance_types (bytes "a2-highgpu-1g"));
      zone = or_default req.constraints.zone p.zone;
      hourly_usd = if fl.equal m.hourly_usd (fl.ratio 0 1) then fl.ratio 5 2 else m.hourly_usd;
      expires_at = now +ℤ pos 300_000_000_000;
      interruptible = true;
    }
    ∷ []

module _ {W : Type 0} (compute : Compute W) where
  unfoldable pub provision :
      (Text → Text) → Time → ℕ → Provider → Offer → Memory → W → Memory × W × Result NodeHandle
  unfolding insert_request failed
  provision quote now unix_nano p offer m w =
      let (w', op) = compute.insert_instance (insert_request quote p unix_nano) w in
      elim op [
        | refused msg ↦ let (m', r) = failed now msg m in (m', w', r)
        | ended result ↦ elim result [
          | some msg ↦ let (m', r) = failed now msg m in (m', w', r)
          | none ↦ (m, w', ok (handle_of p now unix_nano))
        ]
      ]

  unfoldable pub release : Provider → NodeHandle → W → W × Result (Unit {0})
  unfolding parse_instance_name text_beq
  release p h w =
      let (w', op) =
        compute.delete_instance
          (record {
            project = p.project;
            zone = p.zone;
            instance = or_default (parse_instance_name h.provider_id) h.node_name;
          })
          w in
      (w', finished op)

-- `now` and `unix_nano` read the clock in a world; one reading serves a call.
module _ {W : Type 0} (fl : FloatOps) (cells : Memories W) (quote : Text → Text) (now : W → Time)
    (unix_nano : W → ℕ) where
  unfoldable pub provider_on : Compute W → Provider → CapacityProvider W
  provider_on compute p = record {
    name = provider_name;
    quote = λ req.
        on_world cells p.pool_name
          (λ m w. (m, w, ok (quote_offers fl (now w) (unix_nano w) p req m)));
    provision = λ offer w. returning (
        on_world cells p.pool_name
          (λ m w. provision compute quote (now w) (unix_nano w) p offer m w) w);
    release = release compute p;
    capacity = λ pool_name w. (w, ok (capacity (cells.read p.pool_name w)));
  }

  -- `new_client` is compute.NewInstancesRESTClient, with the credentials' JSON if there is any.
  unfoldable pub new_factory : (Option Text → Result (Compute W)) → Factory W
  unfolding provider_of json_credentials provider_on
  new_factory new_client pool creds boot = elim (new_client (json_credentials creds)) [
    | err e ↦ err e
    | ok compute ↦ ok (provider_on compute (provider_of pool creds boot))
  ]
