-- ===== src/Flows/Tests.antt =====
-- Examples of what passes between components.
use opencoda.Prelude.{
  ◌≡◌, refl, true, Option, none, [], ◌∷◌, arith, if◌then◌else◌, ◌-ℤ◌, ltb_ℤ, int_laws, pos, Text,
  bytes, text_beq, trim_space, parse_ℕ, Dict, lookup, get_or, erase,
}
use opencoda.Api.{Time, Duration, CodaEndpoint}
use opencoda.Api.Sample.{endpoint, pool}
use opencoda.Buffer.Views.{ice_window, pool_view}
use opencoda.Capacity.Aws.Provision.{provision}
use opencoda.Capacity.Aws.Factory.{provider_of, provider_on}
use opencoda.Capacity.Contract.Kept.{aws-Contract}
use opencoda.Capacity.Aws.Types.{
  is_insufficient_capacity, split_csv, Provider, Ec2, api_error, refused, images,
}
use opencoda.Capacity.Aws.Images.{
  resolve_ami, find_ami, latest_gpu_ami, name_patterns, text_greater,
}
use opencoda.Capacity.Memory.{Memory, Memories, fresh}
use opencoda.Capacity.{returns, Offer, CapacityReport, CapacityProvider}
use opencoda.Endpoint.Desired.{key_of, desired_replicas}
use opencoda.Floats.Sample.{sample}
use opencoda.Gateway.Autoscaler.{Autoscaler, evaluate}
use opencoda.Gateway.Sync.{patch_desired_replicas, patch_endpoint}
use opencoda.Results.{ice, ok, err}
use opencoda.Scheduler.Sort.Insertion.{insertion}
use opencoda.Flows.Ice.{seen, pool_view-provision}
use opencoda.Flows.Replicas.{wanted, desired_replicas-patch_desired_replicas}

abbrev ep : CodaEndpoint
ep = endpoint (bytes "e") [] 0 5

abbrev at_rest : Autoscaler
at_rest = record { ewma = [] }

-- Three requests in flight and four queued, at two for each replica.
three_wanted : wanted sample at_rest ep 3 4 ≡ pos 3
unfolding evaluate
three_wanted = refl

desired_replicas-patch_desired_replicas_example :
    (written : CodaEndpoint) × (patch_desired_replicas ep (wanted sample at_rest ep 3 4)
      ≡ patch_endpoint written ∷ [])
    × ((parse_duration : Text → Option Duration) (now : Time) (idle_since : Dict Time)
        → desired_replicas parse_duration written now idle_since
          ≡ (erase (key_of ep.metadata) idle_since, wanted sample at_rest ep 3 4))
desired_replicas-patch_desired_replicas_example =
    desired_replicas-patch_desired_replicas sample at_rest ep 3 4 2 (omega (arith, int_laws))
      three_wanted (omega arith)

-- An EC2 with an image and no capacity.
abbrev full : Ec2 Memory
full = record {
  spot_price_history = λ t w. (w, none);
  describe_images =
      λ pattern w. (w, images (record { image_id = bytes "ami"; creation_date = [] } ∷ []));
  run_instances = λ input w. (w, refused (api_error (bytes "InsufficientInstanceCapacity") []));
  terminate_instances = λ id w. (w, none);
}

abbrev aws : Provider
aws =
    provider_of (pool (bytes "p"))
      (record { api_server_url = []; ca_bundle = []; join_token = []; cluster_name = [] })

abbrev offer : Offer
offer = record {
  id = [];
  instance_type = [];
  zone = [];
  hourly_usd = 21;
  expires_at = pos 0;
  interruptible = true;
}

abbrev same : Text → Text
same t = t

abbrev cells : Memories Memory
cells = record { read = λ name m. m; write = λ name m w. m; read-write = λ name m w. refl }

abbrev prov : CapacityProvider Memory
prov = provider_on sample insertion cells parse_ℕ same same (λ m. pos 50) (λ m. 50) full aws

no_capacity : (prov.provision offer (fresh sample)).1 ≡ returns (err ice)
unfolding provider_on provision resolve_ami find_ami latest_gpu_ami name_patterns provider_of
    split_csv insertion get_or lookup text_beq trim_space text_greater is_insufficient_capacity
no_capacity = refl

pool_view-provision_example :
    (r : CapacityReport) × (prov.capacity (bytes "p") (prov.provision offer (fresh sample)).0
      ≡ ((prov.provision offer (fresh sample)).0, ok r))
    × ((later : Time)
        → (pool_view sample later (seen r (pool (bytes "p")))).ice_penalty
          ≡ (if ltb_ℤ (later -ℤ ice_window) (pos 50) then sample.ratio 2 1 else sample.ratio 1 1))
pool_view-provision_example =
    pool_view-provision (λ m. pos 50) prov
      (aws-Contract sample insertion cells parse_ℕ same same (λ m. pos 50) (λ m. 50) full aws)
      (bytes "p") offer (fresh sample) sample (pool (bytes "p")) no_capacity
