-- ===== src/Capacity/Aws/Factory.antt =====
-- NewFactory and loadAWSConfig. Loading the configuration and making the client are the SDK's: an
-- argument, by the region and the static credentials, if there are any.
use opencoda.Prelude.{
  ℕ, Option, none, some, [], if◌then◌else◌, Text, bytes, text_beq, Dict, lookup, get_or,
}
use opencoda.Api.{Time, Float64, GpuPool}
use opencoda.Capacity.Memory.{Memories, on_world}
use opencoda.Capacity.Provider.{Factory, CapacityProvider, BootstrapConfig}
use opencoda.Floats.{FloatOps}
use opencoda.Results.{Result, ok, err}
use opencoda.Scheduler.Sort.{SortSlice}
use opencoda.Capacity.Aws.Types.{provider_name, split_csv, Provider, Image, Ec2}
use opencoda.Capacity.Aws.Provision.{quote_offers, provision, release, capacity}

pub record StaticCredentials : Type 0 where
  pub access_key : Text
  pub secret_key : Text
  pub session_token : Text

unfoldable pub static_credentials : Dict Text → Option StaticCredentials
static_credentials creds = elim (lookup (bytes "AWS_ACCESS_KEY_ID") creds) [
  | none ↦ none
  | some ak ↦ some (record {
    access_key = ak;
    secret_key = get_or creds (bytes "AWS_SECRET_ACCESS_KEY") [];
    session_token = get_or creds (bytes "AWS_SESSION_TOKEN") [];
  })
]

abbrev param_or : GpuPool → Text → Text → Text
param_or pool key default =
    let value = get_or pool.spec.provider.params key [] in
    if text_beq value [] then default else value

unfoldable pub provider_of : GpuPool → BootstrapConfig → Provider
unfolding split_csv text_beq
provider_of pool boot = record {
  region = param_or pool (bytes "region") (bytes "us-east-1");
  pool_name = pool.metadata.name;
  instance_types = pool.spec.instance_types;
  subnets = split_csv (get_or pool.spec.provider.params (bytes "subnets") []);
  capacity_type = param_or pool (bytes "capacityType") (bytes "spot");
  params = pool.spec.provider.params;
  boot = boot;
}

-- `now` and `unix_nano` read the clock in a world; one reading serves a call.
module _ {W : Type 0} (fl : FloatOps) (s : SortSlice Image) (cells : Memories W)
    (scan_float : Text → Option Float64) (quote base64 : Text → Text) (now : W → Time)
    (unix_nano : W → ℕ) where
  unfoldable pub provider_on : Ec2 W → Provider → CapacityProvider W
  provider_on ec2 p = record {
    name = provider_name;
    quote = λ req.
        on_world cells p.pool_name
          (λ m w. quote_offers ec2 fl (now w) scan_float (unix_nano w) p req m w);
    provision = λ offer.
        on_world cells p.pool_name (λ m w. provision ec2 fl (now w) s quote base64 p offer m w);
    release = λ h w. release ec2 fl (now w) h w;
    capacity = λ pool_name w. (w, ok (capacity (cells.read p.pool_name w)));
  }

  unfoldable pub new_factory : (Text → Option StaticCredentials → Result (Ec2 W)) → Factory W
  unfolding provider_of static_credentials provider_on
  new_factory load_config pool creds boot =
      elim (load_config (provider_of pool boot).region (static_credentials creds)) [
        | err e ↦ err e
        | ok ec2 ↦ ok (provider_on ec2 (provider_of pool boot))
      ]
