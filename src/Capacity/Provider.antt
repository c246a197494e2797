-- ===== src/Capacity/Provider.antt =====
-- pkg/capacity/provider.go and registry.go. What a provider does outside the cluster is a change
-- of a world `W`.
use opencoda.Prelude.{
  quoted, Bool, none, some, List, [], ◌++◌, ℤ, Text, bytes, Dict, lookup, insert,
}
use opencoda.Api.{Time, Float64, GpuPool}
use opencoda.Results.{Result, err, message}

pub record Constraints : Type 0 where
  pub region : Text
  pub zone : Text
  pub capacity_type : Text
  pub max_hourly_usd : Float64

pub record GpuRequest : Type 0 where
  pub pool_name : Text
  pub gpu_type : Text
  pub gpu_count : ℤ
  pub node_count : ℤ
  pub instance_types : List Text
  pub subnets : List Text
  pub constraints : Constraints

pub record Offer : Type 0 where
  pub id : Text
  pub instance_type : Text
  pub zone : Text
  pub hourly_usd : Float64
  pub expires_at : Time
  pub interruptible : Bool

pub record NodeHandle : Type 0 where
  pub provider_id : Text
  pub node_name : Text
  pub labels : Dict Text
  pub launched_at : Time

pub record CapacityReport : Type 0 where
  pub available : ℤ
  pub recent_ice : List Time
  pub observed_hourly_usd : Float64

-- How a call ends: it returns, or it panics.
pub data Call (A : Type 0) : Type 0 where
  panics : Call A
  returns : A → Call A

-- A call that returns, and what it returns.
abbrev pub returning : {W A : Type 0} → W × A → W × Call A
returning t = (t.0, returns t.1)

pub record CapacityProvider (W : Type 0) : Type 0 where
  pub name : Text
  pub quote : GpuRequest → W → W × Result (List Offer)
  pub provision : Offer → W → W × Call (Result NodeHandle)
  pub release : NodeHandle → W → W × Result (Unit {0})
  pub capacity : Text → W → W × Result CapacityReport

pub record BootstrapConfig : Type 0 where
  pub api_server_url : Text
  pub ca_bundle : Text
  pub join_token : Text
  pub cluster_name : Text

abbrev pub Factory : Type 0 → Type 0
Factory W = GpuPool → Dict Text → BootstrapConfig → Result (CapacityProvider W)

pub record FactoryRegistry (W : Type 0) : Type 0 where
  pub factories : Dict (Factory W)

module _ {W : Type 0} where
  unfoldable pub new_factory_registry : FactoryRegistry W
  new_factory_registry = record { factories = [] }

  unfoldable pub register : Text → Factory W → FactoryRegistry W → FactoryRegistry W
  register name f r = record { factories = insert name f r.factories }

  unfoldable pub make_for_pool :
      FactoryRegistry W → GpuPool → Dict Text → BootstrapConfig → Result (CapacityProvider W)
  make_for_pool r pool creds boot = elim (lookup pool.spec.provider.name r.factories) [
    | none ↦ err (message (bytes "unknown capacity provider " ++ quoted pool.spec.provider.name))
    | some f ↦ f pool creds boot
  ]
