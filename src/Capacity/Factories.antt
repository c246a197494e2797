-- ===== src/Capacity/Factories.antt =====
-- internal/capacityfactory/register.go: the registry of the three providers. What the factories need
-- of the clock, the SDKs and the world is theirs.
pub mod Known
mod Tests
use opencoda.Prelude.{ℕ, Option, Text}
use opencoda.Api.{Time, Float64}
use opencoda.Capacity.Memory.{Memories}
use opencoda.Capacity.Provider.{Factory, new_factory_registry, register, FactoryRegistry}
use opencoda.Capacity.Static as Static
use opencoda.Capacity.Aws.Types as Aws
use opencoda.Capacity.Aws.Factory as Ec2
use opencoda.Capacity.Gcp.Types as Gcp
use opencoda.Capacity.Gcp.Provision as Gce
use opencoda.Floats.{FloatOps}
use opencoda.Results.{Result}
use opencoda.Scheduler.Sort.{SortSlice}

-- What the factories are given.
pub record Surroundings (W : Type 0) : Type 0 where
  pub fl : FloatOps
  pub s : SortSlice Aws.Image
  pub aws_cells : Memories W
  pub gcp_cells : Memories W
  pub scan_float : Text → Option Float64
  pub quote : Text → Text
  pub base64 : Text → Text
  pub now : W → Time
  pub unix_nano : W → ℕ
  pub load_config : Text → Option Ec2.StaticCredentials → Result (Aws.Ec2 W)
  pub new_client : Option Text → Result (Gcp.Compute W)

module _ {W : Type 0} (around : Surroundings W) where
  abbrev pub static_factory : Factory W
  static_factory = Static.new_factory around.fl around.now around.unix_nano

  abbrev pub aws_factory : Factory W
  aws_factory =
      Ec2.new_factory around.fl around.s around.aws_cells around.scan_float around.quote
        around.base64 around.now around.unix_nano around.load_config

  abbrev pub gcp_factory : Factory W
  gcp_factory =
      Gce.new_factory around.fl around.gcp_cells around.quote around.now around.unix_nano
        around.new_client

  unfoldable pub new_registry : FactoryRegistry W
  unfolding register new_factory_registry
  new_registry = register Gcp.provider_name gcp_factory (
      register Aws.provider_name aws_factory
        (register Static.provider_name static_factory new_factory_registry))
