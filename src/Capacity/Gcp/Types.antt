-- ===== src/Capacity/Gcp/Types.antt =====
-- The provider's own fields, and what it asks of Compute Engine.
use opencoda.Prelude.{
  Bool, ◌||◌, Option, none, some, List, [], last?, ℤ, Text, bytes, split, contains, Dict,
}
use opencoda.Capacity.Provider.{BootstrapConfig}

abbrev pub provider_name : Text
provider_name = bytes "gcp"

-- The fields that no method changes.
pub record Provider : Type 0 where
  pub project : Text
  pub zone : Text
  pub pool_name : Text
  pub instance_types : List Text
  pub boot : BootstrapConfig

-- The fields of computepb.Instance that are set, each list with its one entry.
pub record Instance : Type 0 where
  pub name : Text
  pub provisioning_model : Text
  pub source_image : Text
  pub auto_delete : Bool
  pub boot_disk : Bool
  pub network : Text
  pub access_config : Text × Text
  pub metadata : Dict Text
  pub accelerator_count : ℤ
  pub accelerator_type : Text

pub record InsertRequest : Type 0 where
  pub project : Text
  pub zone : Text
  pub resource : Instance

pub record DeleteRequest : Type 0 where
  pub project : Text
  pub zone : Text
  pub instance : Text

-- A call is refused with an error's text, or its operation ends well or with an error's text.
pub data Operation : Type 0 where
  refused : Text → Operation
  ended : Option Text → Operation

pub record Compute (W : Type 0) : Type 0 where
  pub insert_instance : InsertRequest → W → W × Operation
  pub delete_instance : DeleteRequest → W → W × Operation

-- isGCPExhausted of an error with this text
unfoldable pub is_exhausted : Text → Bool
is_exhausted msg =
    contains msg (bytes "ZONE_RESOURCE_POOL_EXHAUSTED")
    || (contains msg (bytes "RESOURCE_POOL_EXHAUSTED") || contains msg (bytes "QUOTA_EXCEEDED"))

unfoldable pub last_part : List Text → Text
last_part parts = elim (last? parts) [ none ↦ [] | some part ↦ part ]

unfoldable pub parse_instance_name : Text → Text
unfolding last_part
parse_instance_name provider_id = last_part (split b'/' provider_id)
