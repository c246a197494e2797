-- ===== src/Capacity/Aws/Types.antt =====
-- The provider's own fields, and what it asks of EC2.
use opencoda.Prelude.{
  Bool, false, ◌||◌, Option, none, some, List, [], ◌∷◌, if◌then◌else◌, last?, Text, bytes, text_beq,
  split, trim_space, Dict,
}
use opencoda.Capacity.Provider.{BootstrapConfig}
use opencoda.Results.{Error, message}

abbrev pub provider_name : Text
provider_name = bytes "aws"

-- The fields that no method changes.
pub record Provider : Type 0 where
  pub region : Text
  pub pool_name : Text
  pub instance_types : List Text
  pub subnets : List Text
  pub capacity_type : Text
  pub params : Dict Text
  pub boot : BootstrapConfig

-- An error of the API with its code, or any other.
pub data Ec2Error : Type 0 where
  api_error : Text → Text → Ec2Error
  other_error : Text → Ec2Error

-- The texts of an image and of an instance as aws.ToString gives them. An instance may have no
-- placement; else it is that of its zone.
pub record Image : Type 0 where
  pub image_id : Text
  pub creation_date : Text

pub record Instance : Type 0 where
  pub instance_id : Text
  pub placement : Option Text

pub record RunInput : Type 0 where
  pub image_id : Text
  pub instance_type : Text
  pub user_data : Text
  pub tags : Dict Text
  pub subnet_id : Option Text
  pub instance_profile : Option Text
  pub security_group_ids : List Text
  pub spot : Bool

pub data Ran : Type 0 where
  refused : Ec2Error → Ran
  started : List Instance → Ran

pub data Described : Type 0 where
  unknown : Ec2Error → Described
  images : List Image → Described

pub record Ec2 (W : Type 0) : Type 0 where
  -- The spot prices of an instance type, one at most; `none` is an error.
  pub spot_price_history : Text → W → W × Option (List (Option Text))
  -- The images of Amazon of a name pattern that are available for x86_64.
  pub describe_images : Text → W → W × Described
  pub run_instances : RunInput → W → W × Ran
  pub terminate_instances : Text → W → W × Option Ec2Error

-- The error's text.
abbrev pub to_error : Ec2Error → Error
to_error (api_error code m) = message m
to_error (other_error m) = message m

unfoldable pub is_insufficient_capacity : Ec2Error → Bool
unfolding text_beq
is_insufficient_capacity (api_error code m) =
    text_beq code (bytes "InsufficientInstanceCapacity")
    || text_beq code (bytes "InsufficientCapacityException")
is_insufficient_capacity (other_error m) = false

unfoldable pub trimmed_parts : List Text → List Text
unfolding text_beq
trimmed_parts [] = []
trimmed_parts (p ∷ ps) =
    let rest = trimmed_parts ps in if text_beq (trim_space p) [] then rest else trim_space p ∷ rest

unfoldable pub split_csv : Text → List Text
unfolding trimmed_parts text_beq
split_csv s = if text_beq s [] then [] else trimmed_parts (split b',' s)

unfoldable pub last_part : List Text → Text
last_part parts = elim (last? parts) [ none ↦ [] | some part ↦ part ]

unfoldable pub parse_instance_id : Text → Text
unfolding last_part
parse_instance_id provider_id = last_part (split b'/' provider_id)
