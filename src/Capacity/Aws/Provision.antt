-- ===== src/Capacity/Aws/Provision.antt =====
-- Quote, Provision, Release and Capacity.
use opencoda.Prelude.{
  ℕ, ◌||◌, Option, none, some, List, [], ◌∷◌, ◌++◌, if◌then◌else◌, get_elem?, ◌+ℤ◌, pos, Text,
  bytes, text_beq, decimal_ℕ, get_or,
}
use opencoda.Api.{Time, Float64}
use opencoda.Capacity.Bootstrap.{Config, user_data}
use opencoda.Capacity.Memory.{Memory}
use opencoda.Capacity.Provider.{
  Call, returns, panics, GpuRequest, Offer, NodeHandle, CapacityReport,
}
use opencoda.Floats.{FloatOps}
use opencoda.Results.{Result, ice, message, ok, err}
use opencoda.Scheduler.Sort.{SortSlice}
use opencoda.Capacity.Aws.Types.{
  provider_name, to_error, is_insufficient_capacity, split_csv, parse_instance_id, Provider, Image,
  Instance, RunInput, Ec2, refused, started,
}
use opencoda.Capacity.Aws.Images.{resolve_ami}

-- The first of a list of texts, or a default.
abbrev pub first_or : List Text → Text → Text
first_or [] default = default
first_or (t ∷ ts) default = t

abbrev pub instance_type_of : Provider → GpuRequest → Text
instance_type_of p req =
    first_or req.instance_types (first_or p.instance_types (bytes "p5.48xlarge"))

abbrev pub or_default : Text → Text → Text
or_default t default = if text_beq t [] then default else t

unfoldable pub cluster_name_of : Provider → Text
unfolding text_beq
cluster_name_of p = or_default (get_or p.params (bytes "clusterName") []) p.boot.cluster_name

abbrev pub config_of : Provider → Config
config_of p = record {
  api_server_url = p.boot.api_server_url;
  ca_bundle = p.boot.ca_bundle;
  join_token = p.boot.join_token;
  pool_name = p.pool_name;
  cluster_name = cluster_name_of p;
  join_mode = bytes "eks";
}

unfoldable pub run_input : (Text → Text) → (Text → Text) → Provider → Text → Offer → RunInput
unfolding cluster_name_of user_data split_csv text_beq
run_input quote base64 p ami offer =
    let profile = get_or p.params (bytes "nodeInstanceProfile") [] in
    record {
      image_id = ami;
      instance_type = offer.instance_type;
      user_data = base64 (user_data quote (config_of p));
      tags =
          (bytes "opencoda.dev/pool", p.pool_name)
          ∷ (bytes "opencoda.dev/provider", provider_name)
          ∷ (bytes "kubernetes.io/cluster/" ++ cluster_name_of p, bytes "owned")
          ∷ [];
      subnet_id = get_elem? p.subnets 0;
      instance_profile = if text_beq profile [] then none else some profile;
      security_group_ids = split_csv (get_or p.params (bytes "securityGroupIds") []);
      spot = text_beq p.capacity_type (bytes "spot") || offer.interruptible;
    }

abbrev pub handle_of : Provider → Time → Offer → Text → Text → NodeHandle
handle_of p now offer zone instance_id = record {
  provider_id = bytes "aws://" ++ (zone ++ (b'/' ∷ instance_id));
  node_name = bytes "aws-" ++ instance_id;
  labels =
      (bytes "opencoda.dev/provider", provider_name)
      ∷ (bytes "opencoda.dev/pool", p.pool_name)
      ∷ (bytes "opencoda.dev/gpu", bytes "true")
      ∷ (bytes "opencoda.dev/buffer-eligible", bytes "true")
      ∷ (bytes "node.kubernetes.io/instance-type", offer.instance_type)
      ∷ [];
  launched_at = now;
}

unfoldable pub capacity : Memory → CapacityReport
capacity m = record {
  available = pos 8;
  recent_ice = m.last_ice;
  observed_hourly_usd = m.hourly_usd;
}

module _ {W : Type 0} (ec2 : Ec2 W) (fl : FloatOps) (now : Time) where
  -- The price that is asked for while none is known. `scan_float` is fmt.Sscanf with %f.
  unfoldable pub spot_price : (Text → Option Float64) → Text → Memory → W → Memory × W × Float64
  spot_price scan_float instance_type m w =
      let (w', history) = ec2.spot_price_history instance_type w in
      let found : Option Float64 = elim history [
        | none ↦ none
        | some prices ↦ elim (get_elem? prices 0) [
          | none ↦ none
          | some price ↦ elim price [ none ↦ none | some text ↦ scan_float text ]
        ]
      ] in
      let asked : Memory × W × Float64 = elim found [
        | none ↦ (m, w', m.hourly_usd)
        | some v ↦ (record m { hourly_usd = v }, w', v)
      ] in
      if fl.equal m.hourly_usd (fl.ratio 0 1) then asked else (m, w, m.hourly_usd)

  unfoldable pub quote_offers :
      (Text → Option Float64)
      → ℕ
      → Provider
      → GpuRequest
      → Memory
      → W
      → Memory × W × Result (List Offer)
  unfolding spot_price text_beq
  quote_offers scan_float unix_nano p req m w =
      let (m', w', price) = spot_price scan_float (instance_type_of p req) m w in
      (
        m',
        w',
        ok (
            record {
              id = bytes "aws-" ++ (p.pool_name ++ (b'-' ∷ decimal_ℕ unix_nano));
              instance_type = instance_type_of p req;
              zone = or_default req.constraints.zone (p.region ++ bytes "a");
              hourly_usd = if fl.equal price (fl.ratio 0 1) then fl.ratio 21 1 else price;
              expires_at = now +ℤ pos 300_000_000_000;
              interruptible =
                  text_beq p.capacity_type (bytes "spot")
                  || text_beq req.constraints.capacity_type (bytes "spot");
            }
            ∷ []),
      )

  abbrev launched : Provider → Offer → List Instance → Call (Result NodeHandle)
  launched p offer [] = returns (err (message (bytes "no instances returned")))
  launched p offer (inst ∷ rest) = elim inst.placement [
    | none ↦ panics
    | some zone ↦ returns (ok (handle_of p now offer zone inst.instance_id))
  ]

  unfoldable pub provision :
      SortSlice Image
      → (Text → Text)
      → (Text → Text)
      → Provider
      → Offer
      → Memory
      → W
      → Memory × W × Call (Result NodeHandle)
  unfolding run_input
  provision s quote base64 p offer m w =
      let (w', resolved) = resolve_ami ec2 s p w in
      elim resolved [
        | err e ↦ (m, w', returns (err e))
        | ok ami ↦
            let (w'', ran) = ec2.run_instances (run_input quote base64 p ami offer) w' in
            elim ran [
              | started instances ↦ (m, w'', launched p offer instances)
              | refused e ↦
                  if is_insufficient_capacity e
                  then (record m { last_ice = m.last_ice ++ (now ∷ []) }, w'', returns (err ice))
                  else (m, w'', returns (err (to_error e)))
            ]
      ]

  unfoldable pub release : NodeHandle → W → W × Result (Unit {0})
  unfolding parse_instance_id text_beq
  release h w =
      let id = parse_instance_id h.provider_id in
      let (w', failed) = ec2.terminate_instances id w in
      if text_beq id []
      then (w, ok tt)
      else (w', elim failed [ none ↦ ok tt | some e ↦ err (to_error e) ])
