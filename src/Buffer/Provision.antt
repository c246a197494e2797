-- ===== src/Buffer/Provision.antt =====
-- spendAllowed, splitSubnets and provisionPool.
pub mod Started
use opencoda.Prelude.{
  ℕ, zero, suc, ◌+◌, Bool, true, false, not, ◌&&◌, ◌||◌, none, some, List, [], ◌∷◌, ◌++◌,
  if◌then◌else◌, length, get_elem?, count, pos_part, ◌+ℤ◌, leb_ℤ, ℤ, pos, Text, bytes, text_beq,
  split, trim_space, get_or,
}
use opencoda.Api.{Float64, GpuPool}
use opencoda.Buffer.Types.{Api}
use opencoda.Buffer.Views.{nodes_of}
use opencoda.Capacity.{GpuRequest, Offer, NodeHandle, Call, panics, returns, CapacityProvider}
use opencoda.Capacity.Cache.{for_pool, ProviderCache}
use opencoda.Floats.{FloatOps}
use opencoda.Results.{Error, message, ok, err}

-- How a call ends: without error, with one, or with a panic: of the offer at 0 of
-- an empty list, or of the provider.
pub data Attempt : Type 0 where
  completed panicked : Attempt
  stopped : Error → Attempt

-- x <= y
abbrev at_most : FloatOps → Float64 → Float64 → Bool
at_most fl x y = fl.less x y || fl.equal x y

unfoldable pub spend_allowed : FloatOps → GpuPool → ℤ → Bool
spend_allowed fl pool add_nodes =
    let max = pool.spec.limits.max_hourly_usd in
    let observed = pool.status.observed_capacity.observed_hourly_usd in
    let hourly = if at_most fl observed (fl.ratio 0 1) then fl.ratio 1 1 else observed in
    if at_most fl max (fl.ratio 0 1)
    then true
    else at_most fl (fl.mul hourly (fl.of_int (nodes_of pool +ℤ add_nodes))) max

unfoldable pub kept_parts : List Text → List Text
unfolding text_beq
kept_parts [] = []
kept_parts (part ∷ parts) =
    let rest = kept_parts parts in
    if text_beq (trim_space part) [] then rest else trim_space part ∷ rest

unfoldable pub split_subnets : Text → List Text
unfolding kept_parts text_beq
split_subnets s = if text_beq s [] then [] else kept_parts (split b',' s)

unfoldable pub request_of : GpuPool → Text → ℤ → GpuRequest
unfolding split_subnets
request_of pool pool_name count = record {
  pool_name = pool_name;
  gpu_type = pool.spec.gpu.kind;
  gpu_count = pool.spec.gpu.per_node;
  node_count = count;
  instance_types = pool.spec.instance_types;
  subnets = split_subnets (get_or pool.spec.provider.params (bytes "subnets") []);
  constraints = record {
    region = get_or pool.spec.provider.params (bytes "region") [];
    zone = get_or pool.spec.provider.params (bytes "zone") [];
    capacity_type = get_or pool.spec.provider.params (bytes "capacityType") [];
    max_hourly_usd = pool.spec.limits.max_hourly_usd;
  };
}

abbrev pub with_record : Text → NodeHandle → GpuPool → GpuPool
with_record pool_name handle pool = record pool {
  status = record pool.status {
    node_records =
        pool.status.node_records
        ++ (record {
          provider_id = handle.provider_id;
          node_name = handle.node_name;
          state = bytes "provisioning";
          launched_at = handle.launched_at;
          pool_name = pool_name;
        }
            ∷ []);
    nodes = record pool.status.nodes { provisioning = pool.status.nodes.provisioning +ℤ pos 1 };
  };
}

module _ {S : Type 0} where
  -- The loop from index `i`, with so many rounds left; past the last offer the first one serves.
  unfoldable pub provision_nodes :
      CapacityProvider S → Text → List Offer → ℕ → ℕ → GpuPool → S → S × Attempt × GpuPool
  provision_nodes provider pool_name offers zero i pool s = (s, completed, pool)
  provision_nodes provider pool_name [] (suc rounds) i pool s = (s, panicked, pool)
  provision_nodes provider pool_name (first ∷ others) (suc rounds) i pool s =
      let offer : Offer = elim (get_elem? (first ∷ others) i) [ none ↦ first | some o ↦ o ] in
      let (s', provisioned) = provider.provision offer s in
      elim provisioned [
        | panics ↦ (s', panicked, pool)
        | returns (err e) ↦ (s', stopped e, pool)
        | returns (ok handle) ↦
            provision_nodes provider pool_name (first ∷ others) rounds (i + 1)
              (with_record pool_name handle pool) s'
      ]

  -- Whether a static pool has nodes enough already.
  abbrev pub joined_already : Api S → GpuPool → Text → ℤ → S → Bool
  joined_already api pool pool_name count s =
      text_beq pool.spec.provider.name (bytes "static") && (elim (api.list_pool_nodes pool_name s) [
        | none ↦ false
        | some nodes ↦ leb_ℤ count (pos (length nodes))
      ])

  abbrev pub written : Api S → S × Attempt × GpuPool → S × Attempt
  written api (s, stopped e, pool) = (s, stopped e)
  written api (s, panicked, pool) = (s, panicked)
  written api (s, completed, pool) =
      let (s', updated) = api.update_pool_status pool s in
      (s', elim updated [ err e ↦ stopped e | ok _ ↦ completed ])

  abbrev pub ordered : Api S → CapacityProvider S → GpuPool → Text → ℤ → S → S × Attempt
  ordered api provider pool pool_name count s =
      let (s', quoted) = provider.quote (request_of pool pool_name count) s in
      elim quoted [
        | err e ↦ (s', stopped e)
        | ok offers ↦
            written api (provision_nodes provider pool_name offers (pos_part count) 0 pool s')
      ]

  -- From the pool on, which has been read.
  unfoldable pub provision_read :
      Api S → FloatOps → GpuPool → Text → ℤ → ProviderCache S → S → (S × Attempt) × ProviderCache S
  unfolding spend_allowed request_of provision_nodes text_beq
  provision_read api fl pool pool_name count providers s =
      let (providers', found) = for_pool (λ secret. api.read_secret secret s) pool providers in
      let bought : (S × Attempt) × ProviderCache S = elim found [
        | err e ↦ ((s, stopped e), providers')
        | ok provider ↦ (ordered api provider pool pool_name count s, providers')
      ] in
      if not (spend_allowed fl pool count)
      then ((s, stopped (message (bytes "maxHourlyUSD ceiling for pool " ++ pool_name))), providers)
      else if joined_already api pool pool_name count s
      then ((s, completed), providers)
      else bought

  unfoldable pub provision_pool :
      Api S → FloatOps → Text → ℤ → ProviderCache S → S → (S × Attempt) × ProviderCache S
  unfolding provision_read
  provision_pool api fl pool_name count providers s = elim (api.get_pool pool_name s) [
    | err e ↦ ((s, stopped e), providers)
    | ok pool ↦ provision_read api fl pool pool_name count providers s
  ]
