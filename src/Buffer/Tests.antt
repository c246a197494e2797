-- ===== src/Buffer/Tests.antt =====
-- Runs of the buffer controller's parts on a small world.
use opencoda.Prelude.{
  ℕ, ◌+◌, ◌≤◌, ◌≡◌, refl, ◌↔◌, false, none, some, List, [], ◌∷◌, ltb, if◌then◌else◌, length, ◌+ℤ◌,
  ◌-ℤ◌, pos, Text, bytes, lookup,
}
use opencoda.Api.{NodeRecord, BufferPolicy}
use opencoda.Api.Sample.{pool, meta}
use opencoda.Results.{ice, not_found, ok, err}
use opencoda.Capacity.{returns, Offer, CapacityProvider}
use opencoda.Capacity.Cache.{for_pool, ProviderCache}
use opencoda.Buffer.{Api}
use opencoda.Buffer.Provision.{provision_nodes, completed}
use opencoda.Buffer.Provision.Started.{got, provision_nodes-Started, Started}
use opencoda.Buffer.ScaleDown.{drain_and_release, drains, drain_records}
use opencoda.Buffer.ScaleDown.Limits.{drain_records-Limited, Limited}

abbrev policy : BufferPolicy
policy = record {
  metadata = meta (bytes "policy");
  spec = record {
    target = record {
      mode = bytes "dynamic";
      min_warm_gpus = pos 1;
      max_warm_gpus = pos 4;
      dynamic = some (record { window = []; formula = []; k = 2 });
    };
    pools = record { name = bytes "p" } ∷ [];
    scale_down = record { stabilization_window = []; drain_timeout = [] };
  };
  status = record { current_warm_gpus = pos 0; demand_ewma = 7; conditions = [] };
}

-- A provider that has two nodes to give; the world is how many are given.
abbrev two_nodes : CapacityProvider ℕ
two_nodes = record {
  name = bytes "two";
  quote = λ r w. (w, ok []);
  provision = λ o w.
      if ltb w 2
      then (
        w + 1,
        returns (
            ok (record {
              provider_id = bytes "i-1";
              node_name = o.id;
              labels = [];
              launched_at = pos 3;
            })),
      )
      else (w, returns (err ice));
  release = λ h w. (w, ok tt);
  capacity = λ p w. (w, err ice);
}

abbrev offer : Offer
offer = record {
  id = bytes "o";
  instance_type = [];
  zone = [];
  hourly_usd = 1;
  expires_at = pos 0;
  interruptible = false;
}

provision_nodes-Started_example :
    Started
      (bytes "p")
      (got two_nodes (offer ∷ []) 3 0 0)
      (pool (bytes "p"))
      (provision_nodes two_nodes (bytes "p") (offer ∷ []) 3 0 (pool (bytes "p")) 0).2
    × (length (got two_nodes (offer ∷ []) 3 0 0) ≤ 3)
    × ((provision_nodes two_nodes (bytes "p") (offer ∷ []) 3 0 (pool (bytes "p")) 0).1 ≡ completed
        ↔ (length (got two_nodes (offer ∷ []) 3 0 0) ≡ 3))
provision_nodes-Started_example =
    provision_nodes-Started two_nodes (bytes "p") (offer ∷ []) 3 0 (pool (bytes "p")) 0

abbrev api : Api ℕ
api = record {
  get_policy = λ n s. ok policy;
  get_pool = λ n s. ok (pool n);
  list_pool_nodes = λ n s. none;
  get_node = λ n s. ok (record { metadata = meta n; unschedulable = false });
  list_pods = λ s. none;
  read_secret = λ n s. err not_found;
  update_node = λ n s. (s, ok tt);
  update_pool_status = λ p s. (s, ok tt);
  update_policy_status = λ p s. (s, ok tt);
  evict = λ p s. s;
  sleep = λ d s. s;
}

abbrev buffered_node : Text → NodeRecord
buffered_node name = record {
  provider_id = [];
  node_name = name;
  state = bytes "buffered";
  launched_at = pos 0;
  pool_name = bytes "p";
}

abbrev providers : ProviderCache ℕ
providers = record {
  factories = record { factories = [] };
  boot = record { api_server_url = []; ca_bundle = []; join_token = []; cluster_name = [] };
  cache = (bytes "p", two_nodes) ∷ [];
}

abbrev nodes : List NodeRecord
nodes = buffered_node (bytes "n1") ∷ buffered_node (bytes "n2") ∷ []

one_released :
    (drain_records api
      (pos 5)
      (pos 5)
      (pos 9)
      (pool (bytes "p"))
      nodes
      (pos 1)
      (pos 2)
      providers
      0).buffered
    ≡ pos 1
unfolding drain_records drains ◌+ℤ◌ drain_and_release for_pool lookup ◌-ℤ◌
one_released = refl

drain_records-Limited_example :
    Limited api (pos 5) (pos 5) (pos 9) (pool (bytes "p")) nodes (pos 1) (pos 2) (
      drain_records api
        (pos 5)
        (pos 5)
        (pos 9)
        (pool (bytes "p"))
        nodes
        (pos 1)
        (pos 2)
        providers
        0)
drain_records-Limited_example =
    drain_records-Limited api (pos 5) (pos 5) (pos 9) (pool (bytes "p")) nodes (pos 1) (pos 2)
      providers 0
