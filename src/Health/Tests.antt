-- ===== src/Health/Tests.antt =====
-- A node whose record is released although the provider fails.
use opencoda.Prelude.{
  ℕ, ◌+◌, ◌≡◌, refl, none, List, [], ◌∷◌, pos, Text, bytes, text_beq, lookup, get_or, false,
}
use opencoda.Api.{NodeRecord, GpuPool}
use opencoda.Api.Cluster.{Node}
use opencoda.Api.Sample.{meta, pool}
use opencoda.Results.{ice, message, not_found, ok, err}
use opencoda.Capacity.{returns, CapacityProvider}
use opencoda.Capacity.Cache.{for_pool, ProviderCache}
use opencoda.Constants.{label_pool, annotation_xid_critical}
use opencoda.Health.{handle_xid_critical, updated, done, Api}
use opencoda.Health.Release.{left, without, handle_xid_critical-without}

abbrev failing : CapacityProvider ℕ
failing = record {
  name = bytes "failing";
  quote = λ r w. (w, err ice);
  provision = λ o w. (w, returns (err ice));
  release = λ h w. (w + 1, err (message (bytes "not found")));
  capacity = λ p w. (w, err ice);
}

abbrev recorded : Text → NodeRecord
recorded name = record {
  provider_id = [];
  node_name = name;
  state = bytes "active";
  launched_at = pos 0;
  pool_name = bytes "p";
}

abbrev two : List NodeRecord
two = recorded (bytes "n1") ∷ recorded (bytes "n2") ∷ []

-- A node of the pool `p` with a critical Xid, and that pool.
abbrev faulty : Node
faulty = record {
  metadata = record (meta (bytes "n1")) {
    labels = (label_pool, bytes "p") ∷ [];
    annotations = (annotation_xid_critical, bytes "true") ∷ [];
  };
  unschedulable = false;
}

abbrev held : GpuPool
held = record (pool (bytes "p")) {
  status = record (pool (bytes "p")).status { node_records = two };
}

-- The state counts the calls.
abbrev api : Api ℕ
api = record {
  get_node = λ name w. ok faulty;
  update_node = λ n w. (w + 1, ok tt);
  list_pods = λ w. none;
  delete_pod = λ p w. w;
  get_pool = λ name w. ok held;
  read_secret = λ name w. err not_found;
  update_pool_status = λ p w. w + 1;
}

abbrev providers : ProviderCache ℕ
providers = record {
  factories = record { factories = [] };
  boot = record { api_server_url = []; ca_bundle = []; join_token = []; cluster_name = [] };
  cache = (bytes "p", failing) ∷ [];
}

found : for_pool (λ secret. err not_found) held providers ≡ (providers, ok failing)
unfolding for_pool lookup text_beq
found = refl

handle_xid_critical-without_example :
    (t : ℕ) × (handle_xid_critical api (pos 5) faulty providers 0
      ≡ updated api
          (left faulty)
          done
          providers
          (api.update_pool_status (without (pos 5) (bytes "n1") held) t))
unfolding get_or lookup text_beq
handle_xid_critical-without_example =
    handle_xid_critical-without api (pos 5) faulty 0 held providers providers failing refl refl refl
      found
