-- ===== src/Flows/Faults/Tests.antt =====
-- A node with a critical Xid whose label says that it has a GPU.
use opencoda.Prelude.{ℕ, ◌+◌, ◌≡◌, refl, false, none, [], ◌∷◌, pos, bytes, text_beq, lookup}
use opencoda.Api.{NodeRecord}
use opencoda.Api.Cluster.{Node}
use opencoda.Api.Sample.{meta}
use opencoda.Capacity.Cache.{ProviderCache}
use opencoda.Constants.{label_gpu, annotation_xid_critical}
use opencoda.Health.{handle_xid_critical, reconcile_node, fake_checker}
use opencoda.Health as Health
use opencoda.Health.Release.{left}
use opencoda.Flows.Faults.{handle_xid_critical-left}
use opencoda.Pool.Records.{bind_record}
use opencoda.Results.{ok, err, not_found}

abbrev faulty : Node
faulty = record {
  metadata = record (meta (bytes "n")) {
    labels = (label_gpu, bytes "true") ∷ [];
    annotations = (annotation_xid_critical, bytes "true") ∷ [];
  };
  unschedulable = false;
}

-- The state counts the writes of nodes.
abbrev api : Health.Api ℕ
api = record {
  get_node = λ name w. ok faulty;
  update_node = λ n w. (w + 1, ok tt);
  list_pods = λ w. none;
  delete_pod = λ p w. w;
  get_pool = λ name w. err not_found;
  read_secret = λ name w. err not_found;
  update_pool_status = λ p w. w;
}

abbrev providers : ProviderCache ℕ
providers = record {
  factories = record { factories = [] };
  boot = record { api_server_url = []; ca_bundle = []; join_token = []; cluster_name = [] };
  cache = [];
}

abbrev rec : NodeRecord
rec = record {
  provider_id = [];
  node_name = bytes "n";
  state = bytes "released";
  launched_at = pos 0;
  pool_name = bytes "p";
}

handle_xid_critical-left_example :
    ((providers' : ProviderCache ℕ) × (w : ℕ) × (handle_xid_critical api (pos 5) faulty providers 0
        ≡ Health.updated api (left faulty) Health.done providers' w))
    × (bind_record ((bytes "n", left faulty) ∷ []) rec ≡ record rec { state = bytes "draining" })
    × (reconcile_node api fake_checker (pos 6) (left faulty) providers 2
        ≡ (Health.boot_checked api fake_checker (left faulty) 2, providers))
unfolding lookup text_beq
handle_xid_critical-left_example =
    handle_xid_critical-left faulty api (pos 5) providers 0 api fake_checker (pos 6) providers 2
      ((bytes "n", left faulty) ∷ []) rec (bytes "true") refl refl refl
