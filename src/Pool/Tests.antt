-- ===== src/Pool/Tests.antt =====
-- A pool with one bound record, one that waits and one node that is new.
use opencoda.Prelude.{
  ◌≡◌, refl, true, false, text_beq, some, List, [], ◌∷◌, ◌+ℤ◌, pos, Text, bytes, Dict, lookup,
  get_or, insert,
}
use opencoda.Api.{NodeRecord, GpuPool}
use opencoda.Api.Cluster.{Node}
use opencoda.Api.Sample.{meta, pool}
use opencoda.Pool.Records.{reconcile_node_records}
use mathlib.Core.List.Perm
use opencoda.Prelude.{All}
use opencoda.Pool.Records.{known}
use opencoda.Pool.Records.Again.{reconcile_node_records-again}

abbrev node : Text → Node
node name = record { metadata = meta name; unschedulable = false }

abbrev recorded : Text → Text → NodeRecord
recorded name state = record {
  provider_id = [];
  node_name = name;
  state = state;
  launched_at = pos 0;
  pool_name = bytes "p";
}

abbrev two_records : GpuPool
two_records = record (pool (bytes "p")) {
  status = record (pool (bytes "p")).status {
    node_records =
        recorded (bytes "n1") (bytes "provisioning") ∷ recorded [] (bytes "provisioning") ∷ [];
  };
}

abbrev in_order : Dict Node → Dict Node
in_order d = d

abbrev two_listed : List Node
two_listed = node (bytes "n1") ∷ node (bytes "n2") ∷ []

three_counted :
    (reconcile_node_records in_order (some two_listed) two_records).status.nodes
    ≡ record { active = pos 2; buffered = pos 0; provisioning = pos 1 }
unfolding reconcile_node_records insert lookup get_or ◌+ℤ◌
three_counted = refl

reconcile_node_records-again_example :
    All
      (λ n.
        known n.metadata.name
          (reconcile_node_records in_order (some two_listed) two_records).status.node_records
        ≡ true)
      two_listed
    × (reconcile_node_records in_order
          (some two_listed)
          (reconcile_node_records in_order (some two_listed) two_records)
        ≡ reconcile_node_records in_order (some two_listed) two_records)
unfolding text_beq
reconcile_node_records-again_example =
    reconcile_node_records-again in_order in_order two_listed two_records (λ d. Perm.refl d)
      (λ d. Perm.refl d) (refl, (refl, tt))
