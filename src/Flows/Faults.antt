-- ===== src/Flows/Faults.antt =====
-- A node with a critical Xid after the health controller has handled it: how the pool controller
-- and the next pass of the health controller take it (internal/controller/health and pool).
mod Tests
use opencoda.Prelude.{
  ◌≡◌, refl, ◌∙◌, true, false, some, [], Text, bytes, text_beq, text_beq_refl, Dict, lookup, get_or,
  erase, lookup-insert, lookup-erase, get_or-insert_self,
}
use opencoda.Api.{Time, NodeRecord}
use opencoda.Api.Cluster.{Node}
use opencoda.Capacity.Cache.{ProviderCache}
use opencoda.Constants.{annotation_xid_critical, label_gpu, label_pool, label_buffer_eligible}
use opencoda.Health.{with_label, handle_xid_critical, reconcile_node}
use opencoda.Health as Health
use opencoda.Health.Release.{left}
use opencoda.Pool.Records.{bind_record, node_of}
use opencoda.Results.{ok}

module _ (node : Node) where
  -- What is on the node then.
  gpu_kept :
      (v : Text)
      → lookup label_gpu node.metadata.labels ≡ some v
      → lookup label_gpu (left node).metadata.labels ≡ some v
  unfolding text_beq
  gpu_kept v e =
      lookup-insert label_buffer_eligible label_gpu (bytes "false") node.metadata.labels ∙ e

  fault_erased : get_or (left node).metadata.annotations annotation_xid_critical [] ≡ []
  unfolding get_or
  fault_erased =
      rw
        (
          get_or,
          lookup-erase annotation_xid_critical annotation_xid_critical node.metadata.annotations,
          text_beq_refl annotation_xid_critical,
        )
        refl

  not_eligible : Health.eligible (left node) ≡ false
  unfolding text_beq
  not_eligible =
      rw (get_or-insert_self node.metadata.labels label_buffer_eligible (bytes "false") []) refl

module _ {S : Type 0} (node : Node) where
  -- The handler's last write, once the node could be cordoned.
  handled :
      (api : Health.Api S) (now : Time) (providers : ProviderCache S) (s : S)
      → (api.update_node (record node { unschedulable = true }) s).1 ≡ ok tt
      → (providers' : ProviderCache S) × (s'' : S) × (handle_xid_critical api now node providers s
          ≡ Health.updated api (left node) Health.done providers' s'')
  unfolding handle_xid_critical
  handled api now providers s e =
      let after =
        Health.release_node api now (get_or node.metadata.labels label_pool []) node.metadata.name
          providers
          (Health.emptied api node.metadata.name
            (api.update_node (record node { unschedulable = true }) s).0) in
      (after.1, after.0, rw (e, handle_xid_critical) refl)

  -- A later pass over the node as it was left is that over a node that was never checked.
  checked_again :
      (api : Health.Api S) (checker : Health.Checker S) (now : Time) (providers : ProviderCache S)
      (s : S) (v : Text)
      → lookup label_gpu node.metadata.labels ≡ some v
      → reconcile_node api checker now (left node) providers s
        ≡ (Health.boot_checked api checker (left node) s, providers)
  unfolding reconcile_node text_beq
  checked_again api checker now providers s v e =
      rw (reconcile_node, gpu_kept node v e, fault_erased node, not_eligible node) refl

  -- Once a node with a critical Xid could be cordoned, the handler ends by writing the node cordoned,
  -- without the annotation and not for the buffer. While a node is listed like that, the pool
  -- controller makes its record, released or not, one that is draining; and the next pass of the
  -- health controller over it is the boot check of a new node, which decides again whether it is for
  -- the buffer.
  pub handle_xid_critical-left :
      (api : Health.Api S) (now : Time) (providers : ProviderCache S) (s : S)
      (later_api : Health.Api S) (checker : Health.Checker S) (later : Time)
      (later_providers : ProviderCache S) (t : S) (nodes : Dict Node) (r : NodeRecord) (v : Text)
      → (api.update_node (record node { unschedulable = true }) s).1 ≡ ok tt
      → lookup label_gpu node.metadata.labels ≡ some v
      → node_of nodes r ≡ some (left node)
      → ((providers' : ProviderCache S) × (s'' : S) × (handle_xid_critical api now node providers s
            ≡ Health.updated api (left node) Health.done providers' s''))
        × (bind_record nodes r ≡ record r { state = bytes "draining" })
        × (reconcile_node later_api checker later (left node) later_providers t
            ≡ (Health.boot_checked later_api checker (left node) t, later_providers))
  unfolding bind_record
  handle_xid_critical-left api now providers s later_api checker later later_providers t nodes r v
        cordoned has_gpu listed =
      (
        handled api now providers s cordoned,
        rw (bind_record, listed) refl,
        checked_again later_api checker later later_providers t v has_gpu,
      )
