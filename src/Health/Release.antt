-- ===== src/Health/Release.antt =====
-- What a critical Xid does to a node and to the records of its pool.
use opencoda.Prelude.{
  ◌≡◌, refl, ap, ◌∙◌, inl, inr, true, false, List, [], ◌∷◌, map, if◌then◌else◌, Bool-cases, Text,
  bytes, text_beq, get_or, erase,
}
use opencoda.Api.{Time, NodeRecord, GpuPool}
use opencoda.Api.Cluster.{Node}
use opencoda.Capacity.{CapacityProvider}
use opencoda.Capacity.Cache.{for_pool, ProviderCache}
use opencoda.Constants.{annotation_xid_critical, label_pool, label_buffer_eligible}
use opencoda.Health.{
  release_records, release_node, handle_xid_critical, updated, emptied, with_label, done, Api,
}
use opencoda.Results.{Result, ok}

-- A record of the node is released, any other stays as it is.
abbrev pub freed : Text → NodeRecord → NodeRecord
freed node_name r =
    if text_beq r.node_name node_name then record r { state = bytes "released" } else r

release_records-map :
    {S : Type 0} (provider : CapacityProvider S) (node_name : Text) (rs : List NodeRecord) (s : S)
    → (release_records provider node_name rs s).1 ≡ map (freed node_name) rs
unfolding release_records
release_records-map provider node_name [] s = refl
release_records-map provider node_name (r ∷ rs) s =
    elim (Bool-cases (text_beq r.node_name node_name)) [
      | inl e ↦
          rw (e, release_records)
            (ap (◌∷◌ (record r { state = bytes "released" }))
              (release_records-map provider node_name rs _))
      | inr e ↦ rw (e, release_records) (ap (◌∷◌ r) (release_records-map provider node_name rs s))
    ]

-- The node as the handler leaves it: cordoned, without the annotation, and not for the buffer.
abbrev pub left : Node → Node
left node = with_label label_buffer_eligible (bytes "false") (record node {
  unschedulable = true;
  metadata = record node.metadata {
    annotations = erase annotation_xid_critical node.metadata.annotations;
  };
})

-- The pool with the records of the node released, and an ICE noted.
abbrev pub without : Time → Text → GpuPool → GpuPool
without now node_name pool = record pool {
  status = record pool.status {
    node_records = map (freed node_name) pool.status.node_records;
    observed_capacity = record pool.status.observed_capacity { last_ice = now };
  };
}

module _ {S : Type 0} (api : Api S) (now : Time) (node : Node) (s : S) where
  -- Once the node is cordoned, and its pods are deleted.
  abbrev pub cordoned : S × Result (Unit {0})
  cordoned = api.update_node (record node { unschedulable = true }) s

  abbrev pub vacated : S
  vacated = emptied api node.metadata.name cordoned.0

  abbrev pub pool_of : Text
  pool_of = get_or node.metadata.labels label_pool []

  module _ (pool : GpuPool) (providers providers' : ProviderCache S) (provider : CapacityProvider S)
      (labelled : text_beq pool_of [] ≡ false) (read : api.get_pool pool_of vacated ≡ ok pool)
      (given : for_pool (λ secret. api.read_secret secret vacated) pool providers
        ≡ (providers', ok provider)) where
    abbrev after : S
    after = (release_records provider node.metadata.name pool.status.node_records vacated).0

    release_node-without :
        release_node api now pool_of node.metadata.name providers vacated
        ≡ (api.update_pool_status (without now node.metadata.name pool) after, providers')
    unfolding release_node
    release_node-without =
        rw
          (
            release_node,
            labelled,
            read,
            given,
            release_records-map provider node.metadata.name pool.status.node_records vacated,
          )
          (ap (λ x. (api.update_pool_status (without now node.metadata.name pool) after, x.0))
            given)

  -- When a node with a critical Xid could be cordoned and has a pool label, the pool can be read and
  -- there is a provider for it, then whatever that provider answers to Release, an error included,
  -- the handler writes the pool with every record of the node released, every other record as it
  -- was, in their order, and the present as its last ICE; and then the node as it leaves it.
  pub handle_xid_critical-without :
      (pool : GpuPool) (providers providers' : ProviderCache S) (provider : CapacityProvider S)
      → cordoned.1 ≡ ok tt
      → text_beq pool_of [] ≡ false
      → api.get_pool pool_of vacated ≡ ok pool
      → for_pool (λ secret. api.read_secret secret vacated) pool providers
        ≡ (providers', ok provider)
      → (t : S) × (handle_xid_critical api now node providers s
          ≡ updated api
              (left node)
              done
              providers'
              (api.update_pool_status (without now node.metadata.name pool) t))
  unfolding handle_xid_critical
  handle_xid_critical-without pool providers providers' provider first labelled read given =
      let released = release_node api now pool_of node.metadata.name providers vacated in
      let runs : handle_xid_critical api now node providers s
          ≡ updated api (left node) done released.1 released.0 =
        rw (first, handle_xid_critical) refl in
      (
        after pool providers providers' provider labelled read given,
        runs
            ∙ ap (λ x. updated api (left node) done x.1 x.0)
                (release_node-without pool providers providers' provider labelled read given),
      )
