-- ===== src/Buffer/ScaleDown.antt =====
-- parseDuration, drainAndRelease and scaleDown.
pub mod Limits
use opencoda.Prelude.{
  Bool, true, false, not, ◌&&◌, Option, none, some, List, [], ◌∷◌, if◌then◌else◌, ◌+ℤ◌, ◌-ℤ◌, ltb_ℤ,
  ℤ, pos, Text, bytes, text_beq,
}
use opencoda.Api.{Time, Duration, NodeRecord, GpuPool, PoolRef, BufferPolicy}
use opencoda.Api.Cluster.{Pod}
use opencoda.Buffer.Types.{Api}
use opencoda.Capacity.Cache.{for_pool, ProviderCache}
use opencoda.Results.{Error, Result, ice, not_found, already_exists, message, ok, err}

unfoldable pub parse_duration : (Text → Option Duration) → Text → Duration → Duration
unfolding text_beq
parse_duration parse s default =
    let parsed : Duration = elim (parse s) [ none ↦ default | some d ↦ d ] in
    if text_beq s [] then default else parsed

unfoldable pub evict_pods : {S : Type 0} → Api S → Text → List Pod → S → S
unfolding text_beq
evict_pods api node_name [] s = s
evict_pods api node_name (p ∷ ps) s = evict_pods api node_name ps (
    if not (text_beq p.spec.node_name node_name)
    then s
    else if text_beq p.metadata.namespace (bytes "kube-system")
    then s
    else api.evict p s)

module _ {S : Type 0} (api : Api S) where
  abbrev pub emptied : Text → Duration → S → S
  emptied node_name drain_timeout s =
      api.sleep drain_timeout
        (elim (api.list_pods s) [ none ↦ s | some pods ↦ evict_pods api node_name pods s ])

  -- After the node was cordoned: true once the provider has released it.
  abbrev pub given_back :
      GpuPool → NodeRecord → ProviderCache S → S → (S × ProviderCache S) × Result Bool
  given_back pool r providers s =
      let (providers', found) = for_pool (λ secret. api.read_secret secret s) pool providers in
      elim found [
        | err e ↦ ((s, providers'), err e)
        | ok provider ↦
            let (s', released) =
              provider.release
                (record {
                  provider_id = r.provider_id;
                  node_name = r.node_name;
                  labels = [];
                  launched_at = pos 0;
                })
                s in
            ((s', providers'), elim released [ err e ↦ err e | ok _ ↦ ok true ])
      ]

  -- The result tells whether the record is now released; a record without a name, or of a node
  -- that is gone, is passed over without error.
  unfoldable pub drain_and_release :
      Duration → GpuPool → NodeRecord → ProviderCache S → S → (S × ProviderCache S) × Result Bool
  unfolding evict_pods text_beq
  drain_and_release drain_timeout pool r providers s =
      let drained : (S × ProviderCache S) × Result Bool = elim (api.get_node r.node_name s) [
        | err not_found ↦ ((s, providers), ok false)
        | err already_exists ↦ ((s, providers), err already_exists)
        | err ice ↦ ((s, providers), err ice)
        | err (message m) ↦ ((s, providers), err (message m))
        | ok node ↦
            let (s', updated) = api.update_node (record node { unschedulable = true }) s in
            elim updated [
              | err e ↦ ((s', providers), err e)
              | ok _ ↦ given_back pool r providers (emptied r.node_name drain_timeout s')
            ]
      ] in
      if text_beq r.node_name [] then ((s, providers), ok false) else drained

  -- What the inner loop leaves: the pool's records and counter, the excess that is left, and the
  -- error that ended it.
  pub record Drained : Type 0 where
    pub world : S
    pub providers : ProviderCache S
    pub records : List NodeRecord
    pub excess : ℤ
    pub buffered : ℤ
    pub failure : Option Error

  -- Whether the loop takes the record: there is excess, it is buffered and has been so long enough.
  unfoldable pub drains : Duration → Time → ℤ → NodeRecord → Bool
  unfolding text_beq
  drains stab now excess r =
      ltb_ℤ (pos 0) excess
      && (text_beq r.state (bytes "buffered") && not (ltb_ℤ now (r.launched_at +ℤ stab)))

  unfoldable pub drain_records :
      Duration → Duration → Time → GpuPool → List NodeRecord → ℤ → ℤ → ProviderCache S → S → Drained
  drain_records stab drain_timeout now pool [] excess buffered providers s = record {
    world = s;
    providers = providers;
    records = [];
    excess = excess;
    buffered = buffered;
    failure = none;
  }
  drain_records stab drain_timeout now pool (r ∷ rs) excess buffered providers s =
      elim (drains stab now excess r) [
        | false ↦
            let d = drain_records stab drain_timeout now pool rs excess buffered providers s in
            record d { records = r ∷ d.records }
        | true ↦
            let ((s', providers'), released) = drain_and_release drain_timeout pool r providers s in
            elim released [
              | err e ↦ record {
                world = s';
                providers = providers';
                records = r ∷ rs;
                excess = excess;
                buffered = buffered;
                failure = some e;
              }
              | ok false ↦
                  let d =
                    drain_records stab drain_timeout now pool rs (excess -ℤ pos 1) buffered
                      providers' s' in
                  record d { records = r ∷ d.records }
              | ok true ↦
                  let d =
                    drain_records stab drain_timeout now pool rs (excess -ℤ pos 1)
                      (buffered -ℤ pos 1) providers' s' in
                  record d { records = record r { state = bytes "released" } ∷ d.records }
            ]
      ]

  -- The loop over the pools of a policy.
  unfoldable pub scale_down_pools :
      Duration
      → Duration
      → Time
      → List PoolRef
      → ℤ
      → ProviderCache S
      → S
      → (S × ProviderCache S) × Option Error
  unfolding drain_records
  scale_down_pools stab drain_timeout now [] excess providers s = ((s, providers), none)
  scale_down_pools stab drain_timeout now (ref ∷ refs) excess providers s =
      elim (api.get_pool ref.name s) [
        | err e ↦ scale_down_pools stab drain_timeout now refs excess providers s
        | ok pool ↦
            let d =
              drain_records stab drain_timeout now pool pool.status.node_records excess
                pool.status.nodes.buffered providers s in
            let pool' = record pool {
              status = record pool.status {
                node_records = d.records;
                nodes = record pool.status.nodes { buffered = d.buffered };
              };
            } in
            elim d.failure [
              | some e ↦ ((d.world, d.providers), some e)
              | none ↦
                  let (s', updated) = api.update_pool_status pool' d.world in
                  elim updated [
                    | err e ↦ ((s', d.providers), some e)
                    | ok _ ↦ scale_down_pools stab drain_timeout now refs d.excess d.providers s'
                  ]
            ]
      ]

  -- Ten minutes and five minutes where the policy gives no duration.
  unfoldable pub scale_down :
      (Text → Option Duration)
      → Time
      → BufferPolicy
      → ℤ
      → ProviderCache S
      → S
      → (S × ProviderCache S) × Option Error
  unfolding parse_duration scale_down_pools
  scale_down parse now policy excess providers s =
      scale_down_pools
        (parse_duration parse policy.spec.scale_down.stabilization_window (pos 600_000_000_000))
        (parse_duration parse policy.spec.scale_down.drain_timeout (pos 300_000_000_000)) now
        policy.spec.pools excess providers s
