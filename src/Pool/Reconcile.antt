-- ===== src/Pool/Reconcile.antt =====
-- Reconcile of pool_controller.go.
use opencoda.Prelude.{ℕ, Option, none, some, List, last?, Text, Dict}
use opencoda.Api.{GpuPool, ObservedCapacity}
use opencoda.Api.Cluster.{Node}
use opencoda.Results.{Error, Result, ok, err, not_found, already_exists, ice, message}
use opencoda.Capacity.{CapacityReport}
use opencoda.Capacity.Cache.{ProviderCache, for_pool}
use opencoda.Pool.Records.{reconcile_node_records}

-- ctrl.Result with its error: nothing more to do, again after so many seconds, or an error.
pub data Outcome : Type 0 where
  done : Outcome
  requeue_after : ℕ → Outcome
  failed : Error → Outcome

unfoldable pub observe : CapacityReport → ObservedCapacity → ObservedCapacity
observe report o = record {
  available = report.available;
  last_ice = elim (last? report.recent_ice) [ none ↦ o.last_ice | some t ↦ t ];
  observed_hourly_usd = report.observed_hourly_usd;
}

-- The API server's part: the pool, the nodes under its label, and the write of its status.
pub record Api (S : Type 0) : Type 0 where
  pub get_pool : Text → S → Result GpuPool
  pub list_nodes : Text → S → Option (List Node)
  pub read_secret : Text → S → Result (Dict Text)
  pub update_pool_status : GpuPool → S → S × Result (Unit {0})

module _ {S : Type 0} (api : Api S) (visit : Dict Node → Dict Node) where
  abbrev write_back : GpuPool → S → S × Outcome
  write_back pool s =
      let (s', updated) =
        api.update_pool_status
          (reconcile_node_records visit (api.list_nodes pool.metadata.name s) pool) s in
      elim updated [ err e ↦ (s', failed e) | ok _ ↦ (s', requeue_after 30) ]

  -- The providers act on the same world.
  unfoldable pub reconcile : Text → ProviderCache S → S → (S × Outcome) × ProviderCache S
  unfolding observe
  reconcile name providers s = elim (api.get_pool name s) [
    | err not_found ↦ ((s, done), providers)
    | err already_exists ↦ ((s, failed already_exists), providers)
    | err ice ↦ ((s, failed ice), providers)
    | err (message m) ↦ ((s, failed (message m)), providers)
    | ok pool ↦
        let (providers', found) = for_pool (λ secret. api.read_secret secret s) pool providers in
        elim found [
          | err e ↦ ((s, requeue_after 30), providers')
          | ok provider ↦
              let (s', report) = provider.capacity pool.metadata.name s in
              elim report [
                | err e ↦ (write_back pool s', providers')
                | ok seen ↦ (
                  write_back
                      (record pool {
                        status = record pool.status {
                          observed_capacity = observe seen pool.status.observed_capacity;
                        };
                      })
                      s',
                  providers',
                )
              ]
        ]
  ]
