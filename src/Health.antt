-- ===== src/Health.antt =====
-- internal/controller/health/health_controller.go: the checks of GPU nodes and what is done with
-- a node that reported a critical Xid. The API server is the interface `Api` over a world that the
-- providers and the checks share; `now` is the clock's reading.
pub mod Release
mod Tests
use opencoda.Prelude.{
  ℕ, Bool, true, false, not, ◌&&◌, Option, none, some, List, [], ◌∷◌, if◌then◌else◌, pos, Text,
  bytes, text_beq, Dict, lookup, get_or, insert, erase,
}
use opencoda.Api.{Time, NodeRecord, GpuPool}
use opencoda.Api.Cluster.{Node, Pod}
use opencoda.Capacity.{CapacityProvider}
use opencoda.Capacity.Cache.{for_pool, ProviderCache}
use opencoda.Constants.{label_gpu, label_pool, label_buffer_eligible, annotation_xid_critical}
use opencoda.Results.{Error, Result, ice, not_found, already_exists, message, ok, err}

pub record Checker (S : Type 0) : Type 0 where
  pub boot_check : S → S × Result (Unit {0})
  pub deep_check : S → S × Result (Unit {0})

-- FakeChecker
abbrev pub fake_checker : {S : Type 0} → Checker S
fake_checker = record { boot_check = λ s. (s, ok tt); deep_check = λ s. (s, ok tt) }

-- ExecChecker: `found` tells whether dcgmi is on the path, `run` runs it with arguments.
abbrev pub exec_checker :
    {S : Type 0} → (S → Bool) → (List Text → S → S × Result (Unit {0})) → Checker S
exec_checker found run = record {
  boot_check =
      λ s. if found s then run (bytes "diag" ∷ bytes "-r" ∷ bytes "1" ∷ []) s else (s, ok tt);
  deep_check =
      λ s. if found s then run (bytes "diag" ∷ bytes "-r" ∷ bytes "3" ∷ []) s else (s, ok tt);
}

pub record Api (S : Type 0) : Type 0 where
  pub get_node : Text → S → Result Node
  pub update_node : Node → S → S × Result (Unit {0})
  pub list_pods : S → Option (List Pod)
  pub delete_pod : Pod → S → S
  pub get_pool : Text → S → Result GpuPool
  pub read_secret : Text → S → Result (Dict Text)
  -- Its error is ignored.
  pub update_pool_status : GpuPool → S → S

pub data Outcome : Type 0 where
  done : Outcome
  requeue_after : ℕ → Outcome
  failed : Error → Outcome

abbrev pub with_label : Text → Text → Node → Node
with_label key value node = record node {
  metadata = record node.metadata { labels = insert key value node.metadata.labels };
}

abbrev pub eligible : Node → Bool
eligible node = text_beq (get_or node.metadata.labels label_buffer_eligible []) (bytes "true")

module _ {S : Type 0} where
  unfoldable pub delete_pods : Api S → Text → List Pod → S → S
  unfolding text_beq
  delete_pods api node_name [] s = s
  delete_pods api node_name (p ∷ ps) s = delete_pods api node_name ps (
      if text_beq p.spec.node_name node_name
        && not (text_beq p.metadata.namespace (bytes "kube-system"))
      then api.delete_pod p s
      else s)

  -- The loop over the records; an error of the provider is only logged.
  unfoldable pub release_records :
      CapacityProvider S → Text → List NodeRecord → S → S × List NodeRecord
  release_records provider node_name [] s = (s, [])
  release_records provider node_name (r ∷ rs) s = elim (text_beq r.node_name node_name) [
    | false ↦ let (s', rs') = release_records provider node_name rs s in (s', r ∷ rs')
    | true ↦
        let (s', ignored) =
          provider.release
            (record {
              provider_id = r.provider_id;
              node_name = node_name;
              labels = [];
              launched_at = pos 0;
            })
            s in
        let (s'', rs') = release_records provider node_name rs s' in
        (s'', record r { state = bytes "released" } ∷ rs')
  ]

  -- Once the node is cordoned and its pods are deleted: the pool's part.
  unfoldable pub release_node :
      Api S → Time → Text → Text → ProviderCache S → S → S × ProviderCache S
  unfolding release_records text_beq
  release_node api now pool_name node_name providers s =
      let released : S × ProviderCache S = elim (api.get_pool pool_name s) [
        | err e ↦ (s, providers)
        | ok pool ↦
            let (providers', found) =
              for_pool (λ secret. api.read_secret secret s) pool providers in
            elim found [
              | err e ↦ (s, providers')
              | ok provider ↦
                  let (s', records) =
                    release_records provider node_name pool.status.node_records s in
                  (
                    api.update_pool_status
                        (record pool {
                          status = record pool.status {
                            node_records = records;
                            observed_capacity = record pool.status.observed_capacity {
                              last_ice = now;
                            };
                          };
                        })
                        s',
                    providers',
                  )
            ]
      ] in
      if text_beq pool_name [] then (s, providers) else released

  abbrev pub updated :
      Api S → Node → Outcome → ProviderCache S → S → (S × Outcome) × ProviderCache S
  updated api node after providers s =
      let (s', result) = api.update_node node s in
      ((s', elim result [ err e ↦ failed e | ok _ ↦ after ]), providers)

  abbrev pub emptied : Api S → Text → S → S
  emptied api node_name s = elim (api.list_pods s) [
    | none ↦ s
    | some pods ↦ delete_pods api node_name pods s
  ]

  unfoldable pub handle_xid_critical :
      Api S → Time → Node → ProviderCache S → S → (S × Outcome) × ProviderCache S
  unfolding delete_pods release_node
  handle_xid_critical api now node providers s =
      let cordoned = record node { unschedulable = true } in
      let (s', result) = api.update_node cordoned s in
      elim result [
        | err e ↦ ((s', failed e), providers)
        | ok _ ↦
            let (s'', providers') =
              release_node api now (get_or node.metadata.labels label_pool []) node.metadata.name
                providers (emptied api node.metadata.name s') in
            updated api
              (with_label label_buffer_eligible (bytes "false") (record cordoned {
                metadata = record node.metadata {
                  annotations = erase annotation_xid_critical node.metadata.annotations;
                };
              }))
              done providers' s''
      ]

  -- The deep check of an idle buffered node, whose error is only logged.
  abbrev checked : Checker S → Node → S → S × Outcome
  checked checker node s = (
    if eligible node && not node.unschedulable then (checker.deep_check s).0 else s,
    requeue_after 1800,
  )

  abbrev pub boot_checked : Api S → Checker S → Node → S → S × Outcome
  boot_checked api checker node s =
      let (s', booted) = checker.boot_check s in
      let answer : Text = elim booted [ err e ↦ bytes "false" | ok _ ↦ bytes "true" ] in
      let labelled = with_label label_buffer_eligible answer node in
      let (s'', result) = api.update_node labelled s' in
      elim result [ err e ↦ (s'', failed e) | ok _ ↦ checked checker labelled s'' ]

  unfoldable pub reconcile_node :
      Api S → Checker S → Time → Node → ProviderCache S → S → (S × Outcome) × ProviderCache S
  unfolding handle_xid_critical text_beq
  reconcile_node api checker now node providers s =
      let labelled : Bool = elim (lookup label_gpu node.metadata.labels) [
        | none ↦ false
        | some v ↦ true
      ] in
      if not labelled
      then ((s, done), providers)
      else if text_beq (get_or node.metadata.annotations annotation_xid_critical []) (bytes "true")
      then handle_xid_critical api now node providers s
      else if eligible node
      then (checked checker node s, providers)
      else (boot_checked api checker node s, providers)

  unfoldable pub reconcile :
      Api S → Checker S → Time → Text → ProviderCache S → S → (S × Outcome) × ProviderCache S
  unfolding reconcile_node
  reconcile api checker now name providers s = elim (api.get_node name s) [
    | err not_found ↦ ((s, done), providers)
    | err already_exists ↦ ((s, failed already_exists), providers)
    | err ice ↦ ((s, failed ice), providers)
    | err (message m) ↦ ((s, failed (message m)), providers)
    | ok node ↦ reconcile_node api checker now node providers s
  ]
