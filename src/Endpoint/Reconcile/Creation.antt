-- ===== src/Endpoint/Reconcile/Creation.antt =====
-- Which pods Reconcile makes when nothing stands in its way.
use opencoda.Prelude.{
  ℕ, zero, suc, ◌+◌, ◌≡◌, refl, ap, ◌∙◌, false, none, some, List, [], ◌∷◌, map, arith, nat_beq,
  pos_part, neg_part, ◌+ℤ◌, ◌-ℤ◌, ◌<ℤ◌, ℤ, pos, Text,
}
use opencoda.Api.{Time, Float64, CodaEndpoint}
use opencoda.Api.Cluster.{Pod}
use opencoda.Clock.{Clock}
use opencoda.Engine as Engines
use opencoda.Floats.{FloatOps}
use opencoda.Kv as Kvs
use opencoda.Results.{ok}
use opencoda.Scheduler.Sort.{SortSlice}
use opencoda.Endpoint.Build.{replica_name, build_pod, build_pod-name}
use opencoda.Endpoint.Count.{compute_spec_hash, count_replica_pods}
use opencoda.Endpoint.Reconcile.{
  observed, create_missing, settle, record_cold_starts, reconcile_endpoint, Api, Memory,
  requeue_after,
}
use opencoda.Endpoint.Reconcile.Stall.{
  ready, total, old_ready, desired, observed_endpoint, after_status,
}

-- The pods go to the API server one after the other.
abbrev pub create_all : {S : Type 0} → Api S → List Pod → S → S
create_all api [] s = s
create_all api (p ∷ ps) s = create_all api ps (api.create_pod p s).0

-- The names of an endpoint's replicas from index `i` on.
abbrev pub names_from : CodaEndpoint → ℤ → ℕ → List Text
names_from ep i zero = []
names_from ep i (suc n) = replica_name ep i ∷ names_from ep (i +ℤ pos 1) n

module _ {S : Type 0} (api : Api S) (engines : Engines.Registry) (kvs : Kvs.Registry)
    (fl : FloatOps) (sort : SortSlice Float64) (clock : Clock) (hash : Text → Text)
    (now : Time) where
  -- Pods of the given names, made one after the other, and no error.
  pub record Made (ep : CodaEndpoint) (i : ℤ) (n : ℕ) (s s' : S) : Type 0 where
    pub pods : List Pod
    pub names : map (λ p. p.metadata.name) pods ≡ names_from ep i n
    pub state : s' ≡ create_all api pods s

  create_missing-Made :
      (n : ℕ) (i : ℤ) (ep : CodaEndpoint) (spec_hash : Text) (s : S)
      → ((p : Pod) (s : S) → (api.create_pod p s).1 ≡ ok tt)
      → ((i : ℤ) → (pod : Pod) × (build_pod fl clock now engines kvs ep i spec_hash ≡ ok pod))
      → Made ep i n s (create_missing api engines kvs fl sort clock hash now n i ep spec_hash s).0
        × ((create_missing api engines kvs fl sort clock hash now n i ep spec_hash s).1 ≡ none)
  unfolding create_missing
  create_missing-Made zero i ep spec_hash s accepts builds =
      (record { pods = []; names = refl; state = refl }, refl)
  create_missing-Made (suc n) i ep spec_hash s accepts builds =
      let (pod, built) = builds i in
      let rest =
        create_missing-Made n (i +ℤ pos 1) ep spec_hash (api.create_pod pod s).0 accepts builds in
      rw (built, accepts pod s, create_missing)
        (
          record {
            pods = pod ∷ rest.0.pods;
            names =
                ap (λ x. x ∷ map (λ p. p.metadata.name) rest.0.pods)
                  (build_pod-name fl clock now engines kvs ep i spec_hash pod built)
                ∙ ap (◌∷◌ (replica_name ep i)) rest.0.names;
            state = rest.0.state;
          },
          rest.1,
        )

  settle-Made :
      (ep : CodaEndpoint) (spec_hash : Text) (r t o : ℕ) (wanted : ℤ) (s : S)
      → o ≡ 0
      → pos 0 <ℤ wanted
      → ((p : Pod) (s : S) → (api.create_pod p s).1 ≡ ok tt)
      → ((i : ℤ) → (pod : Pod) × (build_pod fl clock now engines kvs ep i spec_hash ≡ ok pod))
      → Made ep
          (pos (r + t))
          (pos_part (wanted -ℤ pos (r + t)))
          s
          (settle api engines kvs fl sort clock hash now ep spec_hash r t o wanted s).0
        × ((settle api engines kvs fl sort clock hash now ep spec_hash r t o wanted s).1
            ≡ requeue_after 10)
  unfolding settle
  settle-Made ep spec_hash r t o wanted s no_old some_wanted accepts builds =
      let (m, fine) =
        create_missing-Made (pos_part (wanted -ℤ pos (r + t))) (pos (r + t)) ep spec_hash s accepts
          builds in
      let wants : nat_beq (pos_part wanted + neg_part wanted) 0 ≡ false = ground arith in
      (
        record {
          pods = m.pods;
          names = m.names;
          state = ground (arith, no_old, wants, fine, m.state);
        },
        ground (arith, no_old, wants, fine),
      )

  module _ (ep : CodaEndpoint) (memory : Memory) (s : S) (pods : List Pod) where
    abbrev wanted : ℤ
    wanted = desired api engines kvs fl sort clock hash now ep memory s pods

    abbrev found : ℕ
    found =
        ready api engines kvs fl sort clock hash now ep memory s pods
        + total api engines kvs fl sort clock hash now ep memory s pods

    abbrev seen : CodaEndpoint
    seen = observed_endpoint api engines kvs fl sort clock hash now ep memory s pods

    reconcile_endpoint-settle :
        api.list_pods ep.metadata.namespace ep.metadata.name s ≡ some pods
        → (api.update_status seen
            (record_cold_starts api engines kvs fl sort clock hash now
              (observed now ep
                (ready api engines kvs fl sort clock hash now ep memory s pods)
                (old_ready api engines kvs fl sort clock hash now ep memory s pods)
                (total api engines kvs fl sort clock hash now ep memory s pods)
                wanted)
              memory.cold_samples
              s).0).1
          ≡ ok tt
        → (reconcile_endpoint api engines kvs fl sort clock hash now ep memory s).0
          ≡ settle api engines kvs fl sort clock hash now seen
              (compute_spec_hash hash ep)
              (ready api engines kvs fl sort clock hash now ep memory s pods)
              (total api engines kvs fl sort clock hash now ep memory s pods)
              (old_ready api engines kvs fl sort clock hash now ep memory s pods)
              wanted
              (after_status api engines kvs fl sort clock hash now ep memory s pods)
    unfolding reconcile_endpoint count_replica_pods
    reconcile_endpoint-settle listed written = rw listed (ground (arith, written))

    -- Where the API server lists the pods, takes the status and makes every pod it is asked for,
    -- every replica can be built, replicas are desired and no pod of an old spec is ready,
    -- Reconcile makes, after the status, the pods under the names from the number of ready pods and
    -- all pods added up, to the replicas desired, in order, and comes back after ten seconds.
    pub reconcile_endpoint-Made :
        api.list_pods ep.metadata.namespace ep.metadata.name s ≡ some pods
        → (api.update_status seen
            (record_cold_starts api engines kvs fl sort clock hash now
              (observed now ep
                (ready api engines kvs fl sort clock hash now ep memory s pods)
                (old_ready api engines kvs fl sort clock hash now ep memory s pods)
                (total api engines kvs fl sort clock hash now ep memory s pods)
                wanted)
              memory.cold_samples
              s).0).1
          ≡ ok tt
        → pos 0 <ℤ wanted
        → old_ready api engines kvs fl sort clock hash now ep memory s pods ≡ 0
        → ((p : Pod) (s : S) → (api.create_pod p s).1 ≡ ok tt)
        → ((i : ℤ)
            → (pod : Pod) × (build_pod fl clock now engines kvs seen i (compute_spec_hash hash ep)
                ≡ ok pod))
        → Made seen
            (pos found)
            (pos_part (wanted -ℤ pos found))
            (after_status api engines kvs fl sort clock hash now ep memory s pods)
            (reconcile_endpoint api engines kvs fl sort clock hash now ep memory s).0.0
          × ((reconcile_endpoint api engines kvs fl sort clock hash now ep memory s).0.1
              ≡ requeue_after 10)
    reconcile_endpoint-Made listed written some_wanted old accepts builds =
        rw (reconcile_endpoint-settle listed written) (
          settle-Made seen (compute_spec_hash hash ep)
            (ready api engines kvs fl sort clock hash now ep memory s pods)
            (total api engines kvs fl sort clock hash now ep memory s pods)
            (old_ready api engines kvs fl sort clock hash now ep memory s pods) wanted
            (after_status api engines kvs fl sort clock hash now ep memory s pods) old some_wanted
            accepts builds)
