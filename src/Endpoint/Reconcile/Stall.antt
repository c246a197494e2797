-- ===== src/Endpoint/Reconcile/Stall.antt =====
-- Two ways in which Reconcile stops short of the replicas that it wants.
use opencoda.Prelude.{
  ℕ, zero, suc, ◌+◌, ◌≡◌, refl, inl, inr, some, List, [], arith, pos_part, ◌+ℤ◌, ◌-ℤ◌, ◌≤ℤ◌, ◌<ℤ◌,
  pos_part-sub, ℤ, pos, Text,
}
use opencoda.Api.{Time, Float64, CodaEndpoint}
use opencoda.Api.Cluster.{Pod}
use opencoda.Clock.{Clock}
use opencoda.Engine as Engines
use opencoda.Floats.{FloatOps}
use opencoda.Kv as Kvs
use opencoda.Results.{Result-cases, already_exists, ok, err}
use opencoda.Scheduler.Sort.{SortSlice}
use opencoda.Endpoint.Build.{replica_name, build_pod, build_pod-name}
use opencoda.Endpoint.Count.{compute_spec_hash, count_pods, count_replica_pods}
use opencoda.Endpoint.Desired.{desired_replicas}
use opencoda.Endpoint.Reconcile.{
  observed, create_missing, record_cold_starts, settle, reconcile_endpoint, Api, Memory, Outcome,
}

-- The API server answers AlreadyExists, and changes nothing, for every pod under one of the `n`
-- replica names of the endpoint from index `i` on.
abbrev pub Taken : {S : Type 0} → Api S → CodaEndpoint → ℤ → ℕ → S → Type 0
Taken api ep i zero s = Unit
Taken api ep i (suc n) s =
    ((p : Pod) → p.metadata.name ≡ replica_name ep i → api.create_pod p s ≡ (s, err already_exists))
    × Taken api ep (i +ℤ pos 1) n s

module _ {S : Type 0} (api : Api S) (engines : Engines.Registry) (kvs : Kvs.Registry)
    (fl : FloatOps) (sort : SortSlice Float64) (clock : Clock) (hash : Text → Text)
    (now : Time) where
  abbrev settles : CodaEndpoint → Text → ℕ → ℕ → ℕ → ℤ → S → S × Outcome
  settles = settle api engines kvs fl sort clock hash now

  create_missing-exists :
      (n : ℕ) (i : ℤ) (ep : CodaEndpoint) (spec_hash : Text) (s : S) (pod : Pod)
      → build_pod fl clock now engines kvs ep i spec_hash ≡ ok pod
      → api.create_pod pod s ≡ (s, err already_exists)
      → create_missing api engines kvs fl sort clock hash now (suc n) i ep spec_hash s
        ≡ create_missing api engines kvs fl sort clock hash now n (i +ℤ pos 1) ep spec_hash s
  unfolding create_missing
  create_missing-exists n i ep spec_hash s pod built answer = ground (arith, built, answer)

  create_missing-Taken :
      (n : ℕ) (i : ℤ) (ep : CodaEndpoint) (spec_hash : Text) (s : S)
      → Taken api ep i n s
      → (create_missing api engines kvs fl sort clock hash now n i ep spec_hash s).0 ≡ s
  unfolding create_missing
  create_missing-Taken zero i ep spec_hash s h = refl
  create_missing-Taken (suc n) i ep spec_hash s h =
      elim (Result-cases (build_pod fl clock now engines kvs ep i spec_hash)) [
        | inl (e, failed_build) ↦ ground (arith, failed_build)
        | inr (pod, built) ↦
            rw
              (create_missing-exists n i ep spec_hash s pod built
                (h.0 pod (build_pod-name fl clock now engines kvs ep i spec_hash pod built)))
              (create_missing-Taken n (i +ℤ pos 1) ep spec_hash s h.1)
      ]

  settle-enough :
      (ep : CodaEndpoint) (spec_hash : Text) (ready total : ℕ) (desired : ℤ) (s : S)
      → desired ≤ℤ pos (ready + total)
      → (settles ep spec_hash ready total 0 desired s).0 ≡ s
  unfolding settle create_missing
  settle-enough ep spec_hash ready total desired s h =
      let none_left : pos_part (desired -ℤ pos (ready + total)) ≡ 0 =
        omega (arith, pos_part-sub desired (pos (ready + total))) in
      ground (arith, none_left)

  settle-Taken :
      (ep : CodaEndpoint) (spec_hash : Text) (ready total old_ready : ℕ) (desired : ℤ) (s : S)
      → pos ready <ℤ desired
      → Taken api ep (pos (ready + total)) (pos_part (desired -ℤ pos (ready + total))) s
      → (settles ep spec_hash ready total old_ready desired s).0 ≡ s
  unfolding settle
  settle-Taken ep spec_hash ready total old_ready desired s less h = ground (
    arith,
    create_missing-Taken (pos_part (desired -ℤ pos (ready + total))) (pos (ready + total)) ep
        spec_hash s h,
  )

  module _ (ep : CodaEndpoint) (memory : Memory) (s : S) (pods : List Pod) where
    abbrev current : Text
    current = compute_spec_hash hash ep

    -- The ready pods and all pods of the current spec, the ready pods of others, and the replicas
    -- desired.
    abbrev pub ready : ℕ
    ready = (count_pods current current pods).0

    abbrev pub total : ℕ
    total = (count_pods current current pods).1

    abbrev pub old_ready : ℕ
    old_ready = (count_pods current [] pods).0

    abbrev pub desired : ℤ
    desired = (desired_replicas clock.parse_duration ep now memory.idle_since).1

    -- The state, and the endpoint, once cold starts are recorded and the status is written.
    abbrev pub observed_endpoint : CodaEndpoint
    observed_endpoint =
        (record_cold_starts api engines kvs fl sort clock hash now
          (observed now ep ready old_ready total desired) memory.cold_samples s).1

    abbrev pub after_status : S
    after_status =
        (api.update_status observed_endpoint
          (record_cold_starts api engines kvs fl sort clock hash now
            (observed now ep ready old_ready total desired) memory.cold_samples s).0).0

    -- Ready pods are counted twice: with no ready pod of an old spec, Reconcile writes the status
    -- and no more if the replicas desired are at most the ready pods and all pods added up. So
    -- with `t` pods, all ready, no more are made for anything up to twice `t`.
    pub reconcile_endpoint-counted_twice :
        api.list_pods ep.metadata.namespace ep.metadata.name s ≡ some pods
        → old_ready ≡ 0
        → desired ≤ℤ pos (ready + total)
        → (reconcile_endpoint api engines kvs fl sort clock hash now ep memory s).0.0 ≡ after_status
    unfolding reconcile_endpoint count_replica_pods
    reconcile_endpoint-counted_twice listed old enough = rw listed (
        ground (
          arith,
          old,
          settle-enough observed_endpoint current ready total desired after_status enough,
        ))

    -- A new generation takes the names of the old one: while fewer pods of the current spec are
    -- ready than desired, and pods that are there hold the names of those to be made, Reconcile
    -- writes the status and no more, and so neither makes a pod nor drains an old one.
    pub reconcile_endpoint-Taken :
        api.list_pods ep.metadata.namespace ep.metadata.name s ≡ some pods
        → pos ready <ℤ desired
        → Taken api observed_endpoint
            (pos (ready + total))
            (pos_part (desired -ℤ pos (ready + total)))
            after_status
        → (reconcile_endpoint api engines kvs fl sort clock hash now ep memory s).0.0 ≡ after_status
    unfolding reconcile_endpoint count_replica_pods
    reconcile_endpoint-Taken listed less taken = rw listed (
        ground (
          arith,
          settle-Taken observed_endpoint current ready total old_ready desired after_status less
              taken,
        ))
