-- ===== src/Endpoint/Reconcile.antt =====
-- Reconcile and drainOldHashPods. The API server is the interface `Api` over a state of its own;
-- what other clients do between two calls of one Reconcile is left out.
pub mod Stall
pub mod Creation
use opencoda.Prelude.{
  ℕ, zero, suc, ◌+◌, ◌&&◌, ◌||◌, Option, none, some, List, [], ◌∷◌, ltb, nat_beq, if◌then◌else◌,
  length, pos_part, neg_part, ◌+ℤ◌, ◌-ℤ◌, leb_ℤ, ℤ, pos, Text, text_beq, Dict, get_or, insert,
}
use opencoda.Api.{Time, Float64, CodaEndpoint}
use opencoda.Api.Cluster.{Pod}
use opencoda.Clock.{Clock}
use opencoda.Engine as Engines
use opencoda.Engine.Vllm.{validate_engine_type}
use opencoda.Floats.{FloatOps}
use opencoda.Kv as Kvs
use opencoda.Results.{Error, Result, ok, err, not_found, already_exists, ice, message}
use opencoda.Scheduler.Sort.{SortSlice}
use opencoda.Endpoint.Desired.{desired_replicas, key_of}
use opencoda.Endpoint.Count.{compute_spec_hash, count_replica_pods, pod_hash, rollout_condition}
use opencoda.Endpoint.ColdStart.{record_pods}
use opencoda.Endpoint.Build.{build_pod}

-- The calls of the API server: a read gives a result, a write a new state and a result.
pub record Api (S : Type 0) : Type 0 where
  pub get_endpoint : Text → Text → S → Result CodaEndpoint
  pub list_pods : Text → Text → S → Option (List Pod)
  pub create_pod : Pod → S → S × Result (Unit {0})
  pub delete_pod : Pod → S → S
  pub patch_pod : Pod → S → S
  pub update_status : CodaEndpoint → S → S × Result (Unit {0})

-- The maps of the Reconciler.
pub record Memory : Type 0 where
  pub idle_since : Dict Time
  pub cold_samples : Dict (List Float64)

-- ctrl.Result with its error: nothing more to do, again after so many seconds, or an error.
pub data Outcome : Type 0 where
  done : Outcome
  requeue_after : ℕ → Outcome
  failed : Error → Outcome

-- An AlreadyExists from the API server is ignored; any other error ends the loop.
abbrev pub after_create : {S : Type 0} → Result (Unit {0}) → S → S × Option Error → S × Option Error
after_create (ok _) s next = next
after_create (err already_exists) s next = next
after_create (err not_found) s next = (s, some not_found)
after_create (err ice) s next = (s, some ice)
after_create (err (message m)) s next = (s, some (message m))

-- The endpoint with the counts and the condition that go into its status.
abbrev pub observed : Time → CodaEndpoint → ℕ → ℕ → ℕ → ℤ → CodaEndpoint
observed now ep ready old_ready starting desired = record ep {
  status = record ep.status {
    replicas = record { ready = pos (ready + old_ready); starting = pos starting };
    conditions = rollout_condition now ready old_ready desired ∷ [];
  };
}

module _ {S : Type 0} (api : Api S) (engines : Engines.Registry) (kvs : Kvs.Registry)
    (fl : FloatOps) (sort : SortSlice Float64) (clock : Clock) (hash : Text → Text)
    (now : Time) where
  -- The loop from index `i`, with so many rounds left.
  unfoldable pub create_missing : ℕ → ℤ → CodaEndpoint → Text → S → S × Option Error
  create_missing zero i ep spec_hash s = (s, none)
  create_missing (suc rounds) i ep spec_hash s =
      elim (build_pod fl clock now engines kvs ep i spec_hash) [
        | err e ↦ (s, some e)
        | ok pod ↦
            let (s', created) = api.create_pod pod s in
            after_create created s' (create_missing rounds (i +ℤ pos 1) ep spec_hash s')
      ]

  unfoldable pub delete_old : Text → List Pod → S → S
  unfolding text_beq
  delete_old spec_hash [] s = s
  delete_old spec_hash (p ∷ ps) s = delete_old spec_hash ps (
      if text_beq (pod_hash p) spec_hash || text_beq (pod_hash p) [] then s else api.delete_pod p s)

  unfoldable pub drain_old_hash_pods : CodaEndpoint → Text → S → S
  unfolding delete_old
  drain_old_hash_pods ep spec_hash s =
      elim (api.list_pods ep.metadata.namespace ep.metadata.name s) [
        | none ↦ s
        | some pods ↦ delete_old spec_hash pods s
      ]

  unfoldable pub patch_all : List Pod → S → S
  patch_all [] s = s
  patch_all (p ∷ ps) s = patch_all ps (api.patch_pod p s)

  -- recordColdStarts with its patches.
  unfoldable pub record_cold_starts :
      CodaEndpoint → Dict (List Float64) → S → S × CodaEndpoint × Dict (List Float64)
  unfolding patch_all
  record_cold_starts ep samples s = elim (api.list_pods ep.metadata.namespace ep.metadata.name s) [
    | none ↦ (s, ep, samples)
    | some pods ↦
        let key = key_of ep.metadata in
        let (mine, metrics, patched) =
          record_pods fl sort clock now pods (get_or samples key []) ep.status.cold_start in
        (
          patch_all patched s,
          record ep { status = record ep.status { cold_start = metrics } },
          if nat_beq (length patched) 0 then samples else insert key mine samples,
        )
  ]

  abbrev ends : S × Option Error → (S → S) → S × Outcome
  ends (s, some e) then_drain = (s, failed e)
  ends (s, none) then_drain = (then_drain s, requeue_after 10)

  -- From the counts on: the status has been written, and the replicas are brought to `desired`.
  unfoldable pub settle : CodaEndpoint → Text → ℕ → ℕ → ℕ → ℤ → S → S × Outcome
  unfolding create_missing drain_old_hash_pods
  settle ep spec_hash ready starting old_ready desired s =
      if nat_beq (pos_part desired + neg_part desired) 0
      then (s, requeue_after 10)
      else ends
          (create_missing (pos_part (desired -ℤ pos (ready + starting))) (pos (ready + starting)) ep
            spec_hash s)
          (λ s'.
            if leb_ℤ desired (pos ready) && ltb 0 old_ready
            then drain_old_hash_pods ep spec_hash s'
            else s')

  unfoldable pub reconcile_endpoint : CodaEndpoint → Memory → S → (S × Outcome) × Memory
  unfolding settle record_cold_starts
  reconcile_endpoint ep memory s =
      let spec_hash = compute_spec_hash hash ep in
      let (idle_since, desired) = desired_replicas clock.parse_duration ep now memory.idle_since in
      let listed = api.list_pods ep.metadata.namespace ep.metadata.name s in
      let (ready, starting) = count_replica_pods hash ep listed spec_hash in
      let (old_ready, old_total) = count_replica_pods hash ep listed [] in
      let (s', ep', samples) =
        record_cold_starts (observed now ep ready old_ready starting desired) memory.cold_samples
          s in
      let (s'', updated) = api.update_status ep' s' in
      (
        (elim updated [
          | err e ↦ (s'', failed e)
          | ok _ ↦ settle ep' spec_hash ready starting old_ready desired s''
        ]),
        record { idle_since = idle_since; cold_samples = samples },
      )

  unfoldable pub reconcile : Text → Text → Memory → S → (S × Outcome) × Memory
  unfolding reconcile_endpoint
  reconcile namespace name memory s = elim (api.get_endpoint namespace name s) [
    | err not_found ↦ ((s, done), memory)
    | err already_exists ↦ ((s, failed already_exists), memory)
    | err ice ↦ ((s, failed ice), memory)
    | err (message m) ↦ ((s, failed (message m)), memory)
    | ok ep ↦ elim (validate_engine_type ep.spec.engine.kind) [
      | err e ↦ ((s, done), memory)
      | ok _ ↦ reconcile_endpoint ep memory s
    ]
  ]
