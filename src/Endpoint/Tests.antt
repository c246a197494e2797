-- ===== src/Endpoint/Tests.antt =====
-- Runs of the endpoint controller on a small cluster.
use opencoda.Endpoint.Reconcile.Creation.{reconcile_endpoint-Made, Made}
use opencoda.Endpoint.Build.{build_pod}
use opencoda.Endpoint.Count.{compute_spec_hash}
use opencoda.Endpoint.Reconcile.{requeue_after}
use opencoda.Prelude.{
  ℤ, ◌/◌, ◌≡◌, refl, Bool, not, ◌&&◌, some, List, [], ◌∷◌, arith, if◌then◌else◌, keep, count, any,
  pos_part, ◌-ℤ◌, ◌≤ℤ◌, pos, Text, bytes, text_beq, decimal, atoi, Dict, lookup, get_or,
}
use opencoda.Api.{ColdStartMetrics, CodaEndpoint}
use opencoda.Api.Cluster.{Pod, pod_ready}
use opencoda.Api.Sample.{endpoint, ready_pod}
use opencoda.Clock.{Clock}
use opencoda.Constants.{annotation_desired_replicas}
use opencoda.Results.{already_exists, ok, err}
use opencoda.Floats.Sample.{sample}
use opencoda.Scheduler.Sort.Insertion.{insertion}
use opencoda.Engine as Engines
use opencoda.Engine.Vllm as Vllm
use opencoda.Kv as Kvs
use opencoda.Kv.Null as Null
use opencoda.Endpoint.Desired.{desired_replicas}
use opencoda.Endpoint.Desired.Bounds.{desired_replicas_bounds}
use opencoda.Endpoint.Count.{compute_spec_hash, counted, count_pods}
use opencoda.Endpoint.Count.Generations.{count_pods-count}
use opencoda.Endpoint.ColdStart.{record_pods}
use opencoda.Endpoint.Build.{replica_name}
use opencoda.Endpoint.Reconcile.{record_cold_starts, reconcile_endpoint, Api, Memory}
use opencoda.Endpoint.Reconcile.Stall.{
  Taken, observed_endpoint, after_status, reconcile_endpoint-counted_twice,
  reconcile_endpoint-Taken,
}

-- Every duration is read as a second, every time as 0.
abbrev clock : Clock
clock = record {
  parse_duration = λ t. some (pos 1_000_000_000);
  parse_time = λ t. some (pos 0);
  format_time = λ t. bytes "t";
  seconds = λ d. pos_part d / 1_000_000_000;
}

-- The annotation with which the gateway asks for two replicas.
abbrev asks_two : Dict Text
asks_two = (annotation_desired_replicas, bytes "2") ∷ []

abbrev asks : CodaEndpoint
asks = endpoint (bytes "a") asks_two 1 4

desired_replicas_bounds_example :
    (pos 1 ≤ℤ (desired_replicas clock.parse_duration asks (pos 0) []).1)
    × ((desired_replicas clock.parse_duration asks (pos 0) []).1 ≤ℤ pos 4)
desired_replicas_bounds_example =
    desired_replicas_bounds clock.parse_duration asks (pos 0) [] (omega arith) (omega arith)

abbrev new_pod : Pod
new_pod = ready_pod (bytes "a-replica-0") (bytes "h")

abbrev old_pod : Pod
old_pod = ready_pod (bytes "a-replica-0") (bytes "old")

abbrev both : List Pod
both = new_pod ∷ old_pod ∷ []

count_pods-count_example :
    ((count_pods (bytes "h") [] both).0
      ≡ count (λ p. counted (bytes "h") [] p && pod_ready p.conditions) both)
    × ((count_pods (bytes "h") [] both).1 ≡ count (counted (bytes "h") []) both)
count_pods-count_example = count_pods-count (bytes "h") [] both

abbrev no_metrics : ColdStartMetrics
no_metrics = record { p50_ms = pos 0; p95_ms = pos 0 }

-- A cluster that holds the pods of one endpoint.
abbrev has_name : Text → List Pod → Bool
has_name n ps = any (λ q. text_beq q.metadata.name n) ps

abbrev cluster : Api (List Pod)
cluster = record {
  get_endpoint = λ ns n s. ok asks;
  list_pods = λ ns n s. some s;
  create_pod =
      λ p s. if has_name p.metadata.name s then (s, err already_exists) else (p ∷ s, ok tt);
  delete_pod = λ p s. keep (λ q. not (text_beq q.metadata.name p.metadata.name)) s;
  patch_pod = λ p s. s;
  update_status = λ ep s. (s, ok tt);
}

abbrev engines : Engines.Registry
engines = record { engines = (bytes "vllm", Vllm.new (bytes "latest")) ∷ [] }

abbrev kvs : Kvs.Registry
kvs = record { providers = (bytes "null", Null.new) ∷ [] }

abbrev hash : Text → Text
hash t = bytes "h"

abbrev memory : Memory
memory = record { idle_since = []; cold_samples = [] }

-- One ready pod and two wanted: nothing is made.
reconcile_endpoint-counted_twice_example :
    (reconcile_endpoint cluster engines kvs sample insertion clock hash
      (pos 9)
      asks
      memory
      (new_pod ∷ [])).0.0
    ≡ after_status cluster engines kvs sample insertion clock hash
        (pos 9)
        asks
        memory
        (new_pod ∷ [])
        (new_pod ∷ [])
unfolding count_pods get_or compute_spec_hash desired_replicas atoi
reconcile_endpoint-counted_twice_example =
    reconcile_endpoint-counted_twice cluster engines kvs sample insertion clock hash (pos 9) asks
      memory (new_pod ∷ []) (new_pod ∷ []) refl refl (omega arith)

abbrev asks_one : CodaEndpoint
asks_one = endpoint (bytes "a") [] 1 4

-- The one pod is of an old spec and has the name of the pod that is wanted.
one-Taken :
    Taken cluster
      (observed_endpoint cluster engines kvs sample insertion clock hash
        (pos 9)
        asks_one
        memory
        (old_pod ∷ [])
        (old_pod ∷ []))
      (pos 0)
      1
      (old_pod ∷ [])
unfolding text_beq replica_name record_cold_starts decimal
one-Taken = (λ p e. rw e refl, tt)

reconcile_endpoint-Taken_example :
    (reconcile_endpoint cluster engines kvs sample insertion clock hash
      (pos 9)
      asks_one
      memory
      (old_pod ∷ [])).0.0
    ≡ after_status cluster engines kvs sample insertion clock hash
        (pos 9)
        asks_one
        memory
        (old_pod ∷ [])
        (old_pod ∷ [])
unfolding count_pods desired_replicas compute_spec_hash lookup get_or ◌-ℤ◌ record_cold_starts
    record_pods
reconcile_endpoint-Taken_example =
    reconcile_endpoint-Taken cluster engines kvs sample insertion clock hash (pos 9) asks_one memory
      (old_pod ∷ []) (old_pod ∷ []) refl (omega arith) one-Taken

-- A cluster that takes every pod; four replicas are wanted and one is ready.
abbrev open_cluster : Api (List Pod)
open_cluster = record cluster { create_pod = λ p s. (p ∷ s, ok tt) }

abbrev asks_four : CodaEndpoint
asks_four = endpoint (bytes "a") ((annotation_desired_replicas, bytes "4") ∷ []) 1 4

abbrev seen_four : CodaEndpoint
seen_four =
    observed_endpoint open_cluster engines kvs sample insertion clock hash (pos 9) asks_four memory
      (new_pod ∷ []) (new_pod ∷ [])

builds_four :
    (i : ℤ)
    → (pod : Pod) × (build_pod sample clock
          (pos 9)
          engines
          kvs
          seen_four
          i
          (compute_spec_hash hash asks_four)
        ≡ ok pod)
unfolding build_pod Engines.get lookup text_beq record_cold_starts Kvs.get Null.new Vllm.new
builds_four i = (_, refl)

reconcile_endpoint-Made_example :
    Made open_cluster engines kvs sample insertion clock hash
      (pos 9)
      seen_four
      (pos 2)
      2
      (after_status open_cluster engines kvs sample insertion clock hash
        (pos 9)
        asks_four
        memory
        (new_pod ∷ [])
        (new_pod ∷ []))
      (reconcile_endpoint open_cluster engines kvs sample insertion clock hash
        (pos 9)
        asks_four
        memory
        (new_pod ∷ [])).0.0
    × ((reconcile_endpoint open_cluster engines kvs sample insertion clock hash
          (pos 9)
          asks_four
          memory
          (new_pod ∷ [])).0.1
        ≡ requeue_after 10)
unfolding desired_replicas lookup atoi count_pods get_or compute_spec_hash ◌-ℤ◌
reconcile_endpoint-Made_example =
    reconcile_endpoint-Made open_cluster engines kvs sample insertion clock hash (pos 9) asks_four
      memory (new_pod ∷ []) (new_pod ∷ []) refl refl (omega arith) refl (λ p s. refl) builds_four
