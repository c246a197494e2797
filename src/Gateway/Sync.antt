-- ===== src/Gateway/Sync.antt =====
-- The K8sSync of internal/gateway/k8s.go. What it reads from the cluster and over HTTP comes in as
-- `Reads`, what it writes goes out as a list of `Write`s in order: a failed write is only logged.
-- The map idleSince is never used and is left out.
pub mod Load
use opencoda.Prelude.{
  ℕ, ◌+◌, not, ◌||◌, Option, none, some, List, [], ◌∷◌, ◌++◌, map, nat_beq, if◌then◌else◌, ℤ, pos,
  Text, bytes, text_beq, decimal, Dict, get_or, insert,
}
use opencoda.Api.{Float64, CodaEndpoint, BufferPolicy}
use opencoda.Api.Cluster.{Pod, pod_ready}
use opencoda.Constants.{annotation_desired_replicas}
use opencoda.Floats.{FloatOps}
use opencoda.Gateway.Router
use opencoda.Gateway.Router.{Router, register_endpoint}
use opencoda.Gateway.Autoscaler.{Autoscaler, evaluate, total_demand}
use opencoda.Gateway.Metrics.{parse_prefix_cache_metrics}

pub record K8sSync : Type 0 where
  pub router : Router
  pub autoscaler : Autoscaler
  pub kv_hits : Dict Float64

-- The field idleSince is used by no method.
abbrev pub new_k8s_sync : Router → Autoscaler → K8sSync
new_k8s_sync router autoscaler = record { router = router; autoscaler = autoscaler; kv_hits = [] }

-- `page` is the body of http://IP:8000/metrics, if it is served with status 200; `fresh` the
-- endpoint read again; `none` where the call fails.
pub record Reads : Type 0 where
  pub pods : Option (List Pod)
  pub page : Text → Option Text
  pub fresh : Option CodaEndpoint
  pub policies : Option (List BufferPolicy)

pub data Write : Type 0 where
  update_endpoint_status patch_endpoint : CodaEndpoint → Write
  update_policy_status : BufferPolicy → Write

unfoldable pub url_of : Text → Text
url_of pod_ip = bytes "http://" ++ (pod_ip ++ bytes ":8000")

-- The URLs of the pods that are ready and have an address, in the order of the list.
unfoldable pub ready_urls : List Pod → List Text
unfolding url_of text_beq
ready_urls [] = []
ready_urls (p ∷ ps) =
    let rest = ready_urls ps in
    if text_beq p.pod_ip []
    then rest
    else if pod_ready p.conditions
    then url_of p.pod_ip ∷ rest
    else rest

unfoldable pub patch_endpoint_kv_hit : Option CodaEndpoint → Float64 → List Write
patch_endpoint_kv_hit none rate = []
patch_endpoint_kv_hit (some fresh) rate =
    update_endpoint_status (record fresh { status = record fresh.status { kv_hit_rate = rate } })
    ∷ []

unfoldable pub patch_desired_replicas : CodaEndpoint → ℤ → List Write
patch_desired_replicas ep desired =
    patch_endpoint (record ep {
      metadata = record ep.metadata {
        annotations = insert annotation_desired_replicas (decimal desired) ep.metadata.annotations;
      };
    })
    ∷ []

abbrev pub with_demand : Float64 → BufferPolicy → Write
with_demand ewma p =
    update_policy_status (record p { status = record p.status { demand_ewma = ewma } })

module _ (fl : FloatOps) where
  unfoldable pub scrape_kv_hit_rate : (Text → Option Text) → Text → Option Float64
  scrape_kv_hit_rate page pod_ip = elim (page pod_ip) [
    | none ↦ none
    | some body ↦
        let c = parse_prefix_cache_metrics body in
        if not c.ok || nat_beq c.queries 0
        then none
        else some (fl.div (fl.of_int (pos c.hits)) (fl.of_int (pos c.queries)))
  ]

  -- The rate of the last ready pod that gives one.
  unfoldable pub last_rate : (Text → Option Text) → Float64 → List Pod → Float64
  unfolding scrape_kv_hit_rate text_beq
  last_rate page rate [] = rate
  last_rate page rate (p ∷ ps) =
      last_rate page
        (if text_beq p.pod_ip [] || not (pod_ready p.conditions)
          then rate
          else elim (scrape_kv_hit_rate page p.pod_ip) [ none ↦ rate | some found ↦ found ])
        ps

  unfoldable pub export_demand :
      (Dict Float64 → Dict Float64) → Autoscaler → Option (List BufferPolicy) → ℕ → List Write
  export_demand visit a none load = []
  export_demand visit a (some policies) load =
      let total = total_demand fl visit a in
      let ewma = if fl.equal total (fl.ratio 0 1) then fl.of_int (pos load) else total in
      map (with_demand ewma) policies

  -- SyncEndpoint: the endpoint is registered first, and its counters are read after that. Each of
  -- these takes the router's mutex anew: `amid` is what other goroutines do to the router between
  -- the registration and InFlight, where the KV hit rate is written, and `then_on` between InFlight
  -- and QueueDepth.
  unfoldable pub sync_endpoint_amid :
      (Dict Float64 → Dict Float64)
      → (Router → Router)
      → (Router → Router)
      → CodaEndpoint
      → Reads
      → K8sSync
      → K8sSync × List Write
  unfolding ready_urls last_rate patch_endpoint_kv_hit patch_desired_replicas export_demand
  sync_endpoint_amid visit amid then_on ep reads k = elim reads.pods [
    | none ↦ (k, [])
    | some pods ↦
        let name = ep.metadata.name in
        let rate = last_rate reads.page (fl.ratio 0 1) pods in
        let registered = register_endpoint name ep.spec.model.source (ready_urls pods) k.router in
        let hit = fl.less (fl.ratio 0 1) rate in
        let counted = amid registered in
        let in_flight = Router.in_flight name counted in
        let router = then_on counted in
        let queue = Router.queue_depth name router in
        let scaled = evaluate fl ep in_flight queue k.autoscaler in
        (
          record {
            router = router;
            autoscaler = scaled.0;
            kv_hits = if hit then insert name rate k.kv_hits else k.kv_hits;
          },
          (if hit then patch_endpoint_kv_hit reads.fresh rate else [])
              ++ (patch_desired_replicas ep scaled.1
                  ++ export_demand visit scaled.0 reads.policies (in_flight + queue)),
        )
  ]

  -- SyncEndpoint where no other goroutine uses the router before it has read the counters.
  unfoldable pub sync_endpoint :
      (Dict Float64 → Dict Float64) → CodaEndpoint → Reads → K8sSync → K8sSync × List Write
  unfolding sync_endpoint_amid
  sync_endpoint visit ep reads k = sync_endpoint_amid visit (λ r. r) (λ r. r) ep reads k

  unfoldable pub kv_hit_rate : Text → K8sSync → Float64
  kv_hit_rate endpoint k = get_or k.kv_hits endpoint (fl.ratio 0 1)

  -- One tick of RunAutoscalerLoop: `none` for an endpoint that could not be read again.
  unfoldable pub tick :
      (Dict Float64 → Dict Float64)
      → List (Option (CodaEndpoint × Reads))
      → K8sSync
      → K8sSync × List Write
  tick visit [] k = (k, [])
  tick visit (none ∷ rest) k = tick visit rest k
  tick visit (some (ep, reads) ∷ rest) k =
      let (k', writes) = sync_endpoint visit ep reads k in
      let (k'', more) = tick visit rest k' in (k'', writes ++ more)

  -- RunAutoscalerLoop until its context is done: at each tick the endpoints and what is read for
  -- them, or `none` where they cannot be listed.
  unfoldable pub run_autoscaler_loop :
      (Dict Float64 → Dict Float64)
      → List (Option (List (Option (CodaEndpoint × Reads))))
      → K8sSync
      → K8sSync × List Write
  unfolding tick
  run_autoscaler_loop visit [] k = (k, [])
  run_autoscaler_loop visit (none ∷ ticks) k = run_autoscaler_loop visit ticks k
  run_autoscaler_loop visit (some endpoints ∷ ticks) k =
      let (k', writes) = tick visit endpoints k in
      let (k'', more) = run_autoscaler_loop visit ticks k' in (k'', writes ++ more)
