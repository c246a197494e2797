-- ===== src/Gateway/Threads/Loop.antt =====
-- RunAutoscalerLoop as steps of the gateway, and what a completion gets behind it.
use opencoda.Prelude.{inl, inr, Option, none, some, List, [], ◌∷◌, Option-cases, Dict}
use opencoda.Api.{CodaEndpoint, Float64}
use opencoda.Floats.{FloatOps}
use opencoda.Gateway.Autoscaler.{new_autoscaler}
use opencoda.Gateway.Router.{new_router, Router}
use opencoda.Gateway.Sync.{new_k8s_sync, sync_endpoint, tick, run_autoscaler_loop, K8sSync, Reads}
use opencoda.Gateway.Threads.{sync_router, Listing, Stage, Gateway, Reach, syncs, later}

-- The listings of pods that a tick and the loop make, the newest first.
abbrev pub tick_listings : List (Option (CodaEndpoint × Reads)) → List Listing → List Listing
tick_listings [] h = h
tick_listings (none ∷ endpoints) h = tick_listings endpoints h
tick_listings (some (ep, reads) ∷ endpoints) h =
    tick_listings endpoints (elim reads.pods [ none ↦ h | some pods ↦ (ep, pods) ∷ h ])

abbrev pub loop_listings :
    List (Option (List (Option (CodaEndpoint × Reads)))) → List Listing → List Listing
loop_listings [] h = h
loop_listings (none ∷ ticks) h = loop_listings ticks h
loop_listings (some endpoints ∷ ticks) h = loop_listings ticks (tick_listings endpoints h)

abbrev pub gateway : Router → List Stage → Gateway
gateway router requests = record { router = router; requests = requests }

module _ (fl : FloatOps) (visit : Dict Float64 → Dict Float64) where
  sync_endpoint-Reach :
      {h : List Listing} (ep : CodaEndpoint) (reads : Reads) (k : K8sSync) (requests : List Stage)
      → Reach h (gateway k.router requests)
      → Reach
          (elim reads.pods as (λ _. List Listing) [ none ↦ h | some pods ↦ (ep, pods) ∷ h ])
          (gateway (sync_endpoint fl visit ep reads k).0.router requests)
  unfolding sync_endpoint sync_router
  sync_endpoint-Reach ep reads k requests reach = elim (Option-cases reads.pods) [
    | inl e ↦ rw (e, sync_endpoint) reach
    | inr (pods, e) ↦ rw (e, sync_endpoint) (later reach (syncs ep pods))
  ]

  tick-Reach :
      {h : List Listing} (endpoints : List (Option (CodaEndpoint × Reads))) (k : K8sSync)
      (requests : List Stage)
      → Reach h (gateway k.router requests)
      → Reach (tick_listings endpoints h) (gateway (tick fl visit endpoints k).0.router requests)
  unfolding tick
  tick-Reach [] k requests reach = reach
  tick-Reach (none ∷ endpoints) k requests reach = tick-Reach endpoints k requests reach
  tick-Reach (some (ep, reads) ∷ endpoints) k requests reach =
      tick-Reach endpoints (sync_endpoint fl visit ep reads k).0 requests
        (sync_endpoint-Reach ep reads k requests reach)

  -- Every tick of the loop is a row of steps of the gateway.
  pub run_autoscaler_loop-Reach :
      {h : List Listing} (ticks : List (Option (List (Option (CodaEndpoint × Reads)))))
      (k : K8sSync) (requests : List Stage)
      → Reach h (gateway k.router requests)
      → Reach
          (loop_listings ticks h)
          (gateway (run_autoscaler_loop fl visit ticks k).0.router requests)
  unfolding run_autoscaler_loop
  run_autoscaler_loop-Reach [] k requests reach = reach
  run_autoscaler_loop-Reach (none ∷ ticks) k requests reach =
      run_autoscaler_loop-Reach ticks k requests reach
  run_autoscaler_loop-Reach (some endpoints ∷ ticks) k requests reach =
      run_autoscaler_loop-Reach ticks (tick fl visit endpoints k).0 requests
        (tick-Reach endpoints k requests reach)

  -- The router after some ticks of the loop of a gateway that has just started.
  abbrev pub after_ticks : List (Option (List (Option (CodaEndpoint × Reads)))) → Router
  after_ticks ticks =
      (run_autoscaler_loop fl visit ticks (new_k8s_sync new_router new_autoscaler)).0.router
