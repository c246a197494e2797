-- ===== src/Gateway/Sync/Load.antt =====
-- What a synchronisation registers, and what it asks for.
use opencoda.Prelude.{
  ℕ, ◌+◌, ◌≡◌, refl, ap, ◌∙◌, Bool, true, false, Option, none, some, List, [], ◌∷◌, ◌++◌, map,
  if◌then◌else◌, ℤ, Text, text_beq_refl, decimal, Dict, lookup, lookup-insert,
}
use opencoda.Api.{Float64, CodaEndpoint, BufferPolicy}
use opencoda.Api.Cluster.{Pod}
use opencoda.Constants.{annotation_desired_replicas}
use opencoda.Floats.{FloatOps}
use opencoda.Gateway.Router
use opencoda.Gateway.Router.{Router, EndpointState, register_endpoint}
use opencoda.Gateway.Router.Counters.{run, spec_run, lookup-run, Event, Unregistered}
use opencoda.Gateway.Router.Since.{flying, waiting, waiting-append, spec_run-Went}
use opencoda.Gateway.Autoscaler.{Autoscaler, desired_for, evaluate}
use opencoda.Gateway.Sync.{
  K8sSync, Reads, Write, update_endpoint_status, patch_endpoint, update_policy_status, ready_urls,
  patch_endpoint_kv_hit, patch_desired_replicas, export_demand, with_demand, sync_endpoint_amid,
}

-- The desired-replicas annotation of each endpoint that is patched.
abbrev pub asked : List Write → List (Option Text)
asked [] = []
asked (update_endpoint_status ep ∷ ws) = asked ws
asked (patch_endpoint ep ∷ ws) =
    lookup annotation_desired_replicas ep.metadata.annotations ∷ asked ws
asked (update_policy_status p ∷ ws) = asked ws

asked-append : (xs ys : List Write) → asked (xs ++ ys) ≡ asked xs ++ asked ys
asked-append [] ys = refl
asked-append (update_endpoint_status ep ∷ xs) ys = asked-append xs ys
asked-append (patch_endpoint ep ∷ xs) ys = cc (asked-append xs ys)
asked-append (update_policy_status p ∷ xs) ys = asked-append xs ys

asked-policies : (x : Float64) (ps : List BufferPolicy) → asked (map (with_demand x) ps) ≡ []
asked-policies x [] = refl
asked-policies x (p ∷ ps) = asked-policies x ps

asked-kv_hit :
    (hit : Bool) (fresh : Option CodaEndpoint) (rate : Float64)
    → asked (if hit then patch_endpoint_kv_hit fresh rate else []) ≡ []
unfolding patch_endpoint_kv_hit
asked-kv_hit true none rate = refl
asked-kv_hit true (some ep) rate = refl
asked-kv_hit false fresh rate = refl

asked-desired :
    (ep : CodaEndpoint) (desired : ℤ)
    → asked (patch_desired_replicas ep desired) ≡ some (decimal desired) ∷ []
unfolding patch_desired_replicas
asked-desired ep desired = rw (
  lookup-insert annotation_desired_replicas annotation_desired_replicas (decimal desired)
      ep.metadata.annotations,
  text_beq_refl annotation_desired_replicas,
)

asked-export :
    (fl : FloatOps) (visit : Dict Float64 → Dict Float64) (a : Autoscaler)
    (o : Option (List BufferPolicy)) (load : ℕ)
    → asked (export_demand fl visit a o load) ≡ []
unfolding export_demand
asked-export fl visit a none load = refl
asked-export fl visit a (some ps) load = asked-policies _ ps

desired-evaluate :
    (fl : FloatOps) (ep : CodaEndpoint) (i q : ℕ) (a : Autoscaler)
    → (evaluate fl ep i q a).1 ≡ desired_for ep (i + q)
unfolding evaluate
desired-evaluate fl ep i q a = refl

-- The state of an endpoint that is registered.
abbrev newly : Text → Text → List Text → EndpointState
newly name model urls = record {
  name = name;
  model_id = model;
  replica_urls = urls;
  in_flight = 0;
  queue_depth = 0;
  desired_replicas = 0;
}

lookup-newly :
    (name model : Text) (urls : List Text) (r : Router)
    → lookup name (register_endpoint name model urls r).endpoints ≡ some (newly name model urls)
unfolding register_endpoint
lookup-newly name model urls r =
    rw
      (
        register_endpoint,
        lookup-insert name name (newly name model urls) r.endpoints,
        text_beq_refl name,
      )
      refl

module _ (fl : FloatOps) (visit : Dict Float64 → Dict Float64) (ep : CodaEndpoint) where
  abbrev name : Text
  name = ep.metadata.name

  -- What the router counts after the calls `es` and after `es'`, when the endpoint is registered with
  -- the URLs of these pods before them.
  counted_since :
      (pods : List Pod) (es es' : List Event) (r : Router)
      → Unregistered name es
      → Unregistered name es'
      → (let registered = register_endpoint name ep.spec.model.source (ready_urls pods) r in
          (Router.in_flight name (run es registered) ≡ flying name (ready_urls pods) es 0)
          × (Router.queue_depth name (run es' (run es registered)) ≡ waiting name (es ++ es') 0))
  unfolding Router.in_flight Router.queue_depth register_endpoint
  counted_since pods es es' r u u' =
      let registered = register_endpoint name ep.spec.model.source (ready_urls pods) r in
      let fresh = newly name ep.spec.model.source (ready_urls pods) in
      let held = lookup-newly name ep.spec.model.source (ready_urls pods) r in
      let went = spec_run-Went name es fresh u in
      let more = spec_run-Went name es' went.state u' in
      let amid : lookup name (run es registered).endpoints ≡ some went.state =
        lookup-run name es registered ∙ (ap (spec_run name es) held ∙ went.runs) in
      let after : lookup name (run es' (run es registered)).endpoints ≡ some more.state =
        lookup-run name es' (run es registered) ∙ (ap (spec_run name es') amid ∙ more.runs) in
      (
        rw (Router.in_flight, amid) went.flight,
        rw (Router.queue_depth, after)
            (more.depth ∙ ap (waiting name es') went.depth ∙ waiting-append name es es' 0),
      )

  -- A synchronisation that can list the pods patches the endpoint once, whatever other calls on the
  -- router come in between but registrations of the endpoint. The load that it asks for is that of
  -- those calls alone: the picks between its registration and its reading of the requests in flight,
  -- if a pod is ready, and what the calls up to its reading of the queue leave of a queue that was
  -- empty. Requests from before it are not counted.
  pub asked-sync_endpoint_amid :
      (reads : Reads) (k : K8sSync) (pods : List Pod) (es es' : List Event)
      → reads.pods ≡ some pods
      → Unregistered name es
      → Unregistered name es'
      → asked (sync_endpoint_amid fl visit (run es) (run es') ep reads k).1
        ≡ some (
            decimal
              (desired_for ep (flying name (ready_urls pods) es 0 + waiting name (es ++ es') 0)))
          ∷ []
  unfolding sync_endpoint_amid
  asked-sync_endpoint_amid reads k pods es es' e u u' =
      let loads = counted_since pods es es' k.router u u' in
      rw (e, sync_endpoint_amid)
        (simp (
          asked-append, asked-kv_hit, asked-desired, asked-export, desired-evaluate, loads.0,
          loads.1,
        ))
