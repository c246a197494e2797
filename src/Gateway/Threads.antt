-- ===== src/Gateway/Threads.antt =====
-- The goroutines of the gateway over one router: a completion of internal/gateway/server.go is taken
-- apart at the calls that take the router's mutex, and those of other requests and the
-- synchronisations of internal/gateway/k8s.go come in between in any order.
pub mod Queue
pub mod Exact
pub mod Listing
pub mod Loop
pub mod Served
mod Tests
use opencoda.Prelude.{◌≡◌, none, some, List, [], ◌∷◌, ◌++◌, if◌then◌else◌, Text, text_beq, Dict}
use opencoda.Api.{CodaEndpoint}
use opencoda.Api.Cluster.{Pod}
use opencoda.Gateway.Router.{
  new_router, register_endpoint, pick_replica, inc_queue, dec_queue, pick_endpoint_by_model,
  EndpointState, Router,
}
use opencoda.Gateway.Server.{forward, Reply, Json, Outcome, model_not_found, no_replicas}
use opencoda.Gateway.Sync.{ready_urls}

-- Where a completion stands, with the local variables that are live there.
pub data Stage : Type 0 where
  -- the body is read
  arrived : (body : Text) → Stage
  -- PickEndpointByModel gave the endpoint `name`
  found : (name body : Text) → Stage
  -- behind IncQueue
  queued : (name body : Text) → Stage
  -- behind PickReplica
  picked : (name body url : Text) → Stage
  -- the reply is written, the deferred DecQueue is left
  replied : (name : Text) → Reply → Stage
  done : Reply → Stage

-- Up to the next call on the router. The order of the map and the answer of the replica are those
-- of this very moment.
unfoldable pub advance :
    (Dict EndpointState → Dict EndpointState)
    → Json
    → (Text → Text → Outcome)
    → Stage
    → Router
    → Router × Stage
unfolding text_beq
advance visit json post (arrived body) r = (
  r,
  elim (pick_endpoint_by_model visit (json.model_of body) r) [
    | none ↦ done model_not_found
    | some ep ↦ found ep.name body
  ],
)
advance visit json post (found name body) r = (inc_queue name r, queued name body)
advance visit json post (queued name body) r =
    let (r', url) = pick_replica name r in (r', picked name body url)
advance visit json post (picked name body url) r = (
  r,
  replied name
      (if text_beq url [] then no_replicas else forward json post url body (json.model_of body)),
)
advance visit json post (replied name reply) r = (dec_queue name r, done reply)
advance visit json post (done reply) r = (r, done reply)

pub record Gateway : Type 0 where
  pub router : Router
  pub requests : List Stage

-- What a synchronisation does to the router, once it has listed the pods.
unfoldable pub sync_router : CodaEndpoint → List Pod → Router → Router
sync_router ep pods r = register_endpoint ep.metadata.name ep.spec.model.source (ready_urls pods) r

-- A listing of the pods of an endpoint, as a synchronisation made it.
abbrev pub Listing : Type 0
Listing = CodaEndpoint × List Pod

-- A step, with the listing that it adds to those of before, the newest first.
pub data Step (h : List Listing) (g : Gateway) : List Listing → Gateway → Type 0 where
  arrives : (body : Text) → Step h g h (record g { requests = arrived body ∷ g.requests })
  moves :
      (visit : Dict EndpointState → Dict EndpointState) (json : Json) (post : Text → Text → Outcome)
      (before after : List Stage) (s : Stage)
      → g.requests ≡ before ++ (s ∷ after)
      → Step h g h (record {
        router = (advance visit json post s g.router).0;
        requests = before ++ ((advance visit json post s g.router).1 ∷ after);
      })
  syncs :
      (ep : CodaEndpoint) (pods : List Pod)
      → Step h g ((ep, pods) ∷ h) (record g { router = sync_router ep pods g.router })

-- The gateway as main starts it: nothing is listed, no request is there.
abbrev pub start_gateway : Gateway
start_gateway = record { router = new_router; requests = [] }

pub data Reach : List Listing → Gateway → Type 0 where
  start : Reach [] start_gateway
  later : {h h' : List Listing} {g g' : Gateway} → Reach h g → Step h g h' g' → Reach h' g'
