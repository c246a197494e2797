-- ===== src/Gateway/Threads/Tests.antt =====
-- One completion against one synchronisation, step by step.
use opencoda.Prelude.{
  ℕ, ◌≤◌, ◌≡◌, refl, ◌⊎◌, Option, none, some, List, [], ◌∷◌, Text, bytes, text_beq, Dict, lookup,
  insert,
}
use opencoda.Api.Cluster.{Pod}
use opencoda.Api.Sample.{endpoint, ready_pod}
use opencoda.Gateway.Router.{
  new_router, register_endpoint, pick_replica, in_flight, queue_depth, inc_queue, find_by_model,
  pick_endpoint_by_model, EndpointState, Router,
}
use opencoda.Gateway.Router
use opencoda.Gateway.Server.{Json, Outcome, nil_map, unsent}
use opencoda.Gateway.Threads.{
  advance, sync_router, Listing, start_gateway, Stage, Gateway, Reach, arrived, arrives, moves,
  syncs, start, later,
}
use opencoda.Gateway.Threads.Queue.{waiting, queue_depth-Reach}
use opencoda.Gateway.Threads.Listing.{last_listed, newest_urls, IsReadyAt, pick_replica-Reach}
use opencoda.Api.{CodaEndpoint, Float64}
use opencoda.Gateway.Sync.{ready_urls, Reads}

abbrev as_listed : Dict EndpointState → Dict EndpointState
as_listed m = m

abbrev json : Json
json = record {
  model_of = λ body. body;
  object_of = λ body. nil_map;
  encode_text = λ t. none;
  encode_object = λ o. none;
}

abbrev post : Text → Text → Outcome
post url body = unsent url

-- A synchronisation, a completion that comes in, and a move of it.
abbrev listing : Listing
listing = (endpoint (bytes "b") [] 1 4, ready_pod (bytes "p") (bytes "h") ∷ [])

abbrev moved : Stage → Gateway → Gateway
moved s g = record {
  router = (advance as_listed json post s g.router).0;
  requests = (advance as_listed json post s g.router).1 ∷ [];
}

abbrev synced : Gateway
synced = record start_gateway { router = sync_router listing.0 listing.1 start_gateway.router }

reach_listed : Reach (listing ∷ []) synced
reach_listed = later start (syncs listing.0 listing.1)

-- The completion has come in after the synchronisation, and is asked to pick.
abbrev come_in : Gateway
come_in = record synced { requests = arrived (bytes "b") ∷ [] }

reach_come_in : Reach (listing ∷ []) come_in
reach_come_in = later reach_listed (arrives (bytes "b"))

abbrev looked_up : Gateway
looked_up = moved (arrived (bytes "b")) come_in

reach_looked_up : Reach (listing ∷ []) looked_up
reach_looked_up = later reach_come_in (moves as_listed json post [] [] (arrived (bytes "b")) refl)

abbrev in_queue_now : Gateway
in_queue_now = moved (advance as_listed json post (arrived (bytes "b")) come_in.router).1 looked_up

reach_in_queue : Reach (listing ∷ []) in_queue_now
reach_in_queue = later reach_looked_up (
    moves as_listed json post [] []
      (advance as_listed json post (arrived (bytes "b")) come_in.router).1 refl)

queue_depth-Reach_example :
    Router.queue_depth (bytes "b") in_queue_now.router ≤ waiting (bytes "b") in_queue_now.requests
queue_depth-Reach_example = queue_depth-Reach reach_in_queue (bytes "b")

-- The depth is 1 then.
one_in_queue : Router.queue_depth (bytes "b") in_queue_now.router ≡ 1
unfolding Router.queue_depth advance inc_queue sync_router register_endpoint new_router ready_urls
    lookup pick_endpoint_by_model find_by_model insert text_beq
one_in_queue = refl

pick_replica-Reach_example :
    ((pods : List Pod) × (i : ℕ) × (last_listed (bytes "b") (listing ∷ []) ≡ some pods)
      × IsReadyAt pods i (pick_replica (bytes "b") in_queue_now.router).1)
    ⊎ (((pick_replica (bytes "b") in_queue_now.router).1 ≡ [])
        × (newest_urls (bytes "b") (listing ∷ []) ≡ []))
pick_replica-Reach_example = pick_replica-Reach reach_in_queue (bytes "b")

-- The same after one tick of the loop over that endpoint.
abbrev reads : Reads
reads = record { pods = some listing.1; page = λ ip. none; fresh = none; policies = none }

abbrev ticks : List (Option (List (Option (CodaEndpoint × Reads))))
ticks = some (some (listing.0, reads) ∷ []) ∷ none ∷ []

abbrev floats_as_listed : Dict Float64 → Dict Float64
floats_as_listed m = m

abbrev listed_b : EndpointState
listed_b = record {
  name = bytes "b";
  model_id = bytes "hf://m";
  replica_urls = ready_urls listing.1;
  in_flight = 0;
  queue_depth = 0;
  desired_replicas = 0;
}
