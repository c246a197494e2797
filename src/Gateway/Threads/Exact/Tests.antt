-- ===== src/Gateway/Threads/Exact/Tests.antt =====
-- A completion that comes in after a synchronisation and looks for its endpoint.
use opencoda.Prelude.{◌≡◌, refl, none, [], ◌∷◌, Text, bytes, text_beq, Dict, lookup, insert}
use opencoda.Gateway.Router.{
  in_flight, queue_depth, inc_queue, find_by_model, pick_endpoint_by_model, EndpointState, Router,
}
use opencoda.Gateway.Router
use opencoda.Gateway.Server.{Json, Outcome, nil_map, unsent}
use opencoda.Gateway.Threads.{advance, Stage, Gateway, arrived}
use opencoda.Gateway.Threads.Exact.{queue_depth-Undisturbed, Undisturbed, unmoved, came, moved}
use opencoda.Gateway.Threads.Queue.{waiting}

abbrev in_order : Dict EndpointState → Dict EndpointState
in_order d = d

abbrev json : Json
json = record {
  model_of = λ body. body;
  object_of = λ body. nil_map;
  encode_text = λ t. none;
  encode_object = λ o. none;
}

abbrev post : Text → Text → Outcome
post url body = unsent url

abbrev ep : EndpointState
ep = record {
  name = bytes "b";
  model_id = bytes "m";
  replica_urls = bytes "u" ∷ [];
  in_flight = 0;
  queue_depth = 0;
  desired_replicas = 0;
}

abbrev synced : Gateway
synced = record { router = record { endpoints = (bytes "b", ep) ∷ [] }; requests = [] }

abbrev looked_up : Router × Stage
looked_up = advance in_order json post (arrived (bytes "m")) synced.router

abbrev waits : Router × Stage
waits = advance in_order json post looked_up.1 looked_up.0

run : Undisturbed synced (record { router = waits.0; requests = waits.1 ∷ [] })
run =
    moved (moved (came unmoved (bytes "m")) in_order json post [] [] (arrived (bytes "m")) refl)
      in_order json post [] [] looked_up.1 refl

queue_depth-Undisturbed_example :
    Router.queue_depth (bytes "b") waits.0 ≡ waiting (bytes "b") (waits.1 ∷ [])
unfolding lookup text_beq
queue_depth-Undisturbed_example = queue_depth-Undisturbed (bytes "b") ep run refl refl

-- The depth is 1 then.
one_waits : Router.queue_depth (bytes "b") waits.0 ≡ 1
unfolding Router.queue_depth advance pick_endpoint_by_model find_by_model inc_queue lookup insert
    text_beq
one_waits = refl
