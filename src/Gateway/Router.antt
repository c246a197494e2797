-- ===== src/Gateway/Router.antt =====
-- The Router of internal/gateway/server.go. The mutex makes each method one step; the map holds
-- pointers to states that only these methods change, so it is a map of states here. Counters only
-- grow from zero, and are natural numbers.
pub mod Counters
pub mod RoundRobin
pub mod Since
use opencoda.Prelude.{
  ℕ, ◌+◌, ◌-◌, ◌%◌, ◌||◌, Option, none, some, List, [], ◌∷◌, ltb, nat_beq, if◌then◌else◌, length,
  get_elem?, Text, text_beq, Dict, lookup, insert,
}

pub record EndpointState : Type 0 where
  pub name : Text
  pub model_id : Text
  pub replica_urls : List Text
  pub in_flight : ℕ
  pub queue_depth : ℕ
  pub desired_replicas : ℕ

pub record Router : Type 0 where
  pub endpoints : Dict EndpointState

unfoldable pub new_router : Router
new_router = record { endpoints = [] }

unfoldable pub register_endpoint : Text → Text → List Text → Router → Router
register_endpoint name model_id urls r = record {
  endpoints =
      insert name
        (record {
          name = name;
          model_id = model_id;
          replica_urls = urls;
          in_flight = 0;
          queue_depth = 0;
          desired_replicas = 0;
        })
        r.endpoints;
}

unfoldable pub register_by_model : Text → EndpointState → Router → Router
register_by_model model_id ep r = record { endpoints = insert ep.name ep r.endpoints }

-- ep.ReplicaURLs[idx]; the index is in range where this is called.
abbrev pub url_at : List Text → ℕ → Text
url_at urls idx = elim (get_elem? urls idx) [ none ↦ [] | some u ↦ u ]

abbrev pick_from : Text → EndpointState → Router → Router × Text
pick_from endpoint_name ep r = if nat_beq (length ep.replica_urls) 0 then (r, []) else (
  record {
    endpoints = insert endpoint_name (record ep { in_flight = ep.in_flight + 1 }) r.endpoints;
  },
  url_at ep.replica_urls (ep.in_flight % length ep.replica_urls),
)

-- The empty text where no replica is ready.
unfoldable pub pick_replica : Text → Router → Router × Text
pick_replica endpoint_name r = elim (lookup endpoint_name r.endpoints) [
  | none ↦ (r, [])
  | some ep ↦ pick_from endpoint_name ep r
]

unfoldable pub in_flight : Text → Router → ℕ
in_flight endpoint_name r = elim (lookup endpoint_name r.endpoints) [
  | none ↦ 0
  | some ep ↦ ep.in_flight
]

unfoldable pub queue_depth : Text → Router → ℕ
queue_depth endpoint_name r = elim (lookup endpoint_name r.endpoints) [
  | none ↦ 0
  | some ep ↦ ep.queue_depth
]

unfoldable pub inc_queue : Text → Router → Router
inc_queue endpoint_name r = elim (lookup endpoint_name r.endpoints) [
  | none ↦ r
  | some ep ↦ record {
    endpoints = insert endpoint_name (record ep { queue_depth = ep.queue_depth + 1 }) r.endpoints;
  }
]

unfoldable pub dec_queue : Text → Router → Router
dec_queue endpoint_name r = elim (lookup endpoint_name r.endpoints) [
  | none ↦ r
  | some ep ↦
      if ltb 0 ep.queue_depth
      then record {
        endpoints =
            insert endpoint_name (record ep { queue_depth = ep.queue_depth - 1 }) r.endpoints;
      }
      else r
]

-- The range over the map meets its entries in the order `visited`.
unfoldable pub find_by_model : Text → Dict EndpointState → Option EndpointState
find_by_model model [] = none
find_by_model model ((k, ep) ∷ visited) =
    if text_beq ep.model_id model || text_beq ep.name model
    then some ep
    else find_by_model model visited

-- `visit` is the order in which the range meets the entries of the map.
unfoldable pub pick_endpoint_by_model :
    (Dict EndpointState → Dict EndpointState) → Text → Router → Option EndpointState
pick_endpoint_by_model visit model r = find_by_model model (visit r.endpoints)
