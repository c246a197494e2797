-- ===== src/Gateway/Tests.antt =====
-- Runs of the gateway's operations on a small router, token list and endpoint.
use opencoda.Prelude.{
  ◌+◌, ◌≡◌, refl, none, some, List, [], ◌∷◌, arith, pos, Text, bytes, text_beq, decimal_ℕ, decimal,
  Dict, lookup,
}
use opencoda.Api.{Float64, CodaToken}
use opencoda.Api.Sample.{meta, endpoint, ready_pod}
use opencoda.Results.{Result, ok}
use opencoda.Floats.Sample.{sample}
use opencoda.Gateway.Router.{
  new_router, register_endpoint, register_by_model, url_at, inc_queue, dec_queue, find_by_model,
  pick_endpoint_by_model, EndpointState, Router,
}
use opencoda.Gateway.Router
use opencoda.Gateway.Router.Counters.{
  run, spec_step, spec_run, lookup-run, picks_of, in_flight-run, Event, registers_by_model, picks,
  queues, leaves,
}
use opencoda.Gateway.Autoscaler.{desired_for, Autoscaler}
use opencoda.Gateway.Token.{create_token}
use opencoda.Gateway.Sync.{ready_urls, sync_endpoint_amid, K8sSync, Reads}
use opencoda.Gateway.Sync.Load.{asked, asked-sync_endpoint_amid}
use opencoda.Gateway.Server.{handle_chat_completions, HttpRequest, Json, Outcome, nil_map, unsent}
use opencoda.Gateway.Server.Requests.{lookup-handle_chat_completions}

abbrev two_urls : EndpointState
two_urls = record {
  name = bytes "a";
  model_id = bytes "m";
  replica_urls = bytes "u1" ∷ bytes "u2" ∷ [];
  in_flight = 0;
  queue_depth = 0;
  desired_replicas = 0;
}

abbrev router : Router
router = record { endpoints = (bytes "a", two_urls) ∷ [] }

-- Another endpoint with the replicas of the first.
abbrev another : EndpointState
another = record two_urls { name = bytes "b" }

abbrev calls_made : List Event
calls_made =
    queues (bytes "a")
    ∷ picks (bytes "a")
    ∷ registers_by_model (bytes "m") another
    ∷ leaves (bytes "a")
    ∷ picks (bytes "a")
    ∷ []

lookup-run_example :
    lookup (bytes "a") (run calls_made router).endpoints
    ≡ spec_run (bytes "a") calls_made (some two_urls)
unfolding lookup text_beq
lookup-run_example = lookup-run (bytes "a") calls_made router

in_flight-run_example :
    Router.in_flight (bytes "a") (run calls_made router)
    ≡ Router.in_flight (bytes "a") router + picks_of (bytes "a") calls_made
unfolding lookup text_beq
in_flight-run_example =
    in_flight-run (bytes "a") calls_made router two_urls refl (omega arith) (refl, tt)

abbrev autoscaler : Autoscaler
autoscaler = record { ewma = [] }

abbrev digest : Text → Text
digest s = b'#' ∷ s

abbrev accepts : CodaToken → Result (Unit {0})
accepts t = ok tt

abbrev other_token : CodaToken
other_token = record {
  metadata = meta (bytes "other");
  spec = record { token_id = bytes "other"; secret_hash = []; expires_at = some (pos 5) };
  status = record { conditions = [] };
}

created_pair : create_token digest accepts (bytes "ns") (bytes "me") 7 ≡ ok (bytes "me:me-7")
unfolding create_token decimal_ℕ
created_pair = refl

abbrev my_token : CodaToken
my_token = record {
  metadata = meta (bytes "me");
  spec = record { token_id = bytes "me"; secret_hash = bytes "#s"; expires_at = some (pos 9) };
  status = record { conditions = [] };
}

abbrev request : HttpRequest
request = record { path = bytes "/v1/models"; authorization = bytes "Bearer me:s"; body = [] }

abbrev json : Json
json = record {
  model_of = λ b. b;
  object_of = λ b. nil_map;
  encode_text = λ t. some t;
  encode_object = λ fields. none;
}

abbrev in_order : Dict EndpointState → Dict EndpointState
in_order d = d

abbrev post : Text → Text → Outcome
post url body = unsent (bytes "no route")

found_a : pick_endpoint_by_model in_order (bytes "m") router ≡ some two_urls
unfolding pick_endpoint_by_model find_by_model text_beq
found_a = refl

lookup-handle_chat_completions_example :
    lookup (bytes "a") (handle_chat_completions in_order json post (bytes "m") router).0.endpoints
    ≡ spec_step (bytes "a") (picks (bytes "a")) (some two_urls)
unfolding lookup text_beq
lookup-handle_chat_completions_example =
    lookup-handle_chat_completions in_order json post (bytes "a") (bytes "m") router two_urls
      found_a

abbrev sync : K8sSync
sync = record { router = router; autoscaler = autoscaler; kv_hits = [] }

abbrev reads : Reads
reads = record {
  pods = some (ready_pod (bytes "p") (bytes "h") ∷ []);
  page = λ ip. none;
  fresh = none;
  policies = none;
}

abbrev visit_floats : Dict Float64 → Dict Float64
visit_floats d = d

-- Two completions come in and one of them has its replica when the endpoint `b` has just been
-- registered; a third comes in and one leaves before the queue is read.
abbrev amid : List Event
amid = queues (bytes "b") ∷ queues (bytes "b") ∷ picks (bytes "b") ∷ []

abbrev then_on : List Event
then_on = queues (bytes "b") ∷ leaves (bytes "b") ∷ []

asked-sync_endpoint_amid_example :
    asked
      (sync_endpoint_amid sample visit_floats
        (run amid)
        (run then_on)
        (endpoint (bytes "b") [] 1 4)
        reads
        sync).1
    ≡ some (decimal (desired_for (endpoint (bytes "b") [] 1 4) 3)) ∷ []
unfolding ready_urls text_beq
asked-sync_endpoint_amid_example =
    asked-sync_endpoint_amid sample visit_floats (endpoint (bytes "b") [] 1 4) reads sync
      (ready_pod (bytes "p") (bytes "h") ∷ []) amid then_on refl tt tt
