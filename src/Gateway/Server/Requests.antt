-- ===== src/Gateway/Server/Requests.antt =====
-- What a request leaves behind in the router, and who may make one.
use opencoda.Prelude.{
  ◌≡◌, ◌∙◌, inl, inr, Option, none, some, List, [], ◌∷◌, arith, Option-cases, Text, Dict, lookup,
}
use opencoda.Api.{Float64, Time, CodaToken}
use opencoda.Results.{ok}
use opencoda.Gateway.Router.{Router, EndpointState, pick_endpoint_by_model}
use opencoda.Gateway.Router.Counters.{
  step, run, queues, picks, leaves, spec_step, spec_run, lookup-run, Event,
}
use opencoda.Gateway.Token.{validate}
use opencoda.Gateway.Server.{
  handle_chat_completions, mux, middleware, HttpRequest, Reply, Json, Outcome, model_not_found,
}

-- A call that queues, picks and leaves the queue is a pick.
spec_calls :
    (n name : Text) (o : Option EndpointState)
    → spec_run n (queues name ∷ picks name ∷ leaves name ∷ []) o ≡ spec_step n (picks name) o
spec_calls n name none = ground arith
spec_calls n name (some ep) = ground arith

module _ (visit : Dict EndpointState → Dict EndpointState) (json : Json)
    (post : Text → Text → Outcome) where
  -- The router's calls that a completion makes, by the endpoint that it finds.
  abbrev pub calls : Option EndpointState → List Event
  calls none = []
  calls (some ep) = queues ep.name ∷ picks ep.name ∷ leaves ep.name ∷ []

  handle-run :
      (body : Text) (r : Router)
      → (handle_chat_completions visit json post body r).0
        ≡ run (calls (pick_endpoint_by_model visit (json.model_of body) r)) r
  unfolding handle_chat_completions run step
  handle-run body r = elim (Option-cases (pick_endpoint_by_model visit (json.model_of body) r)) [
    | inl e ↦ rw (e, handle_chat_completions)
    | inr (ep, e) ↦ rw (e, handle_chat_completions)
  ]

  -- On every path, an endpoint is after the request what it was before but for one more request
  -- in flight, where it is the endpoint found for the model and has a replica.
  pub lookup-handle_chat_completions :
      (n body : Text) (r : Router) (ep : EndpointState)
      → pick_endpoint_by_model visit (json.model_of body) r ≡ some ep
      → lookup n (handle_chat_completions visit json post body r).0.endpoints
        ≡ spec_step n (picks ep.name) (lookup n r.endpoints)
  lookup-handle_chat_completions n body r ep e =
      rw (handle-run body r, e)
        (lookup-run n (calls (some ep)) r ∙ spec_calls n ep.name (lookup n r.endpoints))

  -- The same for a request that no endpoint is found for: it leaves the router as it was.
  pub handle_chat_completions_unknown :
      (body : Text) (r : Router)
      → pick_endpoint_by_model visit (json.model_of body) r ≡ none
      → handle_chat_completions visit json post body r ≡ (r, model_not_found)
  unfolding handle_chat_completions
  handle_chat_completions_unknown body r e = rw (e, handle_chat_completions)

  module _ (kv_hit_rate : Text → Float64) (hash_hex : Text → Text) (now : Time)
      (tokens : List CodaToken) where
    -- The server's handler, over the tokens that the cluster lists.
    abbrev pub serve : HttpRequest → Router → Router × Reply
    serve =
        middleware (some (λ auth. validate hash_hex now auth (ok tokens)))
          (mux visit json post kv_hit_rate)
