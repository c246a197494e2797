-- ===== src/Gateway/Server.antt =====
-- The HTTP handlers of internal/gateway/server.go. A handler takes the router and returns it with
-- the reply. JSON, the HTTP client and the order of map iteration are arguments.
pub mod Requests
use opencoda.Prelude.{
  ℕ, Bool, false, not, ◌||◌, Option, none, some, List, [], ◌++◌, map, if◌then◌else◌, length, Text,
  bytes, text_beq, trim_prefix, Dict, insert,
}
use opencoda.Api.{Float64}
use opencoda.Gateway.Router.{
  Router, EndpointState, inc_queue, dec_queue, pick_replica, pick_endpoint_by_model,
}

pub record HttpRequest : Type 0 where
  pub path : Text
  pub authorization : Text
  pub body : Text

pub record HttpResponse : Type 0 where
  pub status : ℕ
  pub header : Dict (List Text)
  pub body : Text

-- What StudioEndpoints lists of an endpoint; `starting` is always 0 there.
pub record StudioEndpoint : Type 0 where
  pub name : Text
  pub ready : ℕ
  pub starting : ℕ
  pub kv_hit_rate : Float64
  pub model : Text

pub data Reply : Type 0 where
  -- 401, 404 for a model, 404 for a path, and 429 with Retry-After
  unauthorized model_not_found page_not_found no_replicas : Reply
  -- 500 and 502 with the error's text
  internal_error bad_gateway : Text → Reply
  proxied : HttpResponse → Reply
  plain : Text → Reply
  models : List Text → Reply
  studio : List StudioEndpoint → Reply
  -- the goroutine of the request panics
  panicked : Reply

-- json.Unmarshal into a map: an error, the nil map of a `null`, or the fields.
pub data Decoded : Type 0 where
  invalid nil_map : Decoded
  fields : Dict Text → Decoded

pub record Json : Type 0 where
  -- the field "model" of a body, empty if there is none
  pub model_of : Text → Text
  pub object_of : Text → Decoded
  pub encode_text : Text → Option Text
  pub encode_object : Dict Text → Option Text

-- What becomes of a POST: the request cannot be built, it cannot be sent, or it is answered.
pub data Outcome : Type 0 where
  unbuilt unsent : Text → Outcome
  answered : HttpResponse → Outcome

unfoldable pub serve_model_id : Text → Text
serve_model_id model = trim_prefix model (bytes "hf://")

-- `none` is the panic of a write to the nil map.
unfoldable pub rewrite_proxy_model_body : Json → Text → Text → Option Text
rewrite_proxy_model_body json body served_model = elim (json.object_of body) [
  | invalid ↦ some body
  | nil_map ↦ elim (json.encode_text served_model) [ none ↦ some body | some encoded ↦ none ]
  | fields payload ↦ elim (json.encode_text served_model) [
    | none ↦ some body
    | some encoded ↦ elim (json.encode_object (insert (bytes "model") encoded payload)) [
      | none ↦ some body
      | some out ↦ some out
    ]
  ]
]

abbrev answer : Outcome → Reply
answer (unbuilt e) = internal_error e
answer (unsent e) = bad_gateway e
answer (answered resp) = proxied resp

-- What is sent on to the replica at `url`, and what comes back.
unfoldable pub forward : Json → (Text → Text → Outcome) → Text → Text → Text → Reply
forward json post url body model =
    elim (rewrite_proxy_model_body json body (serve_model_id model)) [
      | none ↦ panicked
      | some proxy_body ↦ answer (post (url ++ bytes "/v1/chat/completions") proxy_body)
    ]

-- The deferred DecQueue runs last on every path.
unfoldable pub handle_chat_completions :
    (Dict EndpointState → Dict EndpointState)
    → Json
    → (Text → Text → Outcome)
    → Text
    → Router
    → Router × Reply
unfolding text_beq
handle_chat_completions visit json post body r =
    let model = json.model_of body in
    elim (pick_endpoint_by_model visit model r) [
      | none ↦ (r, model_not_found)
      | some ep ↦
          let queued = inc_queue ep.name r in
          let (picked, url) = pick_replica ep.name queued in
          (
            dec_queue ep.name picked,
            if text_beq url [] then no_replicas else forward json post url body model,
          )
    ]

unfoldable pub handle_models : (Dict EndpointState → Dict EndpointState) → Router → Reply
handle_models visit r = models (map (λ e. e.1.model_id) (visit r.endpoints))

-- `kv_hit_rate` is that of the K8sSync, or 0 where there is none.
unfoldable pub handle_studio_endpoints :
    (Dict EndpointState → Dict EndpointState) → (Text → Float64) → Router → Reply
handle_studio_endpoints visit kv_hit_rate r = studio (
    map
      (λ e. record {
        name = e.1.name;
        ready = length e.1.replica_urls;
        starting = 0;
        kv_hit_rate = kv_hit_rate e.1.name;
        model = e.1.model_id;
      })
      (visit r.endpoints))

unfoldable pub handle_metrics : Reply
handle_metrics = plain (bytes "# gateway metrics placeholder\n")

unfoldable pub handle_studio_logs : Reply
handle_studio_logs = plain (bytes "[studio] log line 0\n[studio] log line 1\n[studio] log line 2\n")

-- The routes of ListenAndServe.
unfoldable pub mux :
    (Dict EndpointState → Dict EndpointState)
    → Json
    → (Text → Text → Outcome)
    → (Text → Float64)
    → HttpRequest
    → Router
    → Router × Reply
mux visit json post kv_hit_rate req r =
    if text_beq req.path (bytes "/healthz")
    then (r, plain (bytes "ok"))
    else if text_beq req.path (bytes "/v1/models")
    then (r, handle_models visit r)
    else if text_beq req.path (bytes "/v1/chat/completions")
    then handle_chat_completions visit json post req.body r
    else if text_beq req.path (bytes "/metrics")
    then (r, handle_metrics)
    else if text_beq req.path (bytes "/v1/studio/endpoints")
    then (r, handle_studio_endpoints visit kv_hit_rate r)
    else if text_beq req.path (bytes "/v1/studio/logs/stream")
    then (r, handle_studio_logs)
    else (r, page_not_found)

-- TokenAuth.Middleware; `none` is an authenticator with no validator.
unfoldable pub middleware :
    Option (Text → Bool)
    → (HttpRequest → Router → Router × Reply)
    → HttpRequest
    → Router
    → Router × Reply
unfolding text_beq
middleware validator next req r =
    let valid : Bool = elim validator [
      | none ↦ false
      | some validate ↦ validate req.authorization
    ] in
    if text_beq req.path (bytes "/healthz")
    then next req r
    else if text_beq req.authorization [] || not valid
    then (r, unauthorized)
    else next req r
