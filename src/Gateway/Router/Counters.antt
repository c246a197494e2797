-- ===== src/Gateway/Router/Counters.antt =====
-- The router of server.go against its specification: every endpoint is a pair of counters of its
-- own, which the calls on other names leave alone.
use opencoda.Prelude.{
  ℕ, ◌+◌, ◌-◌, ◌<◌, ◌≡◌, refl, ap, ◌∙◌, inl, inr, false, Option, none, some, List, [], ◌∷◌, arith,
  nat_beq, if◌then◌else◌, Bool-cases, Option-cases, length, Text, text_beq, text_beq_iff, lookup,
  lookup-insert,
}
use opencoda.Gateway.Router.{
  register_endpoint, register_by_model, pick_replica, in_flight, inc_queue, dec_queue,
  EndpointState, Router,
}

pub data Event : Type 0 where
  registers : Text → Text → List Text → Event
  registers_by_model : Text → EndpointState → Event
  picks queues leaves : Text → Event

-- What a call does to the router.
unfoldable pub step : Event → Router → Router
step (registers name model_id urls) r = register_endpoint name model_id urls r
step (registers_by_model model_id ep) r = register_by_model model_id ep r
step (picks name) r = (pick_replica name r).0
step (queues name) r = inc_queue name r
step (leaves name) r = dec_queue name r

unfoldable pub run : List Event → Router → Router
run [] r = r
run (e ∷ es) r = run es (step e r)

-- What it does to the endpoint `n` by the specification.
abbrev bump : Option EndpointState → Option EndpointState
bump none = none
bump (some ep) =
    if nat_beq (length ep.replica_urls) 0
    then some ep
    else some (record ep { in_flight = ep.in_flight + 1 })

abbrev deepen : Option EndpointState → Option EndpointState
deepen none = none
deepen (some ep) = some (record ep { queue_depth = ep.queue_depth + 1 })

abbrev drain : Option EndpointState → Option EndpointState
drain none = none
drain (some ep) = some (record ep { queue_depth = ep.queue_depth - 1 })

abbrev pub spec_step : Text → Event → Option EndpointState → Option EndpointState
spec_step n (registers name model_id urls) o =
    if text_beq name n
    then some (record {
      name = name;
      model_id = model_id;
      replica_urls = urls;
      in_flight = 0;
      queue_depth = 0;
      desired_replicas = 0;
    })
    else o
spec_step n (registers_by_model model_id ep) o = if text_beq ep.name n then some ep else o
spec_step n (picks name) o = if text_beq name n then bump o else o
spec_step n (queues name) o = if text_beq name n then deepen o else o
spec_step n (leaves name) o = if text_beq name n then drain o else o

abbrev pub spec_run : Text → List Event → Option EndpointState → Option EndpointState
spec_run n [] o = o
spec_run n (e ∷ es) o = spec_run n es (spec_step n e o)

pub lookup-step :
    (n : Text) (e : Event) (r : Router)
    → lookup n (step e r).endpoints ≡ spec_step n e (lookup n r.endpoints)
unfolding step register_endpoint register_by_model pick_replica inc_queue dec_queue
lookup-step n (registers name model_id urls) r = lookup-insert name n _ r.endpoints
lookup-step n (registers_by_model model_id ep) r = lookup-insert ep.name n ep r.endpoints
lookup-step n (picks name) r = elim (Option-cases (lookup name r.endpoints)) [
  | inl e ↦ rw (e, step, pick_replica) (ground (arith, e, text_beq_iff name n))
  | inr (ep, e) ↦
      rw (e, step, pick_replica)
        (ground (
          arith,
          e,
          text_beq_iff name n,
          lookup-insert name n (record ep { in_flight = ep.in_flight + 1 }) r.endpoints,
        ))
]
lookup-step n (queues name) r = elim (Option-cases (lookup name r.endpoints)) [
  | inl e ↦ rw (e, step, inc_queue) (ground (arith, e, text_beq_iff name n))
  | inr (ep, e) ↦
      rw (e, step, inc_queue)
        (ground (
          arith,
          e,
          text_beq_iff name n,
          lookup-insert name n (record ep { queue_depth = ep.queue_depth + 1 }) r.endpoints,
        ))
]
lookup-step n (leaves name) r = elim (Option-cases (lookup name r.endpoints)) [
  | inl e ↦ rw (e, step, dec_queue) (ground (arith, e, text_beq_iff name n))
  | inr (ep, e) ↦
      rw (e, step, dec_queue)
        (ground (
          arith,
          e,
          text_beq_iff name n,
          lookup-insert name n (record ep { queue_depth = ep.queue_depth - 1 }) r.endpoints,
        ))
]

-- Whatever calls are made that change the router, the state of each endpoint is what its specification says.
pub lookup-run :
    (n : Text) (es : List Event) (r : Router)
    → lookup n (run es r).endpoints ≡ spec_run n es (lookup n r.endpoints)
unfolding run
lookup-run n [] r = refl
lookup-run n (e ∷ es) r = lookup-run n es (step e r) ∙ ap (spec_run n es) (lookup-step n e r)

-- The picks of `n` in a list of calls.
abbrev pub picks_of : Text → List Event → ℕ
picks_of n [] = 0
picks_of n (picks name ∷ es) = (if text_beq name n then 1 else 0) + picks_of n es
picks_of n (_ ∷ es) = picks_of n es

-- No call of the list registers `n`.
abbrev pub Unregistered : Text → List Event → Type 0
Unregistered n [] = Unit
Unregistered n (registers name model_id urls ∷ es) = (text_beq name n ≡ false) × Unregistered n es
Unregistered n (registers_by_model model_id ep ∷ es) =
    (text_beq ep.name n ≡ false) × Unregistered n es
Unregistered n (_ ∷ es) = Unregistered n es

not_empty : (k : ℕ) → 0 < k → nat_beq k 0 ≡ false
not_empty k h = ground arith

spec_in_flight :
    (n : Text) (es : List Event) (ep : EndpointState)
    → Unregistered n es
    → 0 < length ep.replica_urls
    → (ep' : EndpointState) × (spec_run n es (some ep) ≡ some ep')
      × (ep'.in_flight ≡ ep.in_flight + picks_of n es)
spec_in_flight n [] ep u h = (ep, refl, omega arith)
spec_in_flight n (registers name model_id urls ∷ es) ep u h = rw u.0 (spec_in_flight n es ep u.1 h)
spec_in_flight n (registers_by_model model_id other ∷ es) ep u h =
    rw u.0 (spec_in_flight n es ep u.1 h)
spec_in_flight n (picks name ∷ es) ep u h = elim (Bool-cases (text_beq name n)) [
  | inl e ↦
      let (ep', runs, counts) =
        spec_in_flight n es (record ep { in_flight = ep.in_flight + 1 }) u h in
      rw (e, not_empty (length ep.replica_urls) h) (ep', runs, omega arith)
  | inr e ↦ rw e (let (ep', runs, counts) = spec_in_flight n es ep u h in (ep', runs, omega arith))
]
spec_in_flight n (queues name ∷ es) ep u h = elim (Bool-cases (text_beq name n)) [
  | inl e ↦ rw e (spec_in_flight n es (record ep { queue_depth = ep.queue_depth + 1 }) u h)
  | inr e ↦ rw e (spec_in_flight n es ep u h)
]
spec_in_flight n (leaves name ∷ es) ep u h = elim (Bool-cases (text_beq name n)) [
  | inl e ↦ rw e (spec_in_flight n es (record ep { queue_depth = ep.queue_depth - 1 }) u h)
  | inr e ↦ rw e (spec_in_flight n es ep u h)
]

-- While an endpoint with replicas is not registered again, the requests in flight that the router
-- counts for it are those at the start and one more for each pick: no call takes one off.
pub in_flight-run :
    (n : Text) (es : List Event) (r : Router) (ep : EndpointState)
    → lookup n r.endpoints ≡ some ep
    → 0 < length ep.replica_urls
    → Unregistered n es
    → in_flight n (run es r) ≡ in_flight n r + picks_of n es
unfolding in_flight
in_flight-run n es r ep e h u =
    let (ep', runs, counts) = spec_in_flight n es ep u h in
    rw (in_flight, lookup-run n es r, e, runs) counts
