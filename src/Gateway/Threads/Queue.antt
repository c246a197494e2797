-- ===== src/Gateway/Threads/Queue.antt =====
-- The queue depth of an endpoint while requests and synchronisations come in any order.
use opencoda.Prelude.{
  ℕ, ◌+◌, ◌-◌, ◌≤◌, ◌≡◌, refl, ap, inl, inr, Bool, false, Option, none, some, List, ◌∷◌, arith,
  if◌then◌else◌, Option-cases, count, count-append, Text, text_beq, Dict, lookup,
}
use opencoda.Gateway.Router.{
  new_router, register_endpoint, pick_replica, queue_depth, inc_queue, dec_queue,
  pick_endpoint_by_model, EndpointState, Router,
}
use opencoda.Gateway.Router
use opencoda.Gateway.Router.Counters.{step, lookup-step, registers, picks, queues, leaves}
use opencoda.Gateway.Server.{Json, Outcome}
use opencoda.Gateway.Threads.{
  advance, sync_router, Listing, Stage, Gateway, Step, Reach, arrived, found, queued, picked,
  replied, done, arrives, moves, syncs, start, later,
}
use opencoda.Gateway.Sync.{ready_urls}

-- Between IncQueue and the deferred DecQueue of the endpoint `n`.
abbrev pub in_queue : Text → Stage → Bool
in_queue n (arrived body) = false
in_queue n (found name body) = false
in_queue n (queued name body) = text_beq name n
in_queue n (picked name body url) = text_beq name n
in_queue n (replied name reply) = text_beq name n
in_queue n (done reply) = false

-- The depth that an endpoint's state holds; 0 where there is none.
abbrev depth : Option EndpointState → ℕ
depth none = 0
depth (some ep) = ep.queue_depth

queue_depth_lem : (n : Text) (r : Router) → Router.queue_depth n r ≡ depth (lookup n r.endpoints)
unfolding Router.queue_depth
queue_depth_lem n r = elim (Option-cases (lookup n r.endpoints)) [
  | inl e ↦ rw (Router.queue_depth, e) refl
  | inr (ep, e) ↦ rw (Router.queue_depth, e) refl
]

abbrev pub weight : Bool → ℕ
weight b = if b then 1 else 0

-- What the calls on the router do to the depth.
queue_depth-inc_queue :
    (n name : Text) (r : Router)
    → Router.queue_depth n (inc_queue name r) ≤ Router.queue_depth n r + weight (text_beq name n)
unfolding step
queue_depth-inc_queue n name r =
    let depths = lookup-step n (queues name) r in
    rw (queue_depth_lem n (inc_queue name r), queue_depth_lem n r) (ground (arith, depths))

queue_depth-pick_replica :
    (n name : Text) (r : Router)
    → Router.queue_depth n (pick_replica name r).0 ≡ Router.queue_depth n r
unfolding step
queue_depth-pick_replica n name r =
    let depths = lookup-step n (picks name) r in
    rw (queue_depth_lem n (pick_replica name r).0, queue_depth_lem n r) (ground (arith, depths))

queue_depth-dec_queue :
    (n name : Text) (r : Router)
    → Router.queue_depth n (dec_queue name r) ≡ Router.queue_depth n r - weight (text_beq name n)
unfolding step
queue_depth-dec_queue n name r =
    let depths = lookup-step n (leaves name) r in
    rw (queue_depth_lem n (dec_queue name r), queue_depth_lem n r) (ground (arith, depths))

queue_depth-register_endpoint :
    (n name model_id : Text) (urls : List Text) (r : Router)
    → Router.queue_depth n (register_endpoint name model_id urls r) ≤ Router.queue_depth n r
unfolding step
queue_depth-register_endpoint n name model_id urls r =
    let depths = lookup-step n (registers name model_id urls) r in
    rw (queue_depth_lem n (register_endpoint name model_id urls r), queue_depth_lem n r)
      (ground (arith, depths))

-- A move of one request, where `c` of the others are in the queue.
queue_depth-advance :
    (n : Text) (visit : Dict EndpointState → Dict EndpointState) (json : Json)
    (post : Text → Text → Outcome) (s : Stage) (r : Router) (c : ℕ)
    → Router.queue_depth n r ≤ c + weight (in_queue n s)
    → Router.queue_depth n (advance visit json post s r).0
      ≤ c + weight (in_queue n (advance visit json post s r).1)
unfolding advance
queue_depth-advance n visit json post (arrived body) r c h =
    elim (Option-cases (pick_endpoint_by_model visit (json.model_of body) r)) [
      | inl e ↦ rw (in_queue, advance, e) (omega arith)
      | inr (ep, e) ↦ rw (in_queue, advance, e) (omega arith)
    ]
queue_depth-advance n visit json post (found name body) r c h =
    omega (arith, queue_depth-inc_queue n name r)
queue_depth-advance n visit json post (queued name body) r c h =
    omega (arith, queue_depth-pick_replica n name r)
queue_depth-advance n visit json post (picked name body url) r c h = h
queue_depth-advance n visit json post (replied name reply) r c h =
    omega (arith, queue_depth-dec_queue n name r)
queue_depth-advance n visit json post (done reply) r c h = h

-- The requests in the queue of `n`.
abbrev pub waiting : Text → List Stage → ℕ
waiting n = count (in_queue n)

queue_depth-Step :
    (n : Text) {h h' : List Listing} {g g' : Gateway}
    → Step h g h' g'
    → Router.queue_depth n g.router ≤ waiting n g.requests
    → Router.queue_depth n g'.router ≤ waiting n g'.requests
unfolding sync_router
queue_depth-Step n (arrives body) below = omega arith
queue_depth-Step n {g} (moves visit json post before after s e) below =
    let all = count-append (in_queue n) before (s ∷ after) in
    let moved =
      queue_depth-advance n visit json post s g.router (waiting n before + waiting n after)
        (omega (arith, below, all, ap (waiting n) e)) in
    omega (
      arith,
      moved,
      count-append (in_queue n) before ((advance visit json post s g.router).1 ∷ after),
    )
queue_depth-Step n {g} (syncs ep pods) below = omega (
  arith,
  queue_depth-register_endpoint n ep.metadata.name ep.spec.model.source (ready_urls pods) g.router,
)

-- However requests and synchronisations come in between one another, the queue depth of an
-- endpoint does not pass the number of the requests that are between IncQueue and DecQueue of it.
pub queue_depth-Reach :
    {h : List Listing} {g : Gateway}
    → Reach h g
    → (n : Text) → Router.queue_depth n g.router ≤ waiting n g.requests
unfolding new_router Router.queue_depth lookup
queue_depth-Reach start n = omega arith
queue_depth-Reach (later reach next) n = queue_depth-Step n next (queue_depth-Reach reach n)
