-- ===== src/Gateway/Threads/Exact.antt =====
-- The queue depth of an endpoint from one synchronisation to the next.
mod Tests
use opencoda.Prelude.{
  ℕ, ◌+◌, ◌-◌, ◌≡◌, refl, ap, ◌∙◌, inl, inr, some, List, ◌∷◌, ◌++◌, arith, nat_beq, Bool-cases,
  Option-cases, length, count-append, Text, text_beq, Dict, lookup,
}
use opencoda.Gateway.Router.{
  pick_replica, in_flight, queue_depth, inc_queue, dec_queue, pick_endpoint_by_model, EndpointState,
  Router,
}
use opencoda.Gateway.Router
use opencoda.Gateway.Router.Counters.{
  step, run, spec_step, lookup-step, Event, picks, queues, leaves,
}
use opencoda.Gateway.Server.{Json, Outcome}
use opencoda.Gateway.Threads.{
  Stage, arrived, found, queued, picked, replied, done, advance, Gateway, Listing, arrives, moves,
  Reach, later,
}
use opencoda.Gateway.Threads.Queue.{in_queue, waiting, weight}

-- Completions that come in and move, with no synchronisation between.
pub data Undisturbed (g : Gateway) : Gateway → Type 0 where
  unmoved : Undisturbed g g
  came :
      {g' : Gateway}
      → Undisturbed g g'
      → (body : Text) → Undisturbed g (record g' { requests = arrived body ∷ g'.requests })
  moved :
      {g' : Gateway}
      → Undisturbed g g'
      → (visit : Dict EndpointState → Dict EndpointState) (json : Json)
        (post : Text → Text → Outcome) (before after : List Stage) (s : Stage)
      → g'.requests ≡ before ++ (s ∷ after)
      → Undisturbed g (record {
        router = (advance visit json post s g'.router).0;
        requests = before ++ ((advance visit json post s g'.router).1 ∷ after);
      })

-- They are steps of the gateway.
pub Undisturbed-Reach :
    {h : List Listing} {g g' : Gateway} → Reach h g → Undisturbed g g' → Reach h g'
Undisturbed-Reach reach unmoved = reach
Undisturbed-Reach reach (came before_it body) =
    later (Undisturbed-Reach reach before_it) (arrives body)
Undisturbed-Reach reach (moved before_it visit json post before after s e) =
    later (Undisturbed-Reach reach before_it) (moves visit json post before after s e)

-- The router has an endpoint of that name, and the depth that it holds is `q`.
abbrev Holds : Text → Router → ℕ → Type 0
Holds n r q = (ep : EndpointState) × (lookup n r.endpoints ≡ some ep) × (ep.queue_depth ≡ q)

Holds-same : (n : Text) (r : Router) {q q' : ℕ} → q ≡ q' → Holds n r q → Holds n r q'
Holds-same n r e (ep, held, d) = (ep, held, d ∙ e)

Holds-step :
    (n : Text) (e : Event) (r : Router) (ep ep' : EndpointState) (q : ℕ)
    → lookup n r.endpoints ≡ some ep
    → spec_step n e (some ep) ≡ some ep'
    → ep'.queue_depth ≡ q
    → Holds n (step e r) q
Holds-step n e r ep ep' q held becomes d =
    (ep', lookup-step n e r ∙ ap (spec_step n e) held ∙ becomes, d)

Holds-inc_queue :
    (n name : Text) (r : Router) (q : ℕ)
    → Holds n r q
    → Holds n (inc_queue name r) (q + weight (text_beq name n))
unfolding step
Holds-inc_queue n name r q (ep, e, d) = elim (Bool-cases (text_beq name n)) [
  | inl same ↦ rw same (
      Holds-step n (queues name) r ep (record ep { queue_depth = ep.queue_depth + 1 }) (q + 1) e
        (rw same refl) (omega (arith, d)))
  | inr other ↦
      rw other (Holds-step n (queues name) r ep ep (q + 0) e (rw other refl) (omega (arith, d)))
]

Holds-pick_replica :
    (n name : Text) (r : Router) (q : ℕ) → Holds n r q → Holds n (pick_replica name r).0 q
unfolding step
Holds-pick_replica n name r q (ep, e, d) = elim (Bool-cases (text_beq name n)) [
  | inl same ↦ elim (Bool-cases (nat_beq (length ep.replica_urls) 0)) [
    | inl empty ↦ Holds-step n (picks name) r ep ep q e (rw (same, empty) refl) d
    | inr more ↦
        Holds-step n (picks name) r ep (record ep { in_flight = ep.in_flight + 1 }) q e
          (rw (same, more) refl) d
  ]
  | inr other ↦ Holds-step n (picks name) r ep ep q e (rw other refl) d
]

Holds-dec_queue :
    (n name : Text) (r : Router) (q : ℕ)
    → Holds n r q
    → Holds n (dec_queue name r) (q - weight (text_beq name n))
unfolding step
Holds-dec_queue n name r q (ep, e, d) = elim (Bool-cases (text_beq name n)) [
  | inl same ↦ rw same (
      Holds-step n (leaves name) r ep (record ep { queue_depth = ep.queue_depth - 1 }) (q - 1) e
        (rw same refl) (omega (arith, d)))
  | inr other ↦
      rw other (Holds-step n (leaves name) r ep ep (q - 0) e (rw other refl) (omega (arith, d)))
]

-- A move where `c` of the other completions are in the queue.
Holds-advance :
    (n : Text) (visit : Dict EndpointState → Dict EndpointState) (json : Json)
    (post : Text → Text → Outcome) (s : Stage) (r : Router) (c : ℕ)
    → Holds n r (c + weight (in_queue n s))
    → Holds n
        (advance visit json post s r).0
        (c + weight (in_queue n (advance visit json post s r).1))
unfolding advance
Holds-advance n visit json post (arrived body) r c h =
    elim (Option-cases (pick_endpoint_by_model visit (json.model_of body) r)) [
      | inl e ↦ rw (in_queue, advance, e) h
      | inr (ep, e) ↦ rw (in_queue, advance, e) h
    ]
Holds-advance n visit json post (found name body) r c h =
    Holds-same n _ (omega arith) (Holds-inc_queue n name r _ h)
Holds-advance n visit json post (queued name body) r c h = Holds-pick_replica n name r _ h
Holds-advance n visit json post (picked name body url) r c h = h
Holds-advance n visit json post (replied name reply) r c h =
    Holds-same n _ (omega arith) (Holds-dec_queue n name r _ h)
Holds-advance n visit json post (done reply) r c h = h

Holds-Undisturbed :
    {g g' : Gateway} (n : Text)
    → Undisturbed g g'
    → Holds n g.router (waiting n g.requests)
    → Holds n g'.router (waiting n g'.requests)
Holds-Undisturbed n unmoved h = h
Holds-Undisturbed n (came {g'} before_it body) h =
    Holds-same n g'.router (omega arith) (Holds-Undisturbed n before_it h)
Holds-Undisturbed n (moved {g'} before_it visit json post before after s e) h =
    let earlier = Holds-Undisturbed n before_it h in
    let all = count-append (in_queue n) before (s ∷ after) in
    let then_all =
      count-append (in_queue n) before ((advance visit json post s g'.router).1 ∷ after) in
    Holds-same n (advance visit json post s g'.router).0 (omega (arith, then_all)) (
      Holds-advance n visit json post s g'.router (waiting n before + waiting n after)
        (Holds-same n g'.router (omega (arith, all, ap (waiting n) e)) earlier))

-- From one synchronisation to the next, however completions come in between one another: an endpoint
-- that the router has, and of which the queue depth is the number of the completions between
-- IncQueue and DecQueue, keeps that depth so.
pub queue_depth-Undisturbed :
    {g g' : Gateway} (n : Text) (ep : EndpointState)
    → Undisturbed g g'
    → lookup n g.router.endpoints ≡ some ep
    → ep.queue_depth ≡ waiting n g.requests
    → Router.queue_depth n g'.router ≡ waiting n g'.requests
unfolding Router.queue_depth
queue_depth-Undisturbed {g' = g'} n ep run held exact =
    let (ep', e, d) = Holds-Undisturbed n run (ep, held, exact) in rw (Router.queue_depth, e) d
