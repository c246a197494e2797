-- ===== src/Gateway/Threads/Listing.antt =====
-- Where completions go, by the listings of pods that the synchronisations have made.
use opencoda.Prelude.{
  ℕ, zero, suc, ◌%◌, ◌≡◌, refl, sym, ap, ◌∙◌, ◌≢◌, ◌⊎◌, inl, inr, Bool, true, false, Option, none,
  some, List, [], ◌∷◌, arith, nat_beq, if◌then◌else◌, Bool-cases, Option-cases, length, get_elem?,
  get_elem?-total, Text, text_beq, text_beq_iff, Dict, lookup,
}
use opencoda.Api.Cluster.{Pod, pod_ready}
use opencoda.Gateway.Router.{new_router, pick_replica, EndpointState, Router}
use opencoda.Gateway.Router.Counters.{
  step, spec_step, lookup-step, Event, registers, registers_by_model, picks, queues, leaves,
}
use opencoda.Gateway.Server.{Json, Outcome}
use opencoda.Gateway.Threads.{
  advance, sync_router, Listing, Stage, Gateway, Reach, arrived, found, queued, picked, replied,
  done, arrives, moves, syncs, start, later,
}
use opencoda.Gateway.Sync.{ready_urls, url_of}

-- The pods of the newest listing of an endpoint of the name `n`, in whatever namespace.
abbrev pub last_listed : Text → List Listing → Option (List Pod)
last_listed n [] = none
last_listed n ((ep, pods) ∷ h) =
    let before = last_listed n h in if text_beq ep.metadata.name n then some pods else before

-- The URLs of an endpoint, where there is one.
abbrev urls_of : Option EndpointState → Option (List Text)
urls_of none = none
urls_of (some ep) = some ep.replica_urls

abbrev listed_urls : Option (List Pod) → Option (List Text)
listed_urls none = none
listed_urls (some pods) = some (ready_urls pods)

-- No call but a registration touches the URLs.
urls_of-spec_step :
    (n : Text) (e : Event) (o : Option EndpointState)
    → urls_of (spec_step n e o) ≡ elim e [
      | registers name model_id urls ↦ if text_beq name n then some urls else urls_of o
      | registers_by_model model_id ep ↦
          if text_beq ep.name n then some ep.replica_urls else urls_of o
      | picks name ↦ urls_of o
      | queues name ↦ urls_of o
      | leaves name ↦ urls_of o
    ]
urls_of-spec_step n (registers name model_id urls) o = ground arith
urls_of-spec_step n (registers_by_model model_id ep) o = ground arith
urls_of-spec_step n (picks name) none = ground arith
urls_of-spec_step n (picks name) (some ep) = ground arith
urls_of-spec_step n (queues name) none = ground arith
urls_of-spec_step n (queues name) (some ep) = ground arith
urls_of-spec_step n (leaves name) none = ground arith
urls_of-spec_step n (leaves name) (some ep) = ground arith

urls_of-step :
    (n : Text) (e : Event) (r : Router)
    → urls_of (lookup n (step e r).endpoints) ≡ elim e [
      | registers name model_id urls ↦
          if text_beq name n then some urls else urls_of (lookup n r.endpoints)
      | registers_by_model model_id ep ↦
          if text_beq ep.name n then some ep.replica_urls else urls_of (lookup n r.endpoints)
      | picks name ↦ urls_of (lookup n r.endpoints)
      | queues name ↦ urls_of (lookup n r.endpoints)
      | leaves name ↦ urls_of (lookup n r.endpoints)
    ]
urls_of-step n e r = ap urls_of (lookup-step n e r) ∙ urls_of-spec_step n e (lookup n r.endpoints)

urls_of-advance :
    (n : Text) (visit : Dict EndpointState → Dict EndpointState) (json : Json)
    (post : Text → Text → Outcome) (s : Stage) (r : Router)
    → urls_of (lookup n (advance visit json post s r).0.endpoints) ≡ urls_of (lookup n r.endpoints)
unfolding advance step
urls_of-advance n visit json post (arrived body) r = refl
urls_of-advance n visit json post (found name body) r = urls_of-step n (queues name) r
urls_of-advance n visit json post (queued name body) r = urls_of-step n (picks name) r
urls_of-advance n visit json post (picked name body url) r = refl
urls_of-advance n visit json post (replied name reply) r = urls_of-step n (leaves name) r
urls_of-advance n visit json post (done reply) r = refl

listed_next :
    (newer : Bool) (pods : List Pod) (before : Option (List Pod)) {o : Option (List Text)}
    → o ≡ listed_urls before
    → (if newer then some (ready_urls pods) else o)
      ≡ listed_urls (if newer then some pods else before)
listed_next true pods before e = refl
listed_next false pods before e = e

urls_of-Reach :
    {h : List Listing} {g : Gateway}
    → Reach h g
    → (n : Text) → urls_of (lookup n g.router.endpoints) ≡ listed_urls (last_listed n h)
unfolding new_router lookup sync_router step
urls_of-Reach start n = refl
urls_of-Reach (later reach (arrives body)) n = urls_of-Reach reach n
urls_of-Reach (later {g} reach (moves visit json post before after s e)) n =
    urls_of-advance n visit json post s g.router ∙ urls_of-Reach reach n
urls_of-Reach (later {h} {g} reach (syncs ep pods)) n =
    urls_of-step n (registers ep.metadata.name ep.spec.model.source (ready_urls pods)) g.router
    ∙ listed_next (text_beq ep.metadata.name n) pods (last_listed n h) (urls_of-Reach reach n)

-- The pod at the place `i` of a listing is ready, has an address, and `url` is the URL of it.
abbrev pub IsReadyAt : List Pod → ℕ → Text → Type 0
IsReadyAt pods i url =
    (p : Pod) × (get_elem? pods i ≡ some p)
    × (pod_ready p.conditions ≡ true)
    × (p.pod_ip ≢ [])
    × (url ≡ url_of p.pod_ip)

some_inj : {A : Type 0} {x y : A} → some x ≡ some y → x ≡ y
some_inj e = ground (arith, e)

-- An element of the URLs with one pod more is that pod's, or one of the others.
ready_or_later :
    (rest : List Text) (u : Text) (no_ip ready : Bool) (k : ℕ) (url : Text)
    → get_elem? (if no_ip then rest else if ready then u ∷ rest else rest) k ≡ some url
    → ((no_ip ≡ false) × (ready ≡ true) × (u ≡ url)) ⊎ ((j : ℕ) × (get_elem? rest j ≡ some url))
ready_or_later rest u true ready k url e = inr (k, e)
ready_or_later rest u false false k url e = inr (k, e)
ready_or_later rest u false true zero url e = inl (refl, refl, some_inj e)
ready_or_later rest u false true (suc k) url e = inr (k, e)

ready_urls-IsReadyAt :
    (pods : List Pod) (k : ℕ) (url : Text)
    → get_elem? (ready_urls pods) k ≡ some url
    → (i : ℕ) × IsReadyAt pods i url
unfolding ready_urls
ready_urls-IsReadyAt [] k url e = absurd (ground (arith, e))
ready_urls-IsReadyAt (p ∷ ps) k url e =
    elim (ready_or_later (ready_urls ps) (url_of p.pod_ip) (text_beq p.pod_ip [])
      (pod_ready p.conditions) k url e) [
        | inl (no_ip, ready, same) ↦
            (0, (p, refl, ready, ground (arith, no_ip, text_beq_iff p.pod_ip []), sym same))
        | inr (j, later_on) ↦
            let (i, found_later) = ready_urls-IsReadyAt ps j url later_on in (suc i, found_later)
      ]

no_elements : (urls : List Text) → nat_beq (length urls) 0 ≡ true → urls ≡ []
no_elements [] e = refl
no_elements (u ∷ us) e = absurd (ground (arith, e))

picked_among :
    (n : Text) (ep : EndpointState) (r : Router)
    → lookup n r.endpoints ≡ some ep
    → (((pick_replica n r).1 ≡ []) × (ep.replica_urls ≡ []))
      ⊎ ((k : ℕ) × (get_elem? ep.replica_urls k ≡ some (pick_replica n r).1))
unfolding pick_replica
picked_among n ep r held = elim (Bool-cases (nat_beq (length ep.replica_urls) 0)) [
  | inl empty ↦ inl (ground (arith, held, empty), no_elements ep.replica_urls empty)
  | inr more ↦
      let (url, at_place) =
        get_elem?-total ep.replica_urls (ep.in_flight % length ep.replica_urls)
          (grind (arith, more)) in
      inr (ep.in_flight % length ep.replica_urls, ground (arith, held, more, at_place))
]

-- What is picked, by the URLs of the endpoint.
pick_replica-urls :
    (n : Text) (r : Router) (urls : List Text)
    → urls_of (lookup n r.endpoints) ≡ some urls
    → (((pick_replica n r).1 ≡ []) × (urls ≡ []))
      ⊎ ((k : ℕ) × (get_elem? urls k ≡ some (pick_replica n r).1))
unfolding pick_replica
pick_replica-urls n r urls e = elim (Option-cases (lookup n r.endpoints)) [
  | inl missing ↦ absurd (ground (arith, missing, e))
  | inr (ep, held) ↦
      let same : ep.replica_urls ≡ urls = some_inj (ap urls_of (sym held) ∙ e) in
      rw (← same) (picked_among n ep r held)
]

pick_replica-missing :
    (n : Text) (r : Router) → urls_of (lookup n r.endpoints) ≡ none → (pick_replica n r).1 ≡ []
unfolding pick_replica
pick_replica-missing n r e = elim (Option-cases (lookup n r.endpoints)) [
  | inl missing ↦ rw (missing, pick_replica) refl
  | inr (ep, held) ↦ absurd (ground (arith, held, e))
]

-- The URLs of the ready pods of the newest listing; none where there is no listing.
abbrev pub newest_urls : Text → List Listing → List Text
newest_urls n h = elim (last_listed n h) [ none ↦ [] | some pods ↦ ready_urls pods ]

-- Whatever has come in between, the replica that is picked for an endpoint is a pod of the newest
-- listing of it that was ready and had an address; or there is none to pick, and then there is no
-- listing of it or no such pod in the newest one.
pub pick_replica-Reach :
    {h : List Listing} {g : Gateway}
    → Reach h g
    → (n : Text)
    → ((pods : List Pod) × (i : ℕ) × (last_listed n h ≡ some pods)
        × IsReadyAt pods i (pick_replica n g.router).1)
      ⊎ (((pick_replica n g.router).1 ≡ []) × (newest_urls n h ≡ []))
pick_replica-Reach {h} {g} reach n = elim (Option-cases (last_listed n h)) [
  | inl never ↦ inr (
    pick_replica-missing n g.router (urls_of-Reach reach n ∙ ap listed_urls never),
    rw (never, newest_urls) refl,
  )
  | inr (pods, newest) ↦
      elim (pick_replica-urls n g.router (ready_urls pods)
        (urls_of-Reach reach n ∙ ap listed_urls newest)) [
          | inl (nothing, empty) ↦ inr (nothing, rw (newest, newest_urls) empty)
          | inr (k, at_k) ↦
              let (i, is_ready) = ready_urls-IsReadyAt pods k (pick_replica n g.router).1 at_k in
              inl (pods, i, newest, is_ready)
        ]
]
