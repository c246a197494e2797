-- ===== src/Gateway/Router/Since.antt =====
-- The counters of an endpoint of server.go after some calls that do not register it.
use opencoda.Prelude.{
  ℕ, ◌+◌, ◌-◌, ◌≡◌, refl, ap, ◌∙◌, inl, inr, some, List, [], ◌∷◌, ◌++◌, arith, nat_beq,
  if◌then◌else◌, Bool-cases, length, Text, text_beq,
}
use opencoda.Gateway.Router.{EndpointState}
use opencoda.Gateway.Router.Counters.{
  Event, registers, registers_by_model, picks, queues, leaves, spec_step, spec_run, picks_of,
  Unregistered,
}

-- What a depth of the queue of `n` is after some calls.
abbrev pub waiting : Text → List Event → ℕ → ℕ
waiting n [] d = d
waiting n (queues name ∷ es) d = waiting n es (if text_beq name n then d + 1 else d)
waiting n (leaves name ∷ es) d = waiting n es (if text_beq name n then d - 1 else d)
waiting n (_ ∷ es) d = waiting n es d

-- What the requests in flight to some replicas are after some calls: picks count where there is one.
abbrev pub flying : Text → List Text → List Event → ℕ → ℕ
flying n urls es f = if nat_beq (length urls) 0 then f else f + picks_of n es

-- The state of an endpoint after some calls.
pub record Went (n : Text) (es : List Event) (ep : EndpointState) : Type 0 where
  pub state : EndpointState
  pub runs : spec_run n es (some ep) ≡ some state
  pub urls : state.replica_urls ≡ ep.replica_urls
  pub flight : state.in_flight ≡ flying n ep.replica_urls es ep.in_flight
  pub depth : state.queue_depth ≡ waiting n es ep.queue_depth

-- A first call that leaves the state `next`.
Went-cons :
    {n : Text} {es : List Event} {ep next : EndpointState} (e : Event)
    → spec_step n e (some ep) ≡ some next
    → next.replica_urls ≡ ep.replica_urls
    → flying n next.replica_urls es next.in_flight ≡ flying n ep.replica_urls (e ∷ es) ep.in_flight
    → waiting n es next.queue_depth ≡ waiting n (e ∷ es) ep.queue_depth
    → Went n es next
    → Went n (e ∷ es) ep
Went-cons {n} {es} e becomes urls flight depth went = record {
  state = went.state;
  runs = ap (spec_run n es) becomes ∙ went.runs;
  urls = went.urls ∙ urls;
  flight = went.flight ∙ flight;
  depth = went.depth ∙ depth;
}

-- Any calls but registrations of `n`.
pub spec_run-Went :
    (n : Text) (es : List Event) (ep : EndpointState) → Unregistered n es → Went n es ep
spec_run-Went n [] ep u = record {
  state = ep;
  runs = refl;
  urls = refl;
  flight = ground arith;
  depth = refl;
}
spec_run-Went n (registers name model_id urls ∷ es) ep u =
    Went-cons (registers name model_id urls) (rw u.0 refl) refl refl refl
      (spec_run-Went n es ep u.1)
spec_run-Went n (registers_by_model model_id other ∷ es) ep u =
    Went-cons (registers_by_model model_id other) (rw u.0 refl) refl refl refl
      (spec_run-Went n es ep u.1)
spec_run-Went n (picks name ∷ es) ep u = elim (Bool-cases (text_beq name n)) [
  | inr other ↦
      Went-cons (picks name) (rw other refl) refl (ground (arith, other)) refl
        (spec_run-Went n es ep u)
  | inl same ↦ elim (Bool-cases (nat_beq (length ep.replica_urls) 0)) [
    | inl empty ↦
        Went-cons (picks name) (rw (same, empty) refl) refl (ground (arith, empty)) refl
          (spec_run-Went n es ep u)
    | inr more ↦
        Went-cons (picks name) (rw (same, more) refl) refl (ground (arith, same, more)) refl
          (spec_run-Went n es (record ep { in_flight = ep.in_flight + 1 }) u)
  ]
]
spec_run-Went n (queues name ∷ es) ep u = elim (Bool-cases (text_beq name n)) [
  | inl same ↦
      Went-cons (queues name) (rw same refl) refl refl (rw same refl)
        (spec_run-Went n es (record ep { queue_depth = ep.queue_depth + 1 }) u)
  | inr other ↦
      Went-cons (queues name) (rw other refl) refl refl (rw other refl) (spec_run-Went n es ep u)
]
spec_run-Went n (leaves name ∷ es) ep u = elim (Bool-cases (text_beq name n)) [
  | inl same ↦
      Went-cons (leaves name) (rw same refl) refl refl (rw same refl)
        (spec_run-Went n es (record ep { queue_depth = ep.queue_depth - 1 }) u)
  | inr other ↦
      Went-cons (leaves name) (rw other refl) refl refl (rw other refl) (spec_run-Went n es ep u)
]

-- Two stretches of calls, one after the other.
pub waiting-append :
    (n : Text) (es es' : List Event) (d : ℕ)
    → waiting n es' (waiting n es d) ≡ waiting n (es ++ es') d
waiting-append n [] es' d = refl
waiting-append n (registers name model_id urls ∷ es) es' d = waiting-append n es es' d
waiting-append n (registers_by_model model_id ep ∷ es) es' d = waiting-append n es es' d
waiting-append n (picks name ∷ es) es' d = waiting-append n es es' d
waiting-append n (queues name ∷ es) es' d = waiting-append n es es' _
waiting-append n (leaves name ∷ es) es' d = waiting-append n es es' _
