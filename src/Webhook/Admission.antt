-- ===== src/Webhook/Admission.antt =====
-- Which endpoints are admitted, and what becomes of them.
use opencoda.Prelude.{
  ◌≡◌, refl, ap, ◌∙◌, ◌↔◌, ◌⊎◌, inl, inr, none, [], arith, Option-cases, Text, bytes, text_beq,
  text_beq_iff, text_beq_refl, to_lower,
}
use opencoda.Api.{Time, Float64, CodaEndpoint}
use opencoda.Clock.{Clock}
use opencoda.Engine as Engines
use opencoda.Engine.Vllm.{validate_engine_type}
use opencoda.Floats.{FloatOps}
use opencoda.Kv as Kvs
use opencoda.Results.{Result, ok, err}
use opencoda.Scheduler.Sort.{SortSlice}
use opencoda.Endpoint.Reconcile.{reconcile_endpoint, reconcile, Api, Memory, done}
use opencoda.Webhook.{runtime_class, admit, handle, allowed}

-- A snapshot goes with the default runtime or with runc, and the engine is left out or is vllm.
abbrev pub Admissible : CodaEndpoint → Type 0
Admissible ep =
    ((ep.spec.snapshot ≡ none)
      ⊎ ((ep.spec.runtime.class ≡ []) ⊎ (ep.spec.runtime.class ≡ bytes "runc")))
    × ((ep.spec.engine.kind ≡ []) ⊎ (ep.spec.engine.kind ≡ bytes "vllm"))

admit-Admissible :
    (quote : Text → Text) (ep : CodaEndpoint) → admit quote ep ≡ allowed → Admissible ep
unfolding admit runtime_class
admit-Admissible quote ep h = elim (Option-cases ep.spec.snapshot) [
  | inl e ↦ ground (
    arith,
    e,
    text_beq_iff ep.spec.engine.kind [],
    text_beq_iff ep.spec.engine.kind (bytes "vllm"),
  )
  | inr (ref, e) ↦ ground (
    arith,
    e,
    text_beq_iff ep.spec.engine.kind [],
    text_beq_iff ep.spec.engine.kind (bytes "vllm"),
    text_beq_iff ep.spec.runtime.class [],
    text_beq_iff ep.spec.runtime.class (bytes "runc"),
  )
]

Admissible-admit :
    (quote : Text → Text) (ep : CodaEndpoint) → Admissible ep → admit quote ep ≡ allowed
unfolding admit runtime_class
Admissible-admit quote ep h = ground (
  arith,
  text_beq_refl (bytes "runc"),
  text_beq_iff ep.spec.engine.kind [],
  text_beq_iff ep.spec.engine.kind (bytes "vllm"),
  text_beq_iff ep.spec.runtime.class [],
  text_beq_iff ep.spec.runtime.class (bytes "runc"),
)

-- An object is admitted exactly when it could be decoded and is admissible.
pub handle-Admissible :
    (quote : Text → Text) (decoded : Result CodaEndpoint)
    → (handle quote decoded ≡ allowed) ↔ ((ep : CodaEndpoint) × (decoded ≡ ok ep) × Admissible ep)
unfolding handle admit
handle-Admissible quote (err e) = ((λ h. absurd (cc h)), (λ (ep, h, a). absurd (cc h)))
handle-Admissible quote (ok ep) = (
  (λ h. (ep, refl, admit-Admissible quote ep h)),
  (λ (ep', h, a).
      let same : ep ≡ ep' = cc h in ap (admit quote) same ∙ Admissible-admit quote ep' a),
)

module _ {S : Type 0} (api : Api S) (engines : Engines.Registry) (kvs : Kvs.Registry)
    (fl : FloatOps) (sort : SortSlice Float64) (clock : Clock) (hash : Text → Text)
    (now : Time) where
  -- An endpoint that names no engine and no snapshot is admitted, but Reconcile, which finds it
  -- under its name, ends without an error, without a requeue and without having done anything.
  pub reconcile-handle_empty :
      (quote : Text → Text) (namespace name : Text) (ep : CodaEndpoint) (memory : Memory) (s : S)
      → api.get_endpoint namespace name s ≡ ok ep
      → ep.spec.engine.kind ≡ []
      → ep.spec.snapshot ≡ none
      → (handle quote (ok ep) ≡ allowed)
        × (reconcile api engines kvs fl sort clock hash now namespace name memory s
            ≡ ((s, done), memory))
  unfolding reconcile handle admit validate_engine_type text_beq to_lower
  reconcile-handle_empty quote namespace name ep memory s found empty plain = (
    Admissible-admit quote ep (inl plain, inl empty),
    rw (found, reconcile)
        (ap
          (λ k. elim (validate_engine_type k) [
            | err e ↦ ((s, done), memory)
            | ok u ↦ reconcile_endpoint api engines kvs fl sort clock hash now ep memory s
          ])
          empty),
  )
