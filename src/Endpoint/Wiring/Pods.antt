-- ===== src/Endpoint/Wiring/Pods.antt =====
-- Which pods a Reconciler as it starts can build.
use opencoda.Prelude.{
  ◌≡◌, refl, sym, ◌≢◌, ◌⊎◌, inl, inr, none, some, ◌++◌, if◌then◌else◌, Bool-cases, ℤ, Text, bytes,
  text_beq, text_beq_iff, quoted, lookup, insert,
}
use opencoda.Api.{Time, CodaEndpoint}
use opencoda.Clock.{Clock}
use opencoda.Endpoint.Build.{build_pod, rendered, select_kv, lm_cache_enabled}
use opencoda.Endpoint.Wiring.{Reconciler, new_reconciler}
use opencoda.Engine as Engines
use opencoda.Engine.Vllm as Vllm
use opencoda.Floats.{FloatOps}
use opencoda.Kv as Kvs
use opencoda.Kv.LmCache as LmCache
use opencoda.Kv.Null as Null
use opencoda.Results.{Result, err, message}

module _ (fl : FloatOps) (marshal : LmCache.L2AdapterSpec → Result Text)
    (image garage_endpoint : Text) (clock : Clock) (now : Time) (ep : CodaEndpoint) (index : ℤ)
    (spec_hash : Text) where
  abbrev started : Reconciler
  started = new_reconciler fl marshal image garage_endpoint

  abbrev kind : Text
  kind = ep.spec.engine.kind

  -- The provider for the key-value cache.
  abbrev pub kv_of : Kvs.KvProvider
  kv_of = if lm_cache_enabled ep then LmCache.new fl marshal garage_endpoint else Null.new

  select_kv-new_reconciler : select_kv started.kv_providers ep ≡ some kv_of
  unfolding select_kv new_reconciler Kvs.get Kvs.register Kvs.new_registry insert lookup LmCache.new
      Null.new
  select_kv-new_reconciler = elim (Bool-cases (lm_cache_enabled ep)) [
    | inl e ↦ rw (select_kv, e) refl
    | inr e ↦ rw (select_kv, e) refl
  ]

  get-new_reconciler :
      Engines.get kind started.engines
      ≡ (if text_beq (bytes "vllm") kind then some (Vllm.new image) else none)
  unfolding new_reconciler Engines.get Engines.register Engines.new_registry insert lookup Vllm.new
  get-new_reconciler = refl

  -- A Reconciler as it starts builds the pods of an endpoint whose engine type is vllm, in this very
  -- spelling, with the vLLM engine and LMCache, or the null provider where LMCache is not enabled. For
  -- any other engine type, those included that ValidateEngineType takes for vllm, it gives the error
  -- that the engine is not registered.
  pub build_pod-new_reconciler :
      ((kind ≡ bytes "vllm")
        × (build_pod fl clock now started.engines started.kv_providers ep index spec_hash
            ≡ rendered fl clock now (Vllm.new image) ep index spec_hash kv_of))
      ⊎ ((kind ≢ bytes "vllm")
          × (build_pod fl clock now started.engines started.kv_providers ep index spec_hash
              ≡ err (message (bytes "engine " ++ (quoted kind ++ bytes " not registered")))))
  unfolding build_pod
  build_pod-new_reconciler = elim (Bool-cases (text_beq (bytes "vllm") kind)) [
    | inl e ↦ inl (
      sym ((text_beq_iff (bytes "vllm") kind).0 e),
      rw (build_pod, get-new_reconciler, e, select_kv-new_reconciler) refl,
    )
    | inr e ↦ inr (
      (λ h. absurd (cc (e, (text_beq_iff (bytes "vllm") kind).1 (sym h)))),
      rw (build_pod, get-new_reconciler, e) refl,
    )
  ]
