-- ===== src/Capacity/Cache/Reuse.antt =====
-- What the cache keeps.
use opencoda.Prelude.{
  ◌≡◌, ◌∙◌, inl, inr, some, List, [], ◌∷◌, arith, Option-cases, Bool-cases, Text, text_beq,
  text_beq_iff, text_beq_refl, Dict, lookup, insert, lookup-insert,
}
use opencoda.Api.{GpuPool}
use opencoda.Results.{Result, Result-cases, ok}
use opencoda.Capacity.Provider.{CapacityProvider}
use opencoda.Capacity.Cache.{made, for_pool, ProviderCache}

module _ {W : Type 0} (read : Text → Result (Dict Text)) where
  lookup-for_pool :
      (pool : GpuPool) (p p' : ProviderCache W) (prov : CapacityProvider W)
      → for_pool read pool p ≡ (p', ok prov)
      → lookup pool.metadata.name p'.cache ≡ some prov
  unfolding for_pool
  lookup-for_pool pool p p' prov e = elim (Option-cases (lookup pool.metadata.name p.cache)) [
    | inr (old, hit) ↦ ground (arith, hit)
    | inl miss ↦ elim (Result-cases (made read p pool)) [
      | inl (e', bad) ↦ absurd (ground (arith, miss, bad))
      | inr (fresh, good) ↦
          let stored : p' ≡ record p { cache = insert pool.metadata.name fresh p.cache } =
            ground (arith, miss, good) in
          let same : fresh ≡ prov = ground (arith, miss, good) in
          rw (
            stored,
            lookup-insert pool.metadata.name pool.metadata.name fresh p.cache,
            text_beq_refl pool.metadata.name,
            same,
          )
    ]
  ]

  -- A call for whatever pool leaves the providers that were there.
  lookup-for_pool_kept :
      (pool : GpuPool) (n : Text) (p : ProviderCache W) (prov : CapacityProvider W)
      → lookup n p.cache ≡ some prov
      → lookup n (for_pool read pool p).0.cache ≡ some prov
  unfolding for_pool
  lookup-for_pool_kept pool n p prov e = elim (Option-cases (lookup pool.metadata.name p.cache)) [
    | inr (old, hit) ↦ rw (hit, for_pool) e
    | inl miss ↦ elim (Result-cases (made read p pool)) [
      | inl (e', bad) ↦ rw (miss, bad, for_pool) e
      | inr (fresh, good) ↦
          rw (miss, good, for_pool)
            (lookup-insert pool.metadata.name n fresh p.cache
              ∙ (elim (Bool-cases (text_beq pool.metadata.name n)) [
                | inl same ↦
                    absurd (ground (arith, text_beq_iff pool.metadata.name n, same, miss, e))
                | inr other ↦ rw other e
              ]))
    ]
  ]

module _ {W : Type 0} where
  -- The cache after some calls of ForPool, each with what the secrets are then.
  abbrev pub after :
      List ((Text → Result (Dict Text)) × GpuPool) → ProviderCache W → ProviderCache W
  after [] p = p
  after ((read, pool) ∷ calls) p = after calls (for_pool read pool p).0

  lookup-after :
      (calls : List ((Text → Result (Dict Text)) × GpuPool)) (n : Text) (p : ProviderCache W)
      (prov : CapacityProvider W)
      → lookup n p.cache ≡ some prov
      → lookup n (after calls p).cache ≡ some prov
  lookup-after [] n p prov e = e
  lookup-after ((read, pool) ∷ calls) n p prov e =
      lookup-after calls n (for_pool read pool p).0 prov (lookup-for_pool_kept read pool n p prov e)

  -- Once a provider was made for a pool, then after any calls for whatever pools the same one is
  -- returned for every pool of that name, whatever has changed in the pool, its credentials or the
  -- secrets since, and the cache is left as it is.
  pub for_pool-again :
      (read later : Text → Result (Dict Text)) (pool pool' : GpuPool) (p p' : ProviderCache W)
      (prov : CapacityProvider W) (calls : List ((Text → Result (Dict Text)) × GpuPool))
      → for_pool read pool p ≡ (p', ok prov)
      → pool'.metadata.name ≡ pool.metadata.name
      → for_pool later pool' (after calls p') ≡ (after calls p', ok prov)
  unfolding for_pool
  for_pool-again read later pool pool' p p' prov calls e same =
      let kept =
        lookup-after calls pool.metadata.name p' prov (lookup-for_pool read pool p p' prov e) in
      rw (same, kept, for_pool)
