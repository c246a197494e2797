-- ===== src/Capacity/Cache.antt =====
-- pkg/capacity/cache.go: one provider for each pool name. The mutex makes ForPool one step.
pub mod Reuse
use opencoda.Prelude.{
  none, some, [], ◌++◌, if◌then◌else◌, Text, bytes, text_beq, Dict, lookup, insert,
}
use opencoda.Api.{GpuPool}
use opencoda.Results.{◌>>=◌, Result, ok, err, message}
use opencoda.Capacity.Provider.{CapacityProvider, FactoryRegistry, BootstrapConfig, make_for_pool}

pub record ProviderCache (W : Type 0) : Type 0 where
  pub factories : FactoryRegistry W
  pub boot : BootstrapConfig
  pub cache : Dict (CapacityProvider W)

abbrev pub new_provider_cache : {W : Type 0} → BootstrapConfig → FactoryRegistry W → ProviderCache W
new_provider_cache boot factories = record { factories = factories; boot = boot; cache = [] }

-- `read` gets the data of a secret of the namespace opencoda-system.
unfoldable pub load_credentials : (Text → Result (Dict Text)) → GpuPool → Result (Dict Text)
unfolding text_beq
load_credentials read pool =
    let ref = pool.spec.provider.credentials_ref in
    if text_beq ref.secret_name [] then ok [] else elim (read ref.secret_name) [
      | ok secret ↦ ok secret
      | err e ↦ err (message (bytes "credentials secret " ++ ref.secret_name))
    ]

module _ {W : Type 0} where
  abbrev pub made :
      (Text → Result (Dict Text)) → ProviderCache W → GpuPool → Result (CapacityProvider W)
  made read p pool = do
    creds ← load_credentials read pool
    make_for_pool p.factories pool creds p.boot

  unfoldable pub for_pool :
      (Text → Result (Dict Text))
      → GpuPool
      → ProviderCache W
      → ProviderCache W × Result (CapacityProvider W)
  for_pool read pool p = elim (lookup pool.metadata.name p.cache) [
    | some prov ↦ (p, ok prov)
    | none ↦ elim (made read p pool) [
      | err e ↦ (p, err e)
      | ok prov ↦ (record p { cache = insert pool.metadata.name prov p.cache }, ok prov)
    ]
  ]
