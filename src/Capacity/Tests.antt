-- ===== src/Capacity/Tests.antt =====
-- A cache with the static provider's factory.
use opencoda.Prelude.{ℕ, ◌≡◌, refl, List, [], ◌∷◌, Text, bytes, Dict, lookup, insert}
use opencoda.Api.{GpuPool}
use opencoda.Api.Sample.{pool}
use opencoda.Results.{Result, ice, not_found, ok, err}
use opencoda.Capacity.{
  returns, Factory, new_factory_registry, register, make_for_pool, Constraints, GpuRequest, Offer,
  NodeHandle, CapacityReport, CapacityProvider, BootstrapConfig, FactoryRegistry,
}
use opencoda.Capacity.Cache.{load_credentials, for_pool, ProviderCache}
use opencoda.Capacity.Cache.Reuse.{after, for_pool-again}

abbrev no_secrets : Text → Result (Dict Text)
no_secrets name = err not_found

abbrev provider : CapacityProvider ℕ
provider = record {
  name = bytes "static";
  quote = λ r w. (w, ok []);
  provision = λ o w. (w, returns (err ice));
  release = λ h w. (w, ok tt);
  capacity = λ p w. (w, err ice);
}

abbrev factory : Factory ℕ
factory p creds boot = ok provider

abbrev boot : BootstrapConfig
boot = record { api_server_url = []; ca_bundle = []; join_token = []; cluster_name = [] }

abbrev empty : ProviderCache ℕ
empty = record {
  factories = record { factories = (bytes "static", factory) ∷ [] };
  boot = boot;
  cache = [];
}

abbrev filled : ProviderCache ℕ
filled = record empty { cache = (bytes "p", provider) ∷ [] }

made_once : for_pool no_secrets (pool (bytes "p")) empty ≡ (filled, ok provider)
unfolding for_pool lookup load_credentials opencoda.Capacity.Provider.make_for_pool insert
made_once = refl

-- The pool `p` with another provider and with credentials.
abbrev changed : GpuPool
changed = record (pool (bytes "p")) {
  spec = record (pool (bytes "p")).spec {
    provider = record {
      name = bytes "aws";
      credentials_ref = record { secret_name = bytes "s" };
      params = [];
    };
  };
}

-- A call for another pool, and one for the changed one.
abbrev since : List ((Text → Result (Dict Text)) × GpuPool)
since = (no_secrets, pool (bytes "q")) ∷ (no_secrets, changed) ∷ []

for_pool-again_example :
    for_pool no_secrets changed (after since filled) ≡ (after since filled, ok provider)
for_pool-again_example =
    for_pool-again no_secrets no_secrets (pool (bytes "p")) changed empty filled provider since
      made_once refl
