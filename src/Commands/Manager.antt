-- ===== src/Commands/Manager.antt =====
-- cmd/coda-controller-manager/main.go: what the controllers share, and the order in which they are
-- set up. `os.Getenv` and the manager's answers are arguments; the price table's job, which shares
-- nothing with the controllers, is started before them.
use opencoda.Prelude.{Option, none, some, List, [], ◌∷◌, if◌then◌else◌, Text, bytes, text_beq}
use opencoda.Results.{Result, ok, err}
use opencoda.Capacity.{BootstrapConfig}
use opencoda.Capacity.Cache.{ProviderCache, new_provider_cache}
use opencoda.Capacity.Factories.{Surroundings, new_registry}
use opencoda.Health.{Checker, fake_checker}

-- The calls whose error ends the program with 1, in order.
pub data Setup : Type 0 where
  new_manager pools buffers endpoints health healthz readyz start : Setup

abbrev pub setups : List Setup
setups = new_manager ∷ pools ∷ buffers ∷ endpoints ∷ health ∷ healthz ∷ readyz ∷ start ∷ []

-- The first of them that fails; no later one is made.
unfoldable pub first_failure : (Setup → Result (Unit {0})) → List Setup → Option Setup
first_failure answer [] = none
first_failure answer (s ∷ rest) = elim (answer s) [
  | ok done ↦ first_failure answer rest
  | err e ↦ some s
]

abbrev pub boot_of : Text → (Text → Text) → BootstrapConfig
boot_of host getenv = record {
  api_server_url = host;
  ca_bundle = [];
  join_token = getenv (bytes "CODA_JOIN_TOKEN");
  cluster_name = getenv (bytes "EKS_CLUSTER_NAME");
}

abbrev pub checker_of : {S : Type 0} → (Text → Text) → Checker S → Checker S
checker_of getenv exec =
    if text_beq (getenv (bytes "CODA_FAKE_HEALTH")) (bytes "1") then fake_checker else exec

pub record Manager (S : Type 0) : Type 0 where
  pub providers : ProviderCache S
  pub checker : Checker S
  pub failed : Option Setup

-- The pool, the buffer and the health controller get the one cache.
unfoldable pub main :
    {S : Type 0}
    → Surroundings S
    → Text
    → (Text → Text)
    → Checker S
    → (Setup → Result (Unit {0}))
    → Manager S
unfolding first_failure text_beq
main around host getenv exec answer = record {
  providers = new_provider_cache (boot_of host getenv) (new_registry around);
  checker = checker_of getenv exec;
  failed = first_failure answer setups;
}
