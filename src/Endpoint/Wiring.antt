-- ===== src/Endpoint/Wiring.antt =====
-- NewReconciler: the registries and the maps that a Reconciler starts with.
pub mod Pods
mod Tests
use opencoda.Prelude.{[], Text}
use opencoda.Engine as Engines
use opencoda.Engine.Vllm as Vllm
use opencoda.Kv as Kvs
use opencoda.Kv.LmCache as LmCache
use opencoda.Kv.Null as Null
use opencoda.Endpoint.Reconcile.{Memory}
use opencoda.Floats.{FloatOps}
use opencoda.Results.{Result}

pub record Reconciler : Type 0 where
  pub engines : Engines.Registry
  pub kv_providers : Kvs.Registry
  pub memory : Memory

module _ (fl : FloatOps) (marshal : LmCache.L2AdapterSpec → Result Text) where
  -- `image` is the environment's CODA_ENGINE_IMAGE.
  unfoldable pub new_reconciler : Text → Text → Reconciler
  unfolding Engines.register Engines.new_registry Kvs.register Kvs.new_registry Vllm.new LmCache.new
      Null.new
  new_reconciler image garage_endpoint = record {
    engines = Engines.register (Vllm.new image) Engines.new_registry;
    kv_providers =
        Kvs.register Null.new
          (Kvs.register (LmCache.new fl marshal garage_endpoint) Kvs.new_registry);
    memory = record { idle_since = []; cold_samples = [] };
  }
