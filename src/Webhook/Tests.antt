-- ===== src/Webhook/Tests.antt =====
-- An endpoint without an engine, at the webhook and at the controller.
use opencoda.Prelude.{◌≡◌, refl, ◌↔◌, none, some, List, [], ◌∷◌, ◌++◌, pos, Text, bytes}
use opencoda.Api.{CodaEndpoint}
use opencoda.Api.Cluster.{Pod}
use opencoda.Api.Sample.{endpoint}
use opencoda.Clock.{Clock}
use opencoda.Engine as Engines
use opencoda.Kv as Kvs
use opencoda.Floats.Sample.{sample}
use opencoda.Results.{ok}
use opencoda.Scheduler.Sort.Insertion.{insertion}
use opencoda.Endpoint.Reconcile.{reconcile, Api, Memory, done}
use opencoda.Webhook.{handle, allowed}
use opencoda.Webhook.Admission.{Admissible, handle-Admissible, reconcile-handle_empty}

abbrev nameless : CodaEndpoint
nameless = record (endpoint (bytes "a") [] 1 4) {
  spec = record (endpoint (bytes "a") [] 1 4).spec {
    engine = record { kind = []; version = []; args = [] };
  };
}

abbrev quoted : Text → Text
quoted t = b'"' ∷ (t ++ (b'"' ∷ []))

handle-Admissible_example :
    (handle quoted (ok nameless) ≡ allowed)
    ↔ ((ep : CodaEndpoint) × (ok nameless ≡ ok ep) × Admissible ep)
handle-Admissible_example = handle-Admissible quoted (ok nameless)

abbrev clock : Clock
clock = record {
  parse_duration = λ t. none;
  parse_time = λ t. none;
  format_time = λ t. [];
  seconds = λ d. 0;
}

abbrev cluster : Api (List Pod)
cluster = record {
  get_endpoint = λ ns n s. ok nameless;
  list_pods = λ ns n s. some s;
  create_pod = λ p s. (p ∷ s, ok tt);
  delete_pod = λ p s. s;
  patch_pod = λ p s. s;
  update_status = λ ep s. (s, ok tt);
}

abbrev engines : Engines.Registry
engines = record { engines = [] }

abbrev kvs : Kvs.Registry
kvs = record { providers = [] }

abbrev memory : Memory
memory = record { idle_since = []; cold_samples = [] }

reconcile-handle_empty_example :
    (handle quoted (ok nameless) ≡ allowed)
    × (reconcile cluster engines kvs sample insertion clock quoted
          (pos 9)
          (bytes "default")
          (bytes "a")
          memory
          []
        ≡ (([], done), memory))
reconcile-handle_empty_example =
    reconcile-handle_empty cluster engines kvs sample insertion clock quoted (pos 9) quoted
      (bytes "default") (bytes "a") nameless memory [] refl refl refl
