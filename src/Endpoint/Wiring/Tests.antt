-- ===== src/Endpoint/Wiring/Tests.antt =====
-- An endpoint of the engine type VLLM.
use opencoda.Prelude.{
  ◌≡◌, refl, ◌≢◌, ◌⊎◌, none, [], ◌++◌, pos, Text, bytes, text_beq, to_lower, quoted,
}
use opencoda.Api.{CodaEndpoint}
use opencoda.Api.Sample.{endpoint}
use opencoda.Clock.{Clock}
use opencoda.Endpoint.Build.{build_pod, rendered}
use opencoda.Endpoint.Wiring.{new_reconciler}
use opencoda.Endpoint.Wiring.Pods.{kv_of, build_pod-new_reconciler}
use opencoda.Engine.Vllm as Vllm
use opencoda.Floats.Sample.{sample}
use opencoda.Kv.LmCache as LmCache
use opencoda.Results.{Result, ok, err, message}

abbrev clock : Clock
clock = record {
  parse_duration = λ t. none;
  parse_time = λ t. none;
  format_time = λ t. [];
  seconds = λ d. 0;
}

abbrev upper : CodaEndpoint
upper = record (endpoint (bytes "e") [] 1 4) {
  spec = record (endpoint (bytes "e") [] 1 4).spec {
    engine = record { kind = bytes "VLLM"; version = bytes "v1"; args = [] };
  };
}

abbrev marshal : LmCache.L2AdapterSpec → Result Text
marshal spec = ok []

-- The check of the type takes it for vllm.
upper_valid : Vllm.validate_engine_type upper.spec.engine.kind ≡ ok tt
unfolding Vllm.validate_engine_type to_lower text_beq
upper_valid = refl

build_pod-new_reconciler_example :
    ((upper.spec.engine.kind ≡ bytes "vllm")
      × (build_pod sample clock
            (pos 0)
            (new_reconciler sample marshal [] []).engines
            (new_reconciler sample marshal [] []).kv_providers
            upper
            (pos 0)
            []
          ≡ rendered sample clock
              (pos 0)
              (Vllm.new [])
              upper
              (pos 0)
              []
              (kv_of sample marshal [] [] clock (pos 0) upper (pos 0) [])))
    ⊎ ((upper.spec.engine.kind ≢ bytes "vllm")
        × (build_pod sample clock
              (pos 0)
              (new_reconciler sample marshal [] []).engines
              (new_reconciler sample marshal [] []).kv_providers
              upper
              (pos 0)
              []
            ≡ err (
                message
                  (bytes "engine " ++ (quoted upper.spec.engine.kind ++ bytes " not registered")))))
build_pod-new_reconciler_example =
    build_pod-new_reconciler sample marshal [] [] clock (pos 0) upper (pos 0) []
