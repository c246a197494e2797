-- ===== src/Flows/Replica/Tests.antt =====
-- The pod of an endpoint with one GPU.
use opencoda.Prelude.{none, [], pos, Text, bytes}
use opencoda.Api.Cluster.{Pod}
use opencoda.Api.Sample.{endpoint, ready_pod}
use opencoda.Clock.{Clock}
use opencoda.Endpoint.Build.{build_pod}
use opencoda.Endpoint.Wiring.{new_reconciler}
use opencoda.Floats.Sample.{sample}
use opencoda.Engine as Engines
use opencoda.Engine.Vllm as Vllm
use opencoda.Kv as Kvs
use opencoda.Kv.LmCache as LmCache
use opencoda.Kv.Null as Null
use opencoda.Results.{Result, ok, err}

abbrev clock : Clock
clock = record {
  parse_duration = λ t. none;
  parse_time = λ t. none;
  format_time = λ t. [];
  seconds = λ d. 0;
}

abbrev marshal : LmCache.L2AdapterSpec → Result Text
marshal spec = ok []

abbrev build : Result Pod
build =
    build_pod sample clock (pos 0) (new_reconciler sample marshal [] []).engines
      (new_reconciler sample marshal [] []).kv_providers (endpoint (bytes "e") [] 1 4) (pos 0)
      (bytes "h")

abbrev pod : Pod
pod = elim build [ ok p ↦ p | err e ↦ ready_pod [] [] ]
