-- ===== src/Constants.antt =====
-- internal/constants/annotations.go: the keys of annotations and labels.
use opencoda.Prelude.{Text, bytes}

abbrev pub annotation_desired_replicas : Text
annotation_desired_replicas = bytes "opencoda.dev/desired-replicas"

abbrev pub annotation_spec_hash : Text
annotation_spec_hash = bytes "opencoda.dev/spec-hash"

abbrev pub annotation_xid_critical : Text
annotation_xid_critical = bytes "opencoda.dev/xid-critical"

abbrev pub annotation_pod_created_at : Text
annotation_pod_created_at = bytes "opencoda.dev/pod-created-at"

abbrev pub annotation_cold_start_recorded : Text
annotation_cold_start_recorded = bytes "opencoda.dev/cold-start-recorded"

abbrev pub label_gpu : Text
label_gpu = bytes "opencoda.dev/gpu"

abbrev pub label_buffer_eligible : Text
label_buffer_eligible = bytes "opencoda.dev/buffer-eligible"

abbrev pub label_pool : Text
label_pool = bytes "opencoda.dev/pool"

abbrev pub label_endpoint : Text
label_endpoint = bytes "opencoda.dev/endpoint"

-- Used by no other code.
abbrev pub annotation_endpoint : Text
annotation_endpoint = bytes "opencoda.dev/endpoint"

abbrev pub annotation_demand_ewma : Text
annotation_demand_ewma = bytes "opencoda.dev/demand-ewma"

abbrev pub label_provider : Text
label_provider = bytes "opencoda.dev/provider"
