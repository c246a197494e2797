-- ===== src/Kv/Null.antt =====
-- pkg/kv/null/null.go
use opencoda.Prelude.{false, Text, bytes}
use opencoda.Engine.{empty_patch}
use opencoda.Kv.Types.{KvProvider}
use opencoda.Results.{ok}

abbrev pub provider_name : Text
provider_name = bytes "null"

unfoldable pub new : KvProvider
new = record {
  name = provider_name;
  capabilities = record {
    warm_restore = false;
    affinity_hints = false;
    shared_remote_tier = false;
    tier_spill = false;
  };
  render_pod_patch = λ ep node. ok empty_patch;
  on_restore = λ replica. ok tt;
  fingerprint = λ tokens. (0, false);
}
