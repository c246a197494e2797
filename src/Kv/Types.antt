-- ===== src/Kv/Types.antt =====
-- pkg/kv/provider.go. The Prometheus collectors, of which every provider has none, are left out.
use opencoda.Prelude.{ℕ, Bool, Option, List, [], ℤ, Text, Dict, lookup, insert}
use opencoda.Api.{CodaEndpoint}
use opencoda.Engine.{NodeProfile, PodPatch}
use opencoda.Results.{Result}

pub record KvCapabilities : Type 0 where
  pub warm_restore : Bool
  pub affinity_hints : Bool
  pub shared_remote_tier : Bool
  pub tier_spill : Bool

pub record ReplicaRef : Type 0 where
  pub namespace : Text
  pub endpoint : Text
  pub pod_name : Text
  pub node_name : Text

pub record KvProvider : Type 0 where
  pub name : Text
  pub capabilities : KvCapabilities
  pub render_pod_patch : CodaEndpoint → NodeProfile → Result PodPatch
  pub on_restore : ReplicaRef → Result (Unit {0})
  pub fingerprint : List ℤ → ℕ × Bool

pub record Registry : Type 0 where
  pub providers : Dict KvProvider

unfoldable pub new_registry : Registry
new_registry = record { providers = [] }

unfoldable pub register : KvProvider → Registry → Registry
register p r = record { providers = insert p.name p r.providers }

unfoldable pub get : Text → Registry → Option KvProvider
get name r = lookup name r.providers
