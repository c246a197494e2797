-- ===== src/Buffer/Types.antt =====
-- What the buffer controller asks of the API server and of the clock.
use opencoda.Prelude.{Option, List, Text, Dict}
use opencoda.Api.{Duration, GpuPool, BufferPolicy}
use opencoda.Api.Cluster.{Node, Pod}
use opencoda.Results.{Result}

pub record Api (S : Type 0) : Type 0 where
  pub get_policy : Text → S → Result BufferPolicy
  pub get_pool : Text → S → Result GpuPool
  -- The nodes under the label of a pool.
  pub list_pool_nodes : Text → S → Option (List Node)
  pub get_node : Text → S → Result Node
  pub list_pods : S → Option (List Pod)
  pub read_secret : Text → S → Result (Dict Text)
  pub update_node : Node → S → S × Result (Unit {0})
  pub update_pool_status : GpuPool → S → S × Result (Unit {0})
  pub update_policy_status : BufferPolicy → S → S × Result (Unit {0})
  -- The eviction of a pod, whose error is ignored.
  pub evict : Pod → S → S
  -- time.Sleep
  pub sleep : Duration → S → S
