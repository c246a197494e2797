-- ===== src/Gateway/Router/RoundRobin.antt =====
-- PickReplica of server.go spreads requests in turn.
use opencoda.Prelude.{ℕ, zero, suc, Text}
use opencoda.Gateway.Router.{pick_replica, Router}

-- The router after `i` picks of an endpoint.
pub picked : ℕ → Text → Router → Router
picked zero name r = r
picked (suc i) name r = picked i name (pick_replica name r).0
