-- ===== src/Gateway/Threads/Served.antt =====
-- What a completion gets from a gateway that has been synchronised.
use opencoda.Prelude.{ℕ, ◌≡◌, some, List, [], Text, Dict}
use opencoda.Api.Cluster.{Pod}
use opencoda.Gateway.Router.{EndpointState, Router}
use opencoda.Gateway.Server.{forward, Reply, Json, Outcome, no_replicas}
use opencoda.Gateway.Threads.{Listing}
use opencoda.Gateway.Threads.Listing.{last_listed, newest_urls, IsReadyAt}

module _ (order : Dict EndpointState → Dict EndpointState) (json : Json)
    (post : Text → Text → Outcome) where
  -- The reply is that of a ready pod of the listing, to whom the completion is sent on.
  abbrev pub IsServed : Text → List Listing → Text → Reply → Type 0
  IsServed name h body reply =
      (pods : List Pod) × (i : ℕ) × (url : Text) × (last_listed name h ≡ some pods)
      × IsReadyAt pods i url
      × (reply ≡ forward json post url body (json.model_of body))

  -- The reply is the one without a replica, and the newest listing has no ready pod.
  abbrev pub IsRefused : Text → List Listing → Reply → Type 0
  IsRefused name h reply = (reply ≡ no_replicas) × (newest_urls name h ≡ [])
