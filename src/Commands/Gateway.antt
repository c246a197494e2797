-- ===== src/Commands/Gateway.antt =====
-- cmd/coda-gateway/main.go with the constructors of internal/gateway/server.go. Routers and
-- autoscalers are objects of a heap here, which a pointer names by its place, so that it shows which
-- of them the server and the synchronisation share.
use opencoda.Prelude.{
  ℕ, ◌≡◌, refl, ◌≢◌, Option, none, some, List, [], ◌∷◌, ◌++◌, arith, length, get_elem?, Text,
}
use opencoda.Gateway.Router.{Router, new_router}
use opencoda.Gateway.Autoscaler.{Autoscaler, new_autoscaler}

-- An autoscaler keeps the pointer to its router.
pub record Heap : Type 0 where
  pub routers : List Router
  pub autoscalers : List (ℕ × Autoscaler)

abbrev empty_heap : Heap
empty_heap = record { routers = []; autoscalers = [] }

-- The pointer to a new object comes with the heap.
abbrev pub new_router_at : Heap → Heap × ℕ
new_router_at h = (record h { routers = h.routers ++ (new_router ∷ []) }, length h.routers)

abbrev pub new_autoscaler_at : ℕ → Heap → Heap × ℕ
new_autoscaler_at router h = (
  record h { autoscalers = h.autoscalers ++ ((router, new_autoscaler) ∷ []) },
  length h.autoscalers,
)

-- TokenAuth holds a validator, or nil.
pub record TokenAuth (V : Type 0) : Type 0 where
  pub validator : Option V

abbrev pub new_token_auth : {V : Type 0} → V → TokenAuth V
new_token_auth v = record { validator = some v }

-- What K8sSync points to; idleSince and kvHits start empty.
pub record Syncer : Type 0 where
  pub router : ℕ
  pub autoscaler : ℕ

pub record Server (V : Type 0) : Type 0 where
  pub router : Option ℕ
  pub autoscaler : ℕ
  pub auth : TokenAuth V
  pub addr : Text
  pub kv_sync : Option Syncer

-- The router is nil at first; the autoscaler is over a router of its own.
abbrev pub new_server : {V : Type 0} → Text → TokenAuth V → Heap → Heap × Server V
new_server addr auth h =
    let (h1, own) = new_router_at h in
    let (h2, autoscaler) = new_autoscaler_at own h1 in
    (
      h2,
      record { router = none; autoscaler = autoscaler; auth = auth; addr = addr; kv_sync = none },
    )

abbrev pub set_router : {V : Type 0} → ℕ → Server V → Heap → Heap × Server V
set_router r s h =
    let (h', autoscaler) = new_autoscaler_at r h in
    (h', record s { router = some r; autoscaler = autoscaler })

abbrev pub set_k8s_sync : {V : Type 0} → Syncer → Server V → Server V
set_k8s_sync sync s = record s { kv_sync = some sync }

pub record Process (V : Type 0) : Type 0 where
  pub heap : Heap
  pub syncer : Syncer
  pub server : Server V

-- main, up to the start of its goroutines.
unfoldable pub main : {V : Type 0} → Text → V → Process V
main addr validator =
    let (h1, router) = new_router_at empty_heap in
    let (h2, autoscaler) = new_autoscaler_at router h1 in
    let syncer : Syncer = record { router = router; autoscaler = autoscaler } in
    let (h3, made) = new_server addr (new_token_auth validator) h2 in
    let (h4, routed) = set_router router made h3 in
    record { heap = h4; syncer = syncer; server = set_k8s_sync syncer routed }

-- The server routes by the router that the synchronisation fills, which is empty at the start; but
-- the autoscaler of the server is none that the synchronisation feeds.
pub main_shares :
    {V : Type 0} (addr : Text) (validator : V)
    → (let p = main addr validator in
        (p.server.router ≡ some p.syncer.router)
        × (get_elem? p.heap.routers p.syncer.router ≡ some new_router)
        × (p.server.autoscaler ≢ p.syncer.autoscaler))
unfolding main
main_shares addr validator = (refl, refl, λ e. absurd (omega (arith, e)))
