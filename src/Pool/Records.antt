-- ===== src/Pool/Records.antt =====
-- reconcileNodeRecords.
pub mod Counts
pub mod Known
pub mod Again
use opencoda.Prelude.{
  Bool, not, ◌&&◌, Option, none, some, List, [], ◌∷◌, ◌++◌, if◌then◌else◌, any, ◌+ℤ◌, ℤ, pos, Text,
  bytes, text_beq, Dict, lookup, get_or, insert,
}
use opencoda.Api.{GpuPool, NodeRecord, PoolNodeCounts}
use opencoda.Api.Cluster.{Node}
use opencoda.Constants.{label_buffer_eligible}

-- The map nodeByName: of two nodes of one name the later counts.
unfoldable pub node_by_name : List Node → Dict Node → Dict Node
node_by_name [] m = m
node_by_name (n ∷ ns) m = node_by_name ns (insert n.metadata.name n m)

-- Whether a record of this node name is there; the empty name is never known.
unfoldable pub known : Text → List NodeRecord → Bool
unfolding text_beq
known name records = any (λ r. not (text_beq r.node_name []) && text_beq r.node_name name) records

unfoldable pub discovered : Text → Text → NodeRecord
discovered pool_name name = record {
  provider_id = bytes "static://" ++ (pool_name ++ (b'/' ∷ name));
  node_name = name;
  state = bytes "discovered";
  launched_at = pos 0;
  pool_name = pool_name;
}

-- The range over nodeByName, in the order `visited`; the known names are those at the start.
unfoldable pub discover : Text → List NodeRecord → Dict Node → List NodeRecord
unfolding known discovered
discover pool_name records [] = []
discover pool_name records ((name, n) ∷ visited) =
    let rest = discover pool_name records visited in
    if known name records then rest else discovered pool_name name ∷ rest

-- The node that a record is of, if it is listed.
abbrev pub node_of : Dict Node → NodeRecord → Option Node
node_of nodes r = if text_beq r.node_name [] then none else lookup r.node_name nodes

abbrev pub eligible : Node → Bool
eligible n = text_beq (get_or n.metadata.labels label_buffer_eligible []) (bytes "true")

abbrev pub state_of : Node → Text
state_of n =
    if n.unschedulable
    then bytes "draining"
    else if eligible n
    then bytes "buffered"
    else bytes "active"

unfoldable pub bind_record : Dict Node → NodeRecord → NodeRecord
unfolding text_beq
bind_record nodes r = elim (node_of nodes r) [ none ↦ r | some n ↦ record r { state = state_of n } ]

abbrev tally : Bool → ℤ → ℤ
tally b n = if b then n +ℤ pos 1 else n

-- The last loop: the records in their new states, and the three counters.
unfoldable pub bind_records :
    Dict Node → List NodeRecord → PoolNodeCounts → List NodeRecord × PoolNodeCounts
unfolding bind_record text_beq
bind_records nodes [] c = ([], c)
bind_records nodes (r ∷ rs) c =
    let c' : PoolNodeCounts = elim (node_of nodes r) [
      | none ↦ record c {
        provisioning = tally (text_beq r.state (bytes "provisioning")) c.provisioning;
      }
      | some n ↦
          if n.unschedulable
          then c
          else if eligible n
          then record c { buffered = c.buffered +ℤ pos 1 }
          else record c { active = c.active +ℤ pos 1 }
    ] in
    let (rs', c'') = bind_records nodes rs c' in (bind_record nodes r ∷ rs', c'')

-- `listed` is the result of listing the pool's nodes.
unfoldable pub reconcile_node_records :
    (Dict Node → Dict Node) → Option (List Node) → GpuPool → GpuPool
unfolding node_by_name discover bind_records
reconcile_node_records visit none pool = pool
reconcile_node_records visit (some listed) pool =
    let nodes = node_by_name listed [] in
    let records =
      pool.status.node_records
      ++ discover pool.metadata.name pool.status.node_records (visit nodes) in
    let (bound, counts) =
      bind_records nodes records
        (record { active = pos 0; buffered = pos 0; provisioning = pos 0 }) in
    record pool { status = record pool.status { node_records = bound; nodes = counts } }
