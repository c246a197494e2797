-- ===== src/Pool/Records/Again.antt =====
-- What a second pass over the records of a pool does.
use opencoda.Prelude.{
  ◌≡◌, refl, sym, ap, ◌∙◌, inl, inr, Bool, true, false, ◌||◌, some, List, [], ◌∷◌, ◌++◌, map, arith,
  Bool-cases, any, All, All-of_mem, any_of_mem, any-All, pos, Text, text_beq, text_beq_iff,
  text_beq_refl, Dict, insert,
}
use mathlib.Core.List.{Mem, Perm, mem-cons_self, mem-cons_of_mem, append-nil}
use mathlib.Core.List.Perm
use mathlib.Core.Path.{subst}
use opencoda.Api.{GpuPool, NodeRecord, PoolNodeCounts}
use opencoda.Api.Cluster.{Node}
use opencoda.Pool.Records.{
  node_by_name, known, discover, bind_record, bind_records, reconcile_node_records,
}
use opencoda.Pool.Records.Counts.{raised, bind_records-raised, reconcile_node_records-counts}
use opencoda.Pool.Records.Known.{
  known-map-bind_record, bind_records-map, map-bind_record-again, known-discover, discover_nothing,
}

-- The keys of a map, and what an assignment does to them.
has_key : Text → Dict Node → Bool
has_key k d = any (λ e. text_beq e.0 k) d

has_key-insert :
    (j k : Text) (v : Node) (d : Dict Node)
    → has_key j (insert k v d) ≡ (text_beq k j || has_key j d)
unfolding has_key insert
has_key-insert j k v [] = ground arith
has_key-insert j k v ((i, w) ∷ d) = ground (arith, has_key-insert j k v d, text_beq_iff i k)

has_key-node_by_name :
    (j : Text) (ns : List Node) (d : Dict Node)
    → has_key j (node_by_name ns d) ≡ (any (λ n. text_beq n.metadata.name j) ns || has_key j d)
unfolding node_by_name
has_key-node_by_name j [] d = refl
has_key-node_by_name j (n ∷ ns) d =
    has_key-node_by_name j ns (insert n.metadata.name n d)
    ∙ ground (arith, has_key-insert j n.metadata.name n d)

mem_of_has_key : (k : Text) (d : Dict Node) → has_key k d ≡ true → (n : Node) × Mem (k, n) d
unfolding has_key
mem_of_has_key k [] h = absurd (cc h)
mem_of_has_key k ((j, n) ∷ d) h = elim (Bool-cases (text_beq j k)) [
  | inl e ↦ (n, subst (λ i. Mem (i, n) ((j, n) ∷ d)) ((text_beq_iff j k).0 e) mem-cons_self)
  | inr e ↦
      let (m, there) = mem_of_has_key k d (ground (arith, e, h)) in
      (m, mem-cons_of_mem (j, n) there)
]

has_key_of_mem : (k : Text) (n : Node) (d : Dict Node) → Mem (k, n) d → has_key k d ≡ true
unfolding has_key
has_key_of_mem k n d m = any_of_mem (λ e. text_beq e.0 k) d (k, n) m (text_beq_refl k)

named_key :
    (listed : List Node)
    → All (λ n. text_beq n.metadata.name [] ≡ false) listed
    → has_key [] (node_by_name listed []) ≡ false
unfolding has_key
named_key listed h =
    has_key-node_by_name [] listed []
    ∙ (let nameless = any-All (λ n. text_beq n.metadata.name []) listed h in
        ground (arith, nameless))

module _ (first second : Dict Node → Dict Node) (listed : List Node) (pool : GpuPool)
    (first-perm : (d : Dict Node) → Perm (first d) d)
    (second-perm : (d : Dict Node) → Perm (second d) d)
    (named : All (λ n. text_beq n.metadata.name [] ≡ false) listed) where
  nodes : Dict Node
  nodes = node_by_name listed []

  met : List NodeRecord
  met =
      pool.status.node_records ++ discover pool.metadata.name pool.status.node_records (first nodes)

  abbrev once : GpuPool
  once = reconcile_node_records first (some listed) pool

  records-once : once.status.node_records ≡ map (bind_record nodes) met
  unfolding reconcile_node_records nodes met
  records-once = bind_records-map nodes met _

  given : (name : Text) (n : Node) → Mem (name, n) nodes → text_beq name [] ≡ false
  unfolding nodes
  given name n m = elim (Bool-cases (text_beq name [])) [
    | inl e ↦
        let empty : has_key [] nodes ≡ true =
          ap (λ k. has_key k nodes) (sym ((text_beq_iff name []).0 e))
          ∙ has_key_of_mem name n nodes m in
        absurd (cc (empty, named_key listed named))
    | inr e ↦ e
  ]

  known-once :
      (name : Text) (n : Node) → Mem (name, n) nodes → known name once.status.node_records ≡ true
  unfolding nodes met
  known-once name n m =
      ap (known name) records-once
      ∙ known-map-bind_record name nodes met
      ∙ known-discover pool.metadata.name pool.status.node_records (first nodes) name n
          (given name n m) ((Perm.mem_iff (first-perm nodes)).1 m)

  known_listed : (n : Node) → Mem n listed → known n.metadata.name once.status.node_records ≡ true
  unfolding nodes
  known_listed n m =
      let there =
        any_of_mem (λ o. text_beq o.metadata.name n.metadata.name) listed n m
          (text_beq_refl n.metadata.name) in
      let (o, found) =
        mem_of_has_key n.metadata.name nodes
          (has_key-node_by_name n.metadata.name listed [] ∙ ground (arith, there)) in
      known-once n.metadata.name o found

  discover-once : discover pool.metadata.name once.status.node_records (second nodes) ≡ []
  unfolding nodes
  discover-once =
      discover_nothing pool.metadata.name once.status.node_records (second nodes)
        (λ name n m. known-once name n ((Perm.mem_iff (second-perm nodes)).0 m))

  -- The records of the second pass are those of the first.
  abbrev zero_counts : PoolNodeCounts
  zero_counts = record { active = pos 0; buffered = pos 0; provisioning = pos 0 }

  abbrev bound_again : List NodeRecord × PoolNodeCounts
  bound_again =
      bind_records nodes
        (once.status.node_records
          ++ discover pool.metadata.name once.status.node_records (second nodes))
        zero_counts

  records-again : bound_again.0 ≡ once.status.node_records
  records-again =
      bind_records-map nodes _ zero_counts
      ∙ ap (λ new. map (bind_record nodes) (once.status.node_records ++ new)) discover-once
      ∙ ap (map (bind_record nodes)) (append-nil once.status.node_records ∙ records-once)
      ∙ map-bind_record-again nodes met
      ∙ sym records-once

  counts-again : bound_again.1 ≡ once.status.nodes
  unfolding nodes
  counts-again =
      bind_records-raised nodes _ zero_counts
      ∙ ap (raised nodes zero_counts) records-again
      ∙ sym (reconcile_node_records-counts first listed pool)

  abbrev with_bound : List NodeRecord → PoolNodeCounts → GpuPool
  with_bound rs c = record once { status = record once.status { node_records = rs; nodes = c } }

  -- When each of the passes ranges over the map of the nodes in some order of its entries, and no
  -- listed node has the empty name, then after the first pass every listed node has a record, and the
  -- second pass over the same nodes leaves the pool as it is.
  pub reconcile_node_records-again :
      All (λ n. known n.metadata.name once.status.node_records ≡ true) listed
      × (reconcile_node_records second (some listed) once ≡ once)
  unfolding reconcile_node_records nodes
  reconcile_node_records-again = (
    All-of_mem (λ n. known n.metadata.name once.status.node_records ≡ true) listed known_listed,
    ap (λ rs. with_bound rs bound_again.1) records-again
        ∙ ap (with_bound once.status.node_records) counts-again,
  )
