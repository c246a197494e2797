-- ===== src/Pool/Records/Counts.antt =====
-- What the counters of a pool count.
use opencoda.Prelude.{
  ℕ, ◌+◌, ◌≡◌, sym, ap, ◌∙◌, inl, inr, Bool, true, false, none, some, List, [], ◌∷◌, ◌++◌, arith,
  if◌then◌else◌, Bool-cases, Option-cases, count, ◌+ℤ◌, eq_of_parts, ℤ, int_laws, pos, Text, bytes,
  text_beq, Dict,
}
use opencoda.Api.{GpuPool, NodeRecord, PoolNodeCounts}
use opencoda.Api.Cluster.{Node}
use opencoda.Pool.Records.{
  node_by_name, discover, node_of, eligible, bind_record, bind_records, reconcile_node_records,
}

-- A record in the given state, whose node is listed.
abbrev pub is_bound : Dict Node → Text → NodeRecord → Bool
is_bound nodes state r = elim (node_of nodes r) [ none ↦ false | some n ↦ text_beq r.state state ]

-- A record that waits for its node.
abbrev pub is_waiting : Dict Node → NodeRecord → Bool
is_waiting nodes r = elim (node_of nodes r) [
  | none ↦ text_beq r.state (bytes "provisioning")
  | some n ↦ false
]

-- Counters that are larger by so many records.
abbrev pub raised : Dict Node → PoolNodeCounts → List NodeRecord → PoolNodeCounts
raised nodes c rs = record {
  active = c.active +ℤ pos (count (is_bound nodes (bytes "active")) rs);
  buffered = c.buffered +ℤ pos (count (is_bound nodes (bytes "buffered")) rs);
  provisioning = c.provisioning +ℤ pos (count (is_waiting nodes) rs);
}

add_zero : (a : ℤ) → a ≡ a +ℤ pos 0
add_zero a = eq_of_parts a (a +ℤ pos 0) (omega int_laws)

-- A counter that first rises by one or not at all.
step :
    (a : ℤ) (b : Bool) (n : ℕ)
    → (if b then a +ℤ pos 1 else a) +ℤ pos n ≡ a +ℤ pos ((if b then 1 else 0) + n)
step a true n = eq_of_parts (a +ℤ pos 1 +ℤ pos n) (a +ℤ pos (1 + n)) (omega (arith, int_laws))
step a false n = eq_of_parts (a +ℤ pos n) (a +ℤ pos (0 + n)) (omega (arith, int_laws))

counts_eq :
    (c d : PoolNodeCounts)
    → c.active ≡ d.active
    → c.buffered ≡ d.buffered
    → c.provisioning ≡ d.provisioning
    → c ≡ d
counts_eq c d a b p = cc (a, b, p)

raised_head :
    (nodes : Dict Node) (r : NodeRecord) (rs : List NodeRecord) (c c' : PoolNodeCounts)
    → c'.active ≡ (if is_bound nodes (bytes "active") r then c.active +ℤ pos 1 else c.active)
    → c'.buffered
      ≡ (if is_bound nodes (bytes "buffered") r then c.buffered +ℤ pos 1 else c.buffered)
    → c'.provisioning ≡ (if is_waiting nodes r then c.provisioning +ℤ pos 1 else c.provisioning)
    → raised nodes c' rs ≡ raised nodes c (r ∷ rs)
raised_head nodes r rs c c' a b p =
    counts_eq (raised nodes c' rs) (raised nodes c (r ∷ rs))
      (ap (λ x. x +ℤ pos (count (is_bound nodes (bytes "active")) rs)) a
        ∙ step c.active (is_bound nodes (bytes "active") r) _)
      (ap (λ x. x +ℤ pos (count (is_bound nodes (bytes "buffered")) rs)) b
        ∙ step c.buffered (is_bound nodes (bytes "buffered") r) _)
      (ap (λ x. x +ℤ pos (count (is_waiting nodes) rs)) p
        ∙ step c.provisioning (is_waiting nodes r) _)

-- What is asked of a record at the head, by the node it is of.
bound_none :
    (nodes : Dict Node) (r : NodeRecord) (state : Text)
    → node_of nodes r ≡ none
    → is_bound nodes state r ≡ false
bound_none nodes r state e = ap (λ o. elim o [ none ↦ false | some n ↦ text_beq r.state state ]) e

bound_some :
    (nodes : Dict Node) (r : NodeRecord) (state : Text) (n : Node)
    → node_of nodes r ≡ some n
    → is_bound nodes state r ≡ text_beq r.state state
bound_some nodes r state n e = ap (λ o. elim o [ none ↦ false | some n ↦ text_beq r.state state ]) e

waiting_none :
    (nodes : Dict Node) (r : NodeRecord)
    → node_of nodes r ≡ none
    → is_waiting nodes r ≡ text_beq r.state (bytes "provisioning")
waiting_none nodes r e =
    ap (λ o. elim o [ none ↦ text_beq r.state (bytes "provisioning") | some n ↦ false ]) e

waiting_some :
    (nodes : Dict Node) (r : NodeRecord) (n : Node)
    → node_of nodes r ≡ some n
    → is_waiting nodes r ≡ false
waiting_some nodes r n e =
    ap (λ o. elim o [ none ↦ text_beq r.state (bytes "provisioning") | some n ↦ false ]) e

pub bind_records-raised :
    (nodes : Dict Node) (rs : List NodeRecord) (c : PoolNodeCounts)
    → (bind_records nodes rs c).1 ≡ raised nodes c (bind_records nodes rs c).0
unfolding bind_records text_beq
bind_records-raised nodes [] c =
    counts_eq c (raised nodes c []) (add_zero c.active) (add_zero c.buffered)
      (add_zero c.provisioning)
bind_records-raised nodes (r ∷ rs) c = elim (Option-cases (node_of nodes r)) [
  | inl e ↦
      rw (e, bind_record)
        (bind_records-raised nodes rs _
          ∙ raised_head nodes r _ c
              (record c {
                provisioning =
                    if text_beq r.state (bytes "provisioning")
                    then c.provisioning +ℤ pos 1
                    else c.provisioning;
              })
              (ap (λ b. if b then c.active +ℤ pos 1 else c.active)
                (sym (bound_none nodes r (bytes "active") e)))
              (ap (λ b. if b then c.buffered +ℤ pos 1 else c.buffered)
                (sym (bound_none nodes r (bytes "buffered") e)))
              (ap (λ b. if b then c.provisioning +ℤ pos 1 else c.provisioning)
                (sym (waiting_none nodes r e))))
  | inr (n, e) ↦ elim (Bool-cases n.unschedulable) [
    | inl cordoned ↦
        rw (e, cordoned, bind_record)
          (bind_records-raised nodes rs c
            ∙ raised_head nodes (record r { state = bytes "draining" }) _ c c
                (ap (λ b. if b then c.active +ℤ pos 1 else c.active)
                  (sym (
                    bound_some nodes (record r { state = bytes "draining" }) (bytes "active") n e)))
                (ap (λ b. if b then c.buffered +ℤ pos 1 else c.buffered)
                  (sym (
                    bound_some nodes (record r { state = bytes "draining" }) (bytes "buffered") n
                      e)))
                (ap (λ b. if b then c.provisioning +ℤ pos 1 else c.provisioning)
                  (sym (waiting_some nodes (record r { state = bytes "draining" }) n e))))
    | inr usable ↦ elim (Bool-cases (eligible n)) [
      | inl warm ↦
          rw (e, usable, warm, bind_record)
            (bind_records-raised nodes rs (record c { buffered = c.buffered +ℤ pos 1 })
              ∙ raised_head nodes (record r { state = bytes "buffered" }) _ c
                  (record c { buffered = c.buffered +ℤ pos 1 })
                  (ap (λ b. if b then c.active +ℤ pos 1 else c.active)
                    (sym (
                      bound_some nodes (record r { state = bytes "buffered" }) (bytes "active") n
                        e)))
                  (ap (λ b. if b then c.buffered +ℤ pos 1 else c.buffered)
                    (sym (
                      bound_some nodes (record r { state = bytes "buffered" }) (bytes "buffered") n
                        e)))
                  (ap (λ b. if b then c.provisioning +ℤ pos 1 else c.provisioning)
                    (sym (waiting_some nodes (record r { state = bytes "buffered" }) n e))))
      | inr cold ↦
          rw (e, usable, cold, bind_record)
            (bind_records-raised nodes rs (record c { active = c.active +ℤ pos 1 })
              ∙ raised_head nodes (record r { state = bytes "active" }) _ c
                  (record c { active = c.active +ℤ pos 1 })
                  (ap (λ b. if b then c.active +ℤ pos 1 else c.active)
                    (sym (
                      bound_some nodes (record r { state = bytes "active" }) (bytes "active") n e)))
                  (ap (λ b. if b then c.buffered +ℤ pos 1 else c.buffered)
                    (sym (
                      bound_some nodes (record r { state = bytes "active" }) (bytes "buffered") n
                        e)))
                  (ap (λ b. if b then c.provisioning +ℤ pos 1 else c.provisioning)
                    (sym (waiting_some nodes (record r { state = bytes "active" }) n e))))
    ]
  ]
]

pub reconcile_node_records-counts :
    (visit : Dict Node → Dict Node) (listed : List Node) (pool : GpuPool)
    → (reconcile_node_records visit (some listed) pool).status.nodes
      ≡ raised
          (node_by_name listed [])
          (record { active = pos 0; buffered = pos 0; provisioning = pos 0 })
          (reconcile_node_records visit (some listed) pool).status.node_records
unfolding reconcile_node_records
reconcile_node_records-counts visit listed pool =
    bind_records-raised (node_by_name listed [])
      (pool.status.node_records
        ++ discover pool.metadata.name pool.status.node_records (visit (node_by_name listed [])))
      (record { active = pos 0; buffered = pos 0; provisioning = pos 0 })
