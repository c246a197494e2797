-- ===== src/Pool/Records/Known.antt =====
-- Which names are known after a pass, and what binding a record again does.
use opencoda.Prelude.{
  ◌≡◌, refl, sym, ap, ◌∙◌, inl, inr, true, false, ◌||◌, List, [], ◌∷◌, ◌++◌, map, arith, Bool-cases,
  Option-cases, Text, text_beq, text_beq_refl, Dict,
}
use mathlib.Core.Bool.{Bool-set}
use mathlib.Core.List.{Mem, mem-cons_self, mem-cons_of_mem, not-mem-nil, eq-or-mem_of_mem-cons}
use mathlib.Core.Logic.Or
use opencoda.Api.{NodeRecord, PoolNodeCounts}
use opencoda.Api.Cluster.{Node}
use opencoda.Pool.Records.{
  known, discovered, discover, node_of, state_of, bind_record, bind_records,
}

known-append :
    (name : Text) (xs ys : List NodeRecord)
    → known name (xs ++ ys) ≡ (known name xs || known name ys)
unfolding known
known-append name [] ys = refl
known-append name (x ∷ xs) ys = ground (arith, known-append name xs ys)

node_name-bind_record :
    (nodes : Dict Node) (r : NodeRecord) → (bind_record nodes r).node_name ≡ r.node_name
unfolding bind_record
node_name-bind_record nodes r = elim (Option-cases (node_of nodes r)) [
  | inl e ↦ rw (bind_record, e) refl
  | inr (n, e) ↦ rw (bind_record, e) refl
]

pub known-map-bind_record :
    (name : Text) (nodes : Dict Node) (rs : List NodeRecord)
    → known name (map (bind_record nodes) rs) ≡ known name rs
unfolding known bind_record
known-map-bind_record name nodes [] = refl
known-map-bind_record name nodes (r ∷ rs) =
    let same = node_name-bind_record nodes r in
    let rest = known-map-bind_record name nodes rs in ground (arith, same, rest)

pub bind_records-map :
    (nodes : Dict Node) (rs : List NodeRecord) (c : PoolNodeCounts)
    → (bind_records nodes rs c).0 ≡ map (bind_record nodes) rs
unfolding bind_records
bind_records-map nodes [] c = refl
bind_records-map nodes (r ∷ rs) c =
    ap (λ xs. bind_record nodes r ∷ xs) (bind_records-map nodes rs _)

bind_record-again :
    (nodes : Dict Node) (r : NodeRecord)
    → bind_record nodes (bind_record nodes r) ≡ bind_record nodes r
unfolding bind_record
bind_record-again nodes r = elim (Option-cases (node_of nodes r)) [
  | inl e ↦
      let kept : bind_record nodes r ≡ r = rw (bind_record, e) refl in ap (bind_record nodes) kept
  | inr (n, e) ↦
      let bound : bind_record nodes r ≡ record r { state = state_of n } =
        rw (bind_record, e) refl in
      ap (bind_record nodes) bound ∙ rw (bind_record, e) refl ∙ sym bound
]

pub map-bind_record-again :
    (nodes : Dict Node) (rs : List NodeRecord)
    → map (bind_record nodes) (map (bind_record nodes) rs) ≡ map (bind_record nodes) rs
map-bind_record-again nodes [] = refl
map-bind_record-again nodes (r ∷ rs) =
    cc (bind_record-again nodes r, map-bind_record-again nodes rs)

known-discovered :
    (pool_name name key : Text) (rs : List NodeRecord)
    → text_beq name [] ≡ false
    → name ≡ key
    → known name (discovered pool_name key ∷ rs) ≡ true
unfolding known discovered
known-discovered pool_name name key rs given same = rw (sym same, given, text_beq_refl name) refl

known_behind :
    (name : Text) (rs : List NodeRecord) (r : NodeRecord) (more : List NodeRecord)
    → (known name rs || known name more) ≡ true
    → (known name rs || known name (r ∷ more)) ≡ true
unfolding known
known_behind name rs r more h = ground (arith, h)

-- After the range, the name of every node that it met is known.
pub known-discover :
    (pool_name : Text) (rs : List NodeRecord) (visited : Dict Node) (name : Text) (n : Node)
    → text_beq name [] ≡ false
    → Mem (name, n) visited
    → known name (rs ++ discover pool_name rs visited) ≡ true
unfolding discover
known-discover pool_name rs [] name n given m = absurd (not-mem-nil m)
known-discover pool_name rs ((key, node) ∷ visited) name n given m =
    Or.elim (Bool-set _ _) (eq-or-mem_of_mem-cons m)
      (λ e.
        let same : name ≡ key = ap (λ q. q.0) e in
        let split = known-append name rs in
        elim (Bool-cases (known key rs)) [
          | inl old ↦ rw old (split (discover pool_name rs visited) ∙ ground (arith, same, old))
          | inr new ↦ rw new (
              split (discovered pool_name key ∷ discover pool_name rs visited)
              ∙ ground (
                arith,
                same,
                known-discovered pool_name name key (discover pool_name rs visited) given same,
              ))
        ])
      (λ k.
        let split = known-append name rs in
        let rest = known-discover pool_name rs visited name n given k in
        elim (Bool-cases (known key rs)) [
          | inl old ↦ rw old rest
          | inr new ↦ rw new (
              split (discovered pool_name key ∷ discover pool_name rs visited)
              ∙ known_behind name rs (discovered pool_name key) (discover pool_name rs visited)
                  (sym (split (discover pool_name rs visited)) ∙ rest))
        ])

pub discover_nothing :
    (pool_name : Text) (rs : List NodeRecord) (visited : Dict Node)
    → ((name : Text) (n : Node) → Mem (name, n) visited → known name rs ≡ true)
    → discover pool_name rs visited ≡ []
unfolding discover
discover_nothing pool_name rs [] h = refl
discover_nothing pool_name rs ((name, n) ∷ visited) h =
    rw (h name n mem-cons_self)
      (discover_nothing pool_name rs visited (λ k v m. h k v (mem-cons_of_mem (name, n) m)))
