-- ===== src/Buffer/Provision/Started.antt =====
-- What the loop of provisionPool adds to a pool.
use opencoda.Prelude.{
  ℕ, zero, suc, ◌+◌, ◌≤◌, ◌≡◌, refl, ap, ◌∙◌, ◌↔◌, ◌⊎◌, map, inl, inr, none, some, List, [], ◌∷◌,
  ◌++◌, arith, length, get_elem?, ◌+ℤ◌, eq_of_parts, ℤ, int_laws, pos, Text, bytes,
}
use opencoda.Api.{NodeRecord, GpuPool}
use opencoda.Capacity.{Call, panics, returns, Offer, NodeHandle, CapacityProvider}
use opencoda.Results.{Error, Result, ok, err}
use opencoda.Buffer.Provision.{with_record, provision_nodes, completed}

-- The record of a node that was started for a pool.
abbrev pub record_of : Text → NodeHandle → NodeRecord
record_of pool_name handle = record {
  provider_id = handle.provider_id;
  node_name = handle.node_name;
  state = bytes "provisioning";
  launched_at = handle.launched_at;
  pool_name = pool_name;
}

-- The handles that a provider gives in so many calls of Provision, until one of them gives none:
-- from the offer at `i` on, with the first offer where there are no more.
abbrev pub got : {S : Type 0} → CapacityProvider S → List Offer → ℕ → ℕ → S → List NodeHandle
got provider offers zero i s = []
got provider [] (suc rounds) i s = []
got provider (first ∷ others) (suc rounds) i s =
    let offer : Offer = elim (get_elem? (first ∷ others) i) [ none ↦ first | some o ↦ o ] in
    let (s', answer) = provider.provision offer s in
    let rest = got provider (first ∷ others) rounds (i + 1) s' in
    elim answer [ panics ↦ [] | returns (err e) ↦ [] | returns (ok handle) ↦ handle ∷ rest ]

-- The records of the nodes were appended in their order, and the counter rose by their number.
pub record Started (pool_name : Text) (nodes : List NodeHandle) (pool pool' : GpuPool)
    : Type 0 where
  pub appended :
      pool'.status.node_records ≡ pool.status.node_records ++ map (record_of pool_name) nodes
  pub counted :
      pool'.status.nodes.provisioning ≡ pool.status.nodes.provisioning +ℤ pos (length nodes)

add_assoc : (a : ℤ) (n : ℕ) → (a +ℤ pos 1) +ℤ pos n ≡ a +ℤ pos (suc n)
add_assoc a n = eq_of_parts (a +ℤ pos 1 +ℤ pos n) (a +ℤ pos (suc n)) (omega (arith, int_laws))

append_assoc :
    (xs : List NodeRecord) (r : NodeRecord) (ys : List NodeRecord)
    → (xs ++ (r ∷ [])) ++ ys ≡ xs ++ (r ∷ ys)
append_assoc [] r ys = refl
append_assoc (x ∷ xs) r ys = ap (◌∷◌ x) (append_assoc xs r ys)

append_nil : (xs : List NodeRecord) → xs ≡ xs ++ []
append_nil [] = refl
append_nil (x ∷ xs) = ap (◌∷◌ x) (append_nil xs)

nothing : (pool_name : Text) (pool : GpuPool) → Started pool_name [] pool pool
nothing pool_name pool = record {
  appended = append_nil pool.status.node_records;
  counted = eq_of_parts _ (pool.status.nodes.provisioning +ℤ pos 0) (omega (arith, int_laws));
}

one_more :
    {pool_name : Text} {nodes : List NodeHandle} (handle : NodeHandle) {pool pool' : GpuPool}
    → Started pool_name nodes (with_record pool_name handle pool) pool'
    → Started pool_name (handle ∷ nodes) pool pool'
one_more {pool_name} {nodes} handle {pool} st = record {
  appended =
      st.appended
      ∙ append_assoc pool.status.node_records (record_of pool_name handle)
          (map (record_of pool_name) nodes);
  counted = st.counted ∙ add_assoc pool.status.nodes.provisioning (length nodes);
}

Call-cases :
    {A : Type 0} (c : Call (Result A))
    → (c ≡ panics) ⊎ (((e : Error) × (c ≡ returns (err e))) ⊎ ((a : A) × (c ≡ returns (ok a))))
Call-cases panics = inl refl
Call-cases (returns (err e)) = inr (inl (e, refl))
Call-cases (returns (ok a)) = inr (inr (a, refl))

-- On every path, an error or a panic of the provider included, the loop appends one record for each
-- node that the provider gave, with that node's id, name and time of launch, in their order, and
-- raises the counter by their number; and it ends without error exactly when the provider gave as
-- many nodes as the loop has rounds.
pub provision_nodes-Started :
    {S : Type 0} (provider : CapacityProvider S) (pool_name : Text) (offers : List Offer)
    (rounds i : ℕ) (pool : GpuPool) (s : S)
    → Started pool_name
        (got provider offers rounds i s)
        pool
        (provision_nodes provider pool_name offers rounds i pool s).2
      × (length (got provider offers rounds i s) ≤ rounds)
      × ((provision_nodes provider pool_name offers rounds i pool s).1 ≡ completed
          ↔ (length (got provider offers rounds i s) ≡ rounds))
unfolding provision_nodes
provision_nodes-Started provider pool_name offers zero i pool s =
    (nothing pool_name pool, omega arith, ((λ e. refl), (λ e. refl)))
provision_nodes-Started provider pool_name [] (suc rounds) i pool s =
    (nothing pool_name pool, omega arith, ((λ e. absurd (cc e)), (λ e. absurd (omega (arith, e)))))
provision_nodes-Started provider pool_name (first ∷ others) (suc rounds) i pool s =
    let offer : Offer = elim (get_elem? (first ∷ others) i) [ none ↦ first | some o ↦ o ] in
    elim (Call-cases (provider.provision offer s).1) [
      | inl broke ↦
          rw (broke, provision_nodes, got)
            (
              nothing pool_name pool,
              omega arith,
              ((λ q. absurd (cc q)), (λ q. absurd (omega (arith, q)))),
            )
      | inr (inl (e, bad)) ↦
          rw (bad, provision_nodes, got)
            (
              nothing pool_name pool,
              omega arith,
              ((λ q. absurd (cc q)), (λ q. absurd (omega (arith, q)))),
            )
      | inr (inr (handle, good)) ↦
          rw (good, provision_nodes, got)
            (let (st, most, ends) =
                provision_nodes-Started provider pool_name (first ∷ others) rounds (i + 1)
                  (with_record pool_name handle pool) (provider.provision offer s).0 in
              (
                one_more handle st,
                omega arith,
                ((λ q. omega (arith, ends.0 q)), (λ q. ends.1 (omega (arith, q)))),
              ))
    ]
