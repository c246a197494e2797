-- ===== src/Endpoint/Count/Generations.antt =====
-- How the pods of an endpoint fall into the current generation and the others.
use opencoda.Prelude.{
  ◌+◌, ◌≤◌, ◌≡◌, refl, false, ◌&&◌, List, [], ◌∷◌, arith, length, count, Text, text_beq,
}
use opencoda.Api.Cluster.{Pod, pod_ready}
use opencoda.Endpoint.Count.{counted, count_pods}

-- The pods that are counted, and the ready ones among them, by plain counting.
pub count_pods-count :
    (current spec_hash : Text) (ps : List Pod)
    → (count_pods current spec_hash ps).0
        ≡ count (λ p. counted current spec_hash p && pod_ready p.conditions) ps
      × ((count_pods current spec_hash ps).1 ≡ count (counted current spec_hash) ps)
unfolding count_pods
count_pods-count current spec_hash [] = (refl, refl)
count_pods-count current spec_hash (p ∷ ps) = ground (arith, count_pods-count current spec_hash ps)

-- For a current hash that is not empty, counting the current hash and counting the others takes
-- every pod once, ready or not, and no more pods are ready than there are.
pub count_pods-generations :
    (current : Text) (ps : List Pod)
    → text_beq current [] ≡ false
    → ((count_pods current current ps).1 + (count_pods current [] ps).1 ≡ length ps)
      × ((count_pods current current ps).0 + (count_pods current [] ps).0
          ≡ count (λ p. pod_ready p.conditions) ps)
      × ((count_pods current current ps).0 ≤ (count_pods current current ps).1)
unfolding count_pods
count_pods-generations current [] h = (refl, refl, omega arith)
count_pods-generations current (p ∷ ps) h = ground (arith, h, count_pods-generations current ps)
