-- ===== src/Endpoint/Count.antt =====
-- computeSpecHash, countReplicaPods and setRolloutCondition. The hash, the first eight bytes of
-- SHA-256 in hexadecimal, is an argument.
pub mod Generations
use opencoda.Prelude.{
  ℕ, ◌+◌, Bool, true, false, not, Option, none, some, List, [], ◌∷◌, ◌++◌, ltb, if◌then◌else◌,
  ltb_ℤ, ℤ, pos, Text, bytes, text_beq, get_or,
}
use opencoda.Api.{Time, Condition, CodaEndpoint}
use opencoda.Api.Cluster.{Pod, pod_ready}
use opencoda.Constants.{annotation_spec_hash}

-- strings.Join
unfoldable pub join : Text → List Text → Text
join sep [] = []
join sep (w ∷ []) = w
join sep (w ∷ x ∷ ws) = w ++ (sep ++ join sep (x ∷ ws))

unfoldable pub compute_spec_hash : (Text → Text) → CodaEndpoint → Text
compute_spec_hash hash ep = hash (
    join (bytes "|") (
      ep.spec.engine.version
      ∷ ep.spec.model.source
      ∷ ep.spec.model.quantization
      ∷ join (bytes ",") ep.spec.engine.args
      ∷ []))

-- p.Annotations[opencoda.dev/spec-hash]
abbrev pub pod_hash : Pod → Text
pod_hash p = get_or p.metadata.annotations annotation_spec_hash []

-- Whether a pod is counted for `spec_hash`; the empty text counts every pod but the current ones.
unfoldable pub counted : Text → Text → Pod → Bool
unfolding text_beq
counted current spec_hash p =
    if text_beq spec_hash []
    then not (text_beq (pod_hash p) current)
    else text_beq (pod_hash p) spec_hash

-- The two results, (ready, total).
unfoldable pub count_pods : Text → Text → List Pod → ℕ × ℕ
unfolding counted
count_pods current spec_hash [] = (0, 0)
count_pods current spec_hash (p ∷ ps) =
    let (ready, total) = count_pods current spec_hash ps in
    if counted current spec_hash p
    then ((if pod_ready p.conditions then ready + 1 else ready), total + 1)
    else (ready, total)

-- `listed` is the result of listing the endpoint's pods.
unfoldable pub count_replica_pods : (Text → Text) → CodaEndpoint → Option (List Pod) → Text → ℕ × ℕ
unfolding count_pods
count_replica_pods hash ep none spec_hash = (0, 0)
count_replica_pods hash ep (some pods) spec_hash =
    count_pods (compute_spec_hash hash ep) spec_hash pods

unfoldable pub rollout_condition : Time → ℕ → ℕ → ℤ → Condition
rollout_condition now new_ready old_ready desired =
    let progressing =
      if ltb 0 old_ready then true else if ltb_ℤ (pos new_ready) desired then true else false in
    record {
      kind = bytes "RolloutProgressing";
      status = if progressing then bytes "True" else bytes "False";
      reason = bytes "RollingUpdate";
      message =
          if ltb 0 old_ready
          then bytes "draining old generation"
          else if ltb_ℤ (pos new_ready) desired
          then bytes "surging new generation"
          else bytes "rollout complete";
      last_transition_time = now;
    }
