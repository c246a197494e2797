-- ===== src/Endpoint/Desired.antt =====
-- desiredReplicas: how many replicas an endpoint should have, from the gateway's annotation. The
-- map idleSince remembers when an endpoint was first asked to go to zero. One reading of the
-- clock, `now`, serves the call.
pub mod Bounds
use opencoda.Prelude.{
  ◌+◌, not, ◌&&◌, Option, none, some, [], ◌∷◌, ◌++◌, nat_beq, if◌then◌else◌, pos_part, neg_part,
  ◌-ℤ◌, ltb_ℤ, ℤ, pos, Text, text_beq, atoi, Dict, lookup, insert, erase,
}
use opencoda.Api.{Time, Duration, ObjectMeta, CodaEndpoint}
use opencoda.Constants.{annotation_desired_replicas}

-- ep.Namespace + "/" + ep.Name
abbrev pub key_of : ObjectMeta → Text
key_of m = m.namespace ++ (b'/' ∷ m.name)

-- The last lines: the minimum if it is positive, else 0.
abbrev pub fallback : CodaEndpoint → ℤ
fallback ep =
    if ltb_ℤ (pos 0) ep.spec.scaling.min_replicas then ep.spec.scaling.min_replicas else pos 0

abbrev pub clamp : ℤ → ℤ → ℤ → ℤ
clamp min max n = if ltb_ℤ n min then min else if ltb_ℤ max n then max else n

-- The branch that keeps the minimum until the endpoint has been idle for `d`.
abbrev idle_branch : CodaEndpoint → Time → Dict Time → Duration → Dict Time × ℤ
idle_branch ep now idle_since d =
    let key = key_of ep.metadata in
    let started : Time = elim (lookup key idle_since) [ none ↦ now | some t ↦ t ] in
    (
      elim (lookup key idle_since) [ none ↦ insert key now idle_since | some t ↦ idle_since ],
      if ltb_ℤ (now -ℤ started) d then ep.spec.scaling.min_replicas else fallback ep,
    )

abbrev asked_branch : (Text → Option Duration) → CodaEndpoint → Time → Dict Time → ℤ → Dict Time × ℤ
asked_branch parse_duration ep now idle_since n =
    if nat_beq (pos_part n + neg_part n) 0 && not (text_beq ep.spec.scaling.scale_to_zero_after [])
    then (elim (parse_duration ep.spec.scaling.scale_to_zero_after) [
      | none ↦ (idle_since, fallback ep)
      | some d ↦ idle_branch ep now idle_since d
    ])
    else (
      erase (key_of ep.metadata) idle_since,
      clamp ep.spec.scaling.min_replicas ep.spec.scaling.max_replicas n,
    )

unfoldable pub desired_replicas :
    (Text → Option Duration) → CodaEndpoint → Time → Dict Time → Dict Time × ℤ
unfolding text_beq
desired_replicas parse_duration ep now idle_since =
    elim (lookup annotation_desired_replicas ep.metadata.annotations) [
      | none ↦ (idle_since, fallback ep)
      | some ann ↦ elim (atoi ann) [
        | none ↦ (idle_since, fallback ep)
        | some n ↦ asked_branch parse_duration ep now idle_since n
      ]
    ]
