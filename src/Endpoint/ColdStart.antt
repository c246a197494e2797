-- ===== src/Endpoint/ColdStart.antt =====
-- recordColdStarts and percentileMs: how long a pod took to become ready, once for each pod.
pub mod Window
use opencoda.Prelude.{
  ℕ, ◌+◌, ◌-◌, Bool, not, ◌&&◌, none, some, List, [], ◌∷◌, ◌++◌, ltb, leb, nat_beq, if◌then◌else◌,
  length, get_elem?, drop, pos_part, ◌-ℤ◌, ℤ, pos, bytes, text_beq, get_or, insert,
}
use opencoda.Api.{Time, Float64, ColdStartMetrics}
use opencoda.Api.Cluster.{Pod, pod_ready}
use opencoda.Clock.{Clock}
use opencoda.Constants.{annotation_cold_start_recorded, annotation_pod_created_at}
use opencoda.Floats.{FloatOps}
use opencoda.Scheduler.Sort.{SortSlice}

-- The last 50 of the samples.
unfoldable pub keep_last : ℕ → List Float64 → List Float64
keep_last limit samples =
    if ltb limit (length samples) then drop (length samples - limit) samples else samples

abbrev pub marked : Pod → Pod
marked p = record p {
  metadata = record p.metadata {
    annotations = insert annotation_cold_start_recorded (bytes "true") p.metadata.annotations;
  };
}

module _ (fl : FloatOps) (s : SortSlice Float64) where
  -- sorted[i]; the index is in range where this is called.
  abbrev sample_at : List Float64 → ℕ → Float64
  sample_at sorted i = elim (get_elem? sorted i) [ none ↦ fl.ratio 0 1 | some x ↦ x ]

  -- int64(x * 1000)
  abbrev millis : Float64 → ℤ
  millis x = fl.trunc (fl.mul x (fl.ratio 1000 1))

  -- The closure idx, at the fraction `p`.
  unfoldable pub percentile_at : List Float64 → Float64 → ℤ
  percentile_at sorted p =
      let n = length sorted in
      let rank = fl.mul p (fl.of_int (pos (n - 1))) in
      let lo = pos_part (fl.trunc rank) in
      let frac = fl.sub rank (fl.of_int (pos lo)) in
      if nat_beq n 1
      then millis (sample_at sorted 0)
      else if leb n (lo + 1)
      then millis (sample_at sorted (n - 1))
      else millis (
          fl.add (fl.mul (sample_at sorted lo) (fl.sub (fl.ratio 1 1) frac))
            (fl.mul (sample_at sorted (lo + 1)) frac))

  unfoldable pub percentile_ms : List Float64 → Float64 → Float64 → ℤ × ℤ
  unfolding percentile_at
  percentile_ms samples p q =
      let sorted = s.sort fl.less samples in
      if nat_beq (length samples) 0
      then (pos 0, pos 0)
      else (percentile_at sorted p, percentile_at sorted q)

  module _ (clock : Clock) (now : Time) where
    -- The start that the pod's annotation gives, or its creation time.
    unfoldable pub start_of : Pod → Time
    unfolding text_beq
    start_of p =
        let noted = get_or p.metadata.annotations annotation_pod_created_at [] in
        let created_at =
          if text_beq noted [] then clock.format_time p.metadata.creation_timestamp else noted in
        elim (clock.parse_time created_at) [ none ↦ p.metadata.creation_timestamp | some t ↦ t ]

    unfoldable pub elapsed_of : Pod → Float64
    unfolding start_of
    elapsed_of p =
        let elapsed = clock.seconds (now -ℤ start_of p) in
        if fl.less elapsed (fl.ratio 0 1) then fl.ratio 0 1 else elapsed

    -- Whether the pod is ready and not yet recorded.
    unfoldable pub is_new : Pod → Bool
    is_new p =
        not (
          text_beq (get_or p.metadata.annotations annotation_cold_start_recorded []) (bytes "true"))
        && pod_ready p.conditions

    -- The loop: the samples of the endpoint, its metrics, and the pods that are patched, in order.
    -- A failed patch is ignored.
    unfoldable pub record_pods :
        List Pod → List Float64 → ColdStartMetrics → List Float64 × ColdStartMetrics × List Pod
    unfolding keep_last percentile_ms elapsed_of is_new
    record_pods [] samples m = (samples, m, [])
    record_pods (p ∷ ps) samples m =
        let samples' = keep_last 50 (samples ++ (elapsed_of p ∷ [])) in
        let (p50, p95) = percentile_ms samples' (fl.ratio 50 100) (fl.ratio 95 100) in
        let skipped = record_pods ps samples m in
        let taken : List Float64 × ColdStartMetrics × List Pod =
          let (end, m', patched) =
            record_pods ps samples' (record { p50_ms = p50; p95_ms = p95 }) in
          (end, m', marked p ∷ patched) in
        if is_new p then taken else skipped
