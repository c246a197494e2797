-- ===== src/Endpoint/ColdStart/Window.antt =====
-- The window of samples and which pods are recorded.
use opencoda.Prelude.{
  ℕ, ◌-◌, ◌≤◌, ◌≡◌, inl, inr, false, List, [], ◌∷◌, ◌++◌, arith, Bool-cases, length, length-drop,
  All, bytes, text_beq, get_or-insert_self,
}
use opencoda.Api.{Time, Float64, ColdStartMetrics}
use opencoda.Api.Cluster.{Pod}
use opencoda.Clock.{Clock}
use opencoda.Constants.{annotation_cold_start_recorded}
use opencoda.Floats.{FloatOps}
use opencoda.Scheduler.Sort.{SortSlice}
use opencoda.Endpoint.ColdStart.{keep_last, marked, elapsed_of, is_new, record_pods}

length-keep_last : (n : ℕ) (xs : List Float64) → length (keep_last n xs) ≤ n
unfolding keep_last
length-keep_last n xs = ground (arith, length-drop (length xs - n) xs)

module _ (fl : FloatOps) (s : SortSlice Float64) (clock : Clock) (now : Time) where
  -- The samples of an endpoint never pass fifty, if they did not before.
  pub length-record_pods :
      (ps : List Pod) (samples : List Float64) (m : ColdStartMetrics)
      → length samples ≤ 50
      → length (record_pods fl s clock now ps samples m).0 ≤ 50
  unfolding record_pods
  length-record_pods [] samples m h = h
  length-record_pods (p ∷ ps) samples m h = elim (Bool-cases (is_new fl s clock now p)) [
    | inl e ↦ rw e (
        length-record_pods ps _ _
          (length-keep_last 50 (samples ++ (elapsed_of fl s clock now p ∷ []))))
    | inr e ↦ rw e (length-record_pods ps samples m h)
  ]

  marked_is_old : (p : Pod) → is_new fl s clock now (marked p) ≡ false
  unfolding is_new text_beq
  marked_is_old p = rw (
    is_new,
    get_or-insert_self p.metadata.annotations annotation_cold_start_recorded (bytes "true") [],
  )

  -- A pod that has been recorded is not recorded again: whatever is patched is no longer new.
  pub record_pods-once :
      (ps : List Pod) (samples : List Float64) (m : ColdStartMetrics)
      → All (λ p. is_new fl s clock now p ≡ false) (record_pods fl s clock now ps samples m).2
  unfolding record_pods
  record_pods-once [] samples m = tt
  record_pods-once (p ∷ ps) samples m = elim (Bool-cases (is_new fl s clock now p)) [
    | inl e ↦ rw e (marked_is_old p, record_pods-once ps _ _)
    | inr e ↦ rw e (record_pods-once ps samples m)
  ]
