-- ===== src/Buffer/Reconcile.antt =====
-- Reconcile.
use opencoda.Prelude.{
  ℕ, Bool, true, false, Option, List, [], ◌∷◌, if◌then◌else◌, ◌-ℤ◌, ltb_ℤ, pos, Text,
}
use opencoda.Api.{Time, Duration, BufferPolicy}
use opencoda.Buffer.Types.{Api}
use opencoda.Buffer.Desired.{desired_warm_gpus, count_warm_gpus}
use opencoda.Buffer.Views.{build_pool_views}
use opencoda.Buffer.Provision.{provision_pool, completed, stopped, panicked}
use opencoda.Buffer.ScaleDown.{scale_down}
use opencoda.Capacity.Cache.{ProviderCache}
use opencoda.Floats.{FloatOps}
use opencoda.Results.{Error, ice, not_found, already_exists, message, ok, err}
use opencoda.Scheduler.{PlanEntry, Scheduler}

-- ctrl.Result with its error, or a panic.
pub data Outcome : Type 0 where
  done crashed : Outcome
  requeue_after : ℕ → Outcome
  failed : Error → Outcome

module _ {S : Type 0} (api : Api S) (fl : FloatOps) (scheduler : Scheduler)
    (parse : Text → Option Duration) (now : Time) where
  -- The loop over a plan's entries goes on after an error, ICE or not; false is a panic.
  unfoldable pub provision_plan :
      List PlanEntry → ProviderCache S → S → (S × ProviderCache S) × Bool
  provision_plan [] providers s = ((s, providers), true)
  provision_plan (entry ∷ entries) providers s =
      let ((s', attempt), providers') =
        provision_pool api fl entry.pool_name entry.node_count providers s in
      elim attempt [
        | panicked ↦ ((s', providers'), false)
        | completed ↦ provision_plan entries providers' s'
        | stopped e ↦ provision_plan entries providers' s'
      ]

  -- The GPUs are counted again, and written into the status.
  abbrev pub finish : BufferPolicy → S → S × Outcome
  finish policy s =
      let (s', updated) =
        api.update_policy_status
          (record policy {
            status = record policy.status {
              current_warm_gpus = count_warm_gpus api policy.spec.pools (pos 0) s;
            };
          })
          s in
      (s', elim updated [ err e ↦ failed e | ok _ ↦ requeue_after 15 ])

  abbrev pub after_plan :
      BufferPolicy → (S × ProviderCache S) × Bool → (S × Outcome) × ProviderCache S
  after_plan policy ((s, providers), false) = ((s, crashed), providers)
  after_plan policy ((s, providers), true) = (finish policy s, providers)

  unfoldable pub reconcile_policy :
      BufferPolicy → ProviderCache S → S → (S × Outcome) × ProviderCache S
  unfolding provision_plan
  reconcile_policy policy providers s =
      let current = count_warm_gpus api policy.spec.pools (pos 0) s in
      let desired = desired_warm_gpus fl policy in
      let filled : (S × Outcome) × ProviderCache S =
        elim (scheduler.fill (desired -ℤ current)
          (build_pool_views api fl now policy.spec.pools s)) [
            | err e ↦ ((s, failed e), providers)
            | ok plan ↦ after_plan policy (provision_plan plan.entries providers s)
          ] in
      let ((s', providers'), ignored) =
        scale_down api parse now policy (current -ℤ desired) providers s in
      if ltb_ℤ current desired
      then filled
      else if ltb_ℤ desired current
      then (finish policy s', providers')
      else (finish policy s, providers)

  unfoldable pub reconcile : Text → ProviderCache S → S → (S × Outcome) × ProviderCache S
  unfolding reconcile_policy
  reconcile name providers s = elim (api.get_policy name s) [
    | err not_found ↦ ((s, done), providers)
    | err already_exists ↦ ((s, failed already_exists), providers)
    | err ice ↦ ((s, failed ice), providers)
    | err (message m) ↦ ((s, failed (message m)), providers)
    | ok policy ↦ reconcile_policy policy providers s
  ]
