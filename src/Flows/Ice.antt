-- ===== src/Flows/Ice.antt =====
-- From a lack of capacity at a provider through the status of the pool to the scheduler's view of it.
use opencoda.Prelude.{
  ◌≡◌, refl, sym, ap, ◌∙◌, some, [], ◌∷◌, ◌++◌, if◌then◌else◌, last?, last?-append_one, ◌-ℤ◌, ltb_ℤ,
  Text,
}
use opencoda.Api.{Time, GpuPool}
use opencoda.Buffer.Views.{ice_window, pool_view}
use opencoda.Capacity.{returns, Offer, CapacityReport, CapacityProvider}
use opencoda.Capacity.Contract.{Contract, recent_ices, ran_out, gave_ice}
use opencoda.Floats.{FloatOps}
use opencoda.Pool.Reconcile.{observe}
use opencoda.Results.{ice, ok, err, is_ice}

-- The pool with the status that the pool controller makes of a report.
abbrev pub seen : CapacityReport → GpuPool → GpuPool
seen report pool = record pool {
  status = record pool.status { observed_capacity = observe report pool.status.observed_capacity };
}

module _ {W : Type 0} (now : W → Time) (prov : CapacityProvider W) (kept : Contract now prov)
    (pool_name : Text) (offer : Offer) (w : W) where
  abbrev left : W
  left = (prov.provision offer w).0

  noted :
      (r : CapacityReport)
      → (prov.provision offer w).1 ≡ returns (err ice)
      → prov.capacity pool_name left ≡ (left, ok r)
      → last? r.recent_ice ≡ some (now w)
  unfolding ran_out gave_ice is_ice
  noted r refused told =
      let grown : recent_ices prov pool_name left ≡ recent_ices prov pool_name w ++ (now w ∷ []) =
        kept.remembered pool_name offer w ∙ rw (ran_out, refused) refl in
      let listed : recent_ices prov pool_name left ≡ r.recent_ice =
        ap (λ q. elim q.1 [ ok r ↦ r.recent_ice | err e ↦ [] ]) told in
      ap last? (sym listed ∙ grown) ∙ last?-append_one (recent_ices prov pool_name w) (now w)

  -- After a provider that keeps the contract gave ErrICE, it has a report, and a
  -- pool controller that takes that over makes the scheduler see the pool with the penalty 2 for
  -- fifteen minutes from then on, and with the penalty 1 later, whatever its status was before.
  pub pool_view-provision :
      (fl : FloatOps) (pool : GpuPool)
      → (prov.provision offer w).1 ≡ returns (err ice)
      → (r : CapacityReport) × (prov.capacity pool_name left ≡ (left, ok r))
        × ((later : Time)
            → (pool_view fl later (seen r pool)).ice_penalty
              ≡ (if ltb_ℤ (later -ℤ ice_window) (now w) then fl.ratio 2 1 else fl.ratio 1 1))
  unfolding pool_view observe
  pool_view-provision fl pool refused =
      let (r, told) = kept.reported pool_name left in
      let last = noted r refused told in (r, told, (λ later. rw (pool_view, observe, last) refl))
