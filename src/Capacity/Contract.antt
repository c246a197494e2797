-- ===== src/Capacity/Contract.antt =====
-- What the controllers take from every provider of pkg/capacity/provider.go.
pub mod Kept
use opencoda.Prelude.{◌≡◌, Bool, false, List, [], ◌∷◌, ◌++◌, if◌then◌else◌, Text}
use opencoda.Api.{Time}
use opencoda.Capacity.Provider.{
  GpuRequest, Offer, CapacityReport, CapacityProvider, Call, panics, returns,
}
use opencoda.Results.{Result, ok, err, is_ice}

-- The times of the report on a pool.
abbrev pub recent_ices : {W : Type 0} → CapacityProvider W → Text → W → List Time
recent_ices prov pool_name w = elim (prov.capacity pool_name w).1 [
  | ok r ↦ r.recent_ice
  | err e ↦ []
]

unfoldable pub gave_ice : {A : Type 0} → Result A → Bool
unfolding is_ice
gave_ice (ok a) = false
gave_ice (err e) = is_ice e

-- Whether a call of Provision gave ErrICE.
unfoldable pub ran_out : {A : Type 0} → Call (Result A) → Bool
unfolding gave_ice
ran_out panics = false
ran_out (returns r) = gave_ice r

-- Quote gives one offer. Capacity gives a report and changes nothing. The report's list of the times
-- without capacity grows by the present one when Provision gives ErrICE, and else it stays.
pub record Contract {W : Type 0} (now : W → Time) (prov : CapacityProvider W) : Type 0 where
  pub one_offer : (req : GpuRequest) (w : W) → (o : Offer) × ((prov.quote req w).1 ≡ ok (o ∷ []))
  pub reported :
      (pool_name : Text) (w : W) → (r : CapacityReport) × (prov.capacity pool_name w ≡ (w, ok r))
  pub remembered :
      (pool_name : Text) (offer : Offer) (w : W)
      → recent_ices prov pool_name (prov.provision offer w).0 ≡ (
          if ran_out (prov.provision offer w).1
          then recent_ices prov pool_name w ++ (now w ∷ [])
          else recent_ices prov pool_name w)
