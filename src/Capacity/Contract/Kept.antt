-- ===== src/Capacity/Contract/Kept.antt =====
-- The contract of the static, the AWS and the GCP provider.
use opencoda.Prelude.{
  ℕ, ◌≡◌, refl, ap, ◌∙◌, ◌≢◌, ◌⊎◌, inl, inr, Bool, false, Option, none, some, [], ◌∷◌, ◌++◌, arith,
  if◌then◌else◌, Text, Dict,
}
use opencoda.Api.{Time, Float64, GpuPool}
use opencoda.Capacity.Contract.{gave_ice, ran_out, Contract}
use opencoda.Capacity.Memory.{Memory, Memories}
use opencoda.Capacity.Provider.{Offer, Call, panics, returns, CapacityProvider, BootstrapConfig}
use opencoda.Capacity.Static as Static
use opencoda.Capacity.Aws.Types as Aws
use opencoda.Capacity.Aws.Provision as AwsCalls
use opencoda.Capacity.Aws.Ice as AwsIce
use opencoda.Capacity.Aws.Factory as Ec2
use opencoda.Capacity.Gcp.Types as Gcp
use opencoda.Capacity.Gcp.Provision as Gce
use opencoda.Floats.{FloatOps}
use opencoda.Results.{is_ice, Result, ice, not_found, already_exists, message, ok, err}
use opencoda.Scheduler.Sort.{SortSlice}

pub static-Contract :
    {W : Type 0} (fl : FloatOps) (now : W → Time) (unix_nano : W → ℕ) (pool : GpuPool)
    (creds : Dict Text) (boot : BootstrapConfig)
    → (prov : CapacityProvider W) × (Static.new_factory fl now unix_nano pool creds boot ≡ ok prov)
      × (prov.name ≡ Static.provider_name)
      × Contract now prov
unfolding Static.new_factory Static.quote Static.provision ran_out gave_ice
static-Contract fl now unix_nano pool creds boot = (
  _,
  refl,
  refl,
  record {
    one_offer = λ req w. (_, refl);
    reported = λ pool_name w. (_, refl);
    remembered = λ pool_name offer w. refl;
  },
)

ran_out-other : {A : Type 0} (r : Call (Result A)) → r ≢ returns (err ice) → ran_out r ≡ false
unfolding ran_out gave_ice is_ice
ran_out-other panics h = refl
ran_out-other (returns (ok a)) h = refl
ran_out-other (returns (err ice)) h = absurd (h refl)
ran_out-other (returns (err not_found)) h = refl
ran_out-other (returns (err already_exists)) h = refl
ran_out-other (returns (err (message m))) h = refl

Operation-cases :
    (op : Gcp.Operation)
    → ((msg : Text) × (op ≡ Gcp.refused msg))
      ⊎ (((msg : Text) × (op ≡ Gcp.ended (some msg))) ⊎ (op ≡ Gcp.ended none))
Operation-cases (Gcp.refused msg) = inl (msg, refl)
Operation-cases (Gcp.ended (some msg)) = inr (inl (msg, refl))
Operation-cases (Gcp.ended none) = inr (inr refl)

-- The list of times that a call leaves.
abbrev Remembers : Time → Memory → Memory → Bool → Type 0
Remembers now m m' refused =
    m'.last_ice ≡ (if refused then m.last_ice ++ (now ∷ []) else m.last_ice)

module _ {W : Type 0} (fl : FloatOps) (s : SortSlice Aws.Image) (cells : Memories W)
    (scan_float : Text → Option Float64) (quote base64 : Text → Text) (now : W → Time)
    (unix_nano : W → ℕ) (ec2 : Aws.Ec2 W) (p : Aws.Provider) where
  aws-Remembers :
      (offer : Offer) (m : Memory) (w : W)
      → Remembers
          (now w)
          m
          (AwsCalls.provision ec2 fl (now w) s quote base64 p offer m w).0
          (ran_out (AwsCalls.provision ec2 fl (now w) s quote base64 p offer m w).2)
  unfolding ran_out gave_ice is_ice
  aws-Remembers offer m w =
      elim (AwsIce.provision-RanOut ec2 fl (now w) s quote base64 p offer w m).1 [
        | inl out ↦
            let (full, left) =
              (AwsIce.provision-RanOut ec2 fl (now w) s quote base64 p offer w m).0 out in
            rw (full, left) refl
        | inr (other, left) ↦ rw (ran_out-other _ other, left) refl
      ]

  pub aws-Contract :
      Contract now (Ec2.provider_on fl s cells scan_float quote base64 now unix_nano ec2 p)
  unfolding Ec2.provider_on AwsCalls.quote_offers AwsCalls.capacity
  aws-Contract = record {
    one_offer = λ req w. (_, refl);
    reported = λ pool_name w. (_, refl);
    remembered = λ pool_name offer w.
        ap (λ m. m.last_ice) (cells.read-write p.pool_name _ _)
        ∙ aws-Remembers offer (cells.read p.pool_name w) w;
  }

module _ {W : Type 0} (fl : FloatOps) (cells : Memories W) (quote : Text → Text) (now : W → Time)
    (unix_nano : W → ℕ) (compute : Gcp.Compute W) (p : Gcp.Provider) where
  failed-Remembers :
      (t : Time) (msg : Text) (m : Memory)
      → Remembers t m (Gce.failed t msg m).0 (gave_ice (Gce.failed t msg m).1)
  unfolding Gce.failed gave_ice is_ice
  failed-Remembers t msg m = ground arith

  gcp-Remembers :
      (offer : Offer) (m : Memory) (w : W)
      → Remembers
          (now w)
          m
          (Gce.provision compute quote (now w) (unix_nano w) p offer m w).0
          (gave_ice (Gce.provision compute quote (now w) (unix_nano w) p offer m w).2)
  unfolding Gce.provision gave_ice
  gcp-Remembers offer m w =
      elim (Operation-cases
        (compute.insert_instance (Gce.insert_request quote p (unix_nano w)) w).1) [
          | inl (msg, e) ↦ rw (Gce.provision, e) (failed-Remembers (now w) msg m)
          | inr (inl (msg, e)) ↦ rw (Gce.provision, e) (failed-Remembers (now w) msg m)
          | inr (inr e) ↦ rw (Gce.provision, e, gave_ice) refl
        ]

  pub gcp-Contract : Contract now (Gce.provider_on fl cells quote now unix_nano compute p)
  unfolding Gce.provider_on Gce.quote_offers Gce.capacity ran_out
  gcp-Contract = record {
    one_offer = λ req w. (_, refl);
    reported = λ pool_name w. (_, refl);
    remembered = λ pool_name offer w.
        ap (λ m. m.last_ice) (cells.read-write p.pool_name _ _)
        ∙ gcp-Remembers offer (cells.read p.pool_name w) w;
  }
