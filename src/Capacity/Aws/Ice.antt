-- ===== src/Capacity/Aws/Ice.antt =====
-- When Provision reports that there is no capacity, and what it remembers of it.
use opencoda.Prelude.{
  ◌≡◌, refl, ap, ◌∙◌, ◌≢◌, ◌⊎◌, inl, inr, true, List, [], ◌∷◌, ◌++◌, arith, Bool-cases,
  Option-cases, Text, bytes, text_beq,
}
use opencoda.Api.{Time}
use opencoda.Capacity.Memory.{Memory}
use opencoda.Capacity.Provider.{Offer, NodeHandle, Call, panics, returns}
use opencoda.Floats.{FloatOps}
use opencoda.Results.{Result-cases, Result, ice, message, ok, err}
use opencoda.Scheduler.Sort.{SortSlice}
use opencoda.Capacity.Aws.Types.{
  to_error, is_insufficient_capacity, Provider, Ec2Error, Image, Instance, Ran, Described, Ec2,
  api_error, other_error, refused, started, unknown, images,
}
use opencoda.Capacity.Aws.Images.{
  first_id, newer, name_patterns, latest_gpu_ami, find_ami, resolve_ami,
}
use opencoda.Capacity.Aws.Provision.{run_input, handle_of, provision}

Ran-cases :
    (r : Ran) → ((e : Ec2Error) × (r ≡ refused e)) ⊎ ((is : List Instance) × (r ≡ started is))
Ran-cases (refused e) = inl (e, refl)
Ran-cases (started is) = inr (is, refl)

to_error_not_ice : (e : Ec2Error) → to_error e ≢ ice
to_error_not_ice (api_error code m) h = absurd (cc h)
to_error_not_ice (other_error m) h = absurd (cc h)

Described-cases :
    (d : Described) → ((e : Ec2Error) × (d ≡ unknown e)) ⊎ ((is : List Image) × (d ≡ images is))
Described-cases (unknown e) = inl (e, refl)
Described-cases (images is) = inr (is, refl)

module _ {W : Type 0} (ec2 : Ec2 W) (fl : FloatOps) (now : Time) (s : SortSlice Image)
    (quote base64 : Text → Text) (p : Provider) (offer : Offer) (w : W) where
  -- An image was found, and the start of the instance was refused for want of capacity.
  pub record RanOut : Type 0 where
    pub ami : Text
    pub error : Ec2Error
    pub resolved : (resolve_ami ec2 s p w).1 ≡ ok ami
    pub refusal :
        (ec2.run_instances (run_input quote base64 p ami offer) (resolve_ami ec2 s p w).0).1
        ≡ refused error
    pub for_capacity : is_insufficient_capacity error ≡ true

  latest_gpu_ami_not_ice : (pattern : Text) (w : W) → (latest_gpu_ami ec2 s pattern w).1 ≢ err ice
  unfolding latest_gpu_ami
  latest_gpu_ami_not_ice pattern w h = elim (Described-cases (ec2.describe_images pattern w).1) [
    | inl (e, d) ↦
        let as_text : (latest_gpu_ami ec2 s pattern w).1 ≡ err (to_error e) =
          rw (d, latest_gpu_ami) refl in
        to_error_not_ice e (cc (as_text, h))
    | inr (is, d) ↦
        let as_id : (latest_gpu_ami ec2 s pattern w).1 ≡ ok (first_id ec2 s (s.sort newer is)) =
          rw (d, latest_gpu_ami) refl in
        absurd (cc (as_id, h))
  ]

  find_ami_not_ice :
      (region : Text) (patterns : List Text) (w : W)
      → (find_ami ec2 s region patterns w).1 ≢ err ice
  unfolding find_ami
  find_ami_not_ice region [] w h = absurd (cc h)
  find_ami_not_ice region (pattern ∷ patterns) w h =
      elim (Result-cases (latest_gpu_ami ec2 s pattern w).1) [
        | inl (e, bad) ↦
            let stopped : (find_ami ec2 s region (pattern ∷ patterns) w).1 ≡ err e =
              rw (bad, find_ami) refl in
            latest_gpu_ami_not_ice pattern w (cc (bad, stopped, h))
        | inr (ami, good) ↦ elim (Bool-cases (text_beq ami [])) [
          | inl e ↦
              find_ami_not_ice region patterns (latest_gpu_ami ec2 s pattern w).0
                (ground (arith, good, e, h))
          | inr e ↦ absurd (ground (arith, good, e, h))
        ]
      ]

  resolve_ami_not_ice : (resolve_ami ec2 s p w).1 ≢ err ice
  unfolding resolve_ami
  resolve_ami_not_ice h = find_ami_not_ice p.region (name_patterns p) w (ground (arith, h))

  -- The result of Provision and the memory that it leaves.
  abbrev result : Memory → Call (Result NodeHandle)
  result m = (provision ec2 fl now s quote base64 p offer m w).2

  abbrev memory_after : Memory → Memory
  memory_after m = (provision ec2 fl now s quote base64 p offer m w).0

  -- Exactly where EC2 refuses the instance for want of capacity is the error ErrICE, and the time
  -- remembered as the last; anywhere else the memory is as it was.
  pub provision-RanOut :
      (m : Memory)
      → (RanOut
          → (result m ≡ returns (err ice))
            × (memory_after m ≡ record m { last_ice = m.last_ice ++ (now ∷ []) }))
        × (RanOut ⊎ ((result m ≢ returns (err ice)) × (memory_after m ≡ m)))
  unfolding provision
  provision-RanOut m = (
    (λ r. (
      ground (arith, r.resolved, r.refusal, r.for_capacity),
      ground (arith, r.resolved, r.refusal, r.for_capacity),
    )),
    (elim (Result-cases (resolve_ami ec2 s p w).1) [
      | inl (e, bad) ↦
          let failed_so : result m ≡ returns (err e) = ground (arith, bad) in
          inr (
            (λ h.
                let same : e ≡ ice = cc (failed_so, h) in resolve_ami_not_ice (bad ∙ ap err same)),
            ground (arith, bad),
          )
      | inr (ami, good) ↦
          elim (Ran-cases
            (ec2.run_instances (run_input quote base64 p ami offer) (resolve_ami ec2 s p w).0).1) [
              | inr ([], ran) ↦
                  let none_came : result m
                      ≡ returns (err (message (bytes "no instances returned"))) =
                    ground (arith, good, ran) in
                  inr ((λ h. absurd (cc (none_came, h))), ground (arith, good, ran))
              | inr (inst ∷ is, ran) ↦ elim (Option-cases inst.placement) [
                | inl nowhere ↦
                    let broke : result m ≡ panics = ground (arith, good, ran, nowhere) in
                    inr ((λ h. absurd (cc (broke, h))), ground (arith, good, ran, nowhere))
                | inr (zone, there) ↦
                    let came : result m
                        ≡ returns (ok (handle_of p now offer zone inst.instance_id)) =
                      ground (arith, good, ran, there) in
                    inr ((λ h. absurd (cc (came, h))), ground (arith, good, ran, there))
              ]
              | inl (e, ran) ↦ elim (Bool-cases (is_insufficient_capacity e)) [
                | inl full ↦ inl (record {
                  ami = ami;
                  error = e;
                  resolved = good;
                  refusal = ran;
                  for_capacity = full;
                })
                | inr other ↦
                    let failed_so : result m ≡ returns (err (to_error e)) =
                      ground (arith, good, ran, other) in
                    inr (
                      (λ h. to_error_not_ice e (cc (failed_so, h))),
                      ground (arith, good, ran, other),
                    )
              ]
            ]
    ]),
  )
