-- ===== src/Capacity/Aws/Handles.antt =====
-- A handle of Provision goes back to Release.
use opencoda.Prelude.{
  ◌≡◌, refl, ap, ◌≢◌, inl, inr, false, Option, none, some, List, [], ◌∷◌, ◌++◌, arith, Bool-cases,
  last?, NoByte, last?-split, Text, bytes, text_beq, text_beq_iff, split,
}
use opencoda.Api.{Time}
use opencoda.Capacity.Memory.{Memory}
use opencoda.Capacity.Provider.{Offer, returns}
use opencoda.Floats.{FloatOps}
use opencoda.Results.{Result, ok, err}
use opencoda.Scheduler.Sort.{SortSlice}
use opencoda.Capacity.Aws.Types.{
  to_error, last_part, parse_instance_id, Provider, Ec2Error, Image, Instance, Ec2, started,
}
use opencoda.Capacity.Aws.Images.{resolve_ami}
use opencoda.Capacity.Aws.Provision.{run_input, handle_of, provision, release}

parse_instance_id-handle :
    (p : Provider) (now : Time) (offer : Offer) (zone instance_id : Text)
    → NoByte b'/' instance_id
    → parse_instance_id (handle_of p now offer zone instance_id).provider_id ≡ instance_id
unfolding parse_instance_id last_part
parse_instance_id-handle p now offer zone instance_id plain =
    let ends : last? (split b'/' (bytes "aws://" ++ (zone ++ (b'/' ∷ instance_id))))
        ≡ some instance_id =
      last?-split b'/' (bytes "aws://" ++ zone) instance_id plain in
    ap (λ o. elim o [ none ↦ [] | some part ↦ part ]) ends

-- What Release gives on the answer of EC2.
abbrev pub answered : {W : Type 0} → W × Option Ec2Error → W × Result (Unit {0})
answered (w', failed) = (w', elim failed [ none ↦ ok tt | some e ↦ err (to_error e) ])

module _ {W : Type 0} (ec2 : Ec2 W) (fl : FloatOps) (now : Time) (s : SortSlice Image)
    (quote base64 : Text → Text) (p : Provider) (offer : Offer) (m : Memory) (w : W) where
  -- When an instance was started that has a placement and whose id is not empty and has no slash, Provision gives a handle, and
  -- Release of that handle, in whatever world, asks EC2 to end the instance of just that id and
  -- gives its answer.
  pub release-provision :
      (ami : Text) (inst : Instance) (others : List Instance) (zone : Text)
      → (resolve_ami ec2 s p w).1 ≡ ok ami
      → (ec2.run_instances (run_input quote base64 p ami offer) (resolve_ami ec2 s p w).0).1
        ≡ started (inst ∷ others)
      → inst.placement ≡ some zone
      → NoByte b'/' inst.instance_id
      → inst.instance_id ≢ []
      → ((provision ec2 fl now s quote base64 p offer m w).2
          ≡ returns (ok (handle_of p now offer zone inst.instance_id)))
        × ((w' : W)
            → release ec2 fl now (handle_of p now offer zone inst.instance_id) w'
              ≡ answered (ec2.terminate_instances inst.instance_id w'))
  unfolding provision release
  release-provision ami inst others zone good ran there plain named =
      let id = parse_instance_id-handle p now offer zone inst.instance_id plain in
      let given : text_beq inst.instance_id [] ≡ false =
        elim (Bool-cases (text_beq inst.instance_id [])) [
          | inl e ↦ absurd (named ((text_beq_iff inst.instance_id []).0 e))
          | inr e ↦ e
        ] in
      (ground (arith, good, ran, there), (λ w'. rw (release, id, given) refl))
