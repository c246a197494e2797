-- ===== src/Capacity/Gcp/Handles.antt =====
-- A handle of Provision goes back to Release.
use opencoda.Prelude.{
  ℕ, zero, suc, ◌+◌, ◌/◌, ◌%◌, ◌<◌, ◌≡◌, refl, sym, ap, ◌∙◌, inl, inr, false, none, some, [], ◌∷◌,
  ◌++◌, arith, ltb, nat_beq, Bool-cases, last?, All-append, NoByte, last?-split, Text, bytes, split,
  digits_onto, decimal_ℕ,
}
use mathlib.Core.List.{append_assoc}
use opencoda.Api.{Time}
use opencoda.Capacity.Memory.{Memory}
use opencoda.Capacity.Provider.{Offer}
use opencoda.Results.{ok}
use opencoda.Capacity.Gcp.Types.{
  last_part, parse_instance_name, Provider, Operation, Compute, ended,
}
use opencoda.Capacity.Gcp.Provision.{
  instance_name, insert_request, handle_of, finished, provision, release,
}

-- A byte that is no digit does not stand in the digits of a number.
digits_onto-NoByte :
    (sep f n : ℕ) (s : Text) → sep < 48 → NoByte sep s → NoByte sep (digits_onto f n s)
unfolding digits_onto
digits_onto-NoByte sep zero n s low h = (ground arith, h)
digits_onto-NoByte sep (suc f) n s low h = elim (Bool-cases (ltb n 10)) [
  | inl small ↦ rw small (ground arith, h)
  | inr large ↦
      rw large (digits_onto-NoByte sep f (n / 10) ((48 + n % 10) ∷ s) low (ground arith, h))
]

instance_name-NoByte :
    (p : Provider) (unix_nano : ℕ)
    → NoByte b'/' p.pool_name
    → NoByte b'/' (instance_name p unix_nano)
unfolding decimal_ℕ
instance_name-NoByte p unix_nano plain =
    let digits : NoByte b'/' (decimal_ℕ unix_nano) =
      digits_onto-NoByte b'/' unix_nano unix_nano [] (omega arith) tt in
    All-append (λ c. nat_beq c b'/' ≡ false) (bytes "coda-")
      (p.pool_name ++ (b'-' ∷ decimal_ℕ unix_nano)) (refl, (refl, (refl, (refl, (refl, tt)))))
      (All-append (λ c. nat_beq c b'/' ≡ false) p.pool_name (b'-' ∷ decimal_ℕ unix_nano) plain
        (refl, digits))

parse_instance_name-handle :
    (p : Provider) (now : Time) (unix_nano : ℕ)
    → NoByte b'/' p.pool_name
    → parse_instance_name (handle_of p now unix_nano).provider_id ≡ instance_name p unix_nano
unfolding parse_instance_name last_part
parse_instance_name-handle p now unix_nano plain =
    let front = (bytes "gcp://" ++ p.project) ++ (b'/' ∷ p.zone) in
    let at : (handle_of p now unix_nano).provider_id ≡ front ++ (b'/' ∷ instance_name p unix_nano) =
      sym (
        append_assoc (bytes "gcp://" ++ p.project) (b'/' ∷ p.zone)
          (b'/' ∷ instance_name p unix_nano)) in
    let ends =
      last?-split b'/' front (instance_name p unix_nano) (instance_name-NoByte p unix_nano plain) in
    ap (λ o. elim o [ none ↦ [] | some part ↦ part ]) (ap (λ t. last? (split b'/' t)) at ∙ ends)

module _ {W : Type 0} (compute : Compute W) (quote : Text → Text) (now : Time) (unix_nano : ℕ)
    (p : Provider) (offer : Offer) (m : Memory) (w : W) where
  -- The answer of Compute Engine to the request for the instance.
  abbrev pub inserted : W × Operation
  inserted = compute.insert_instance (insert_request quote p unix_nano) w

  -- When the pool's name has no slash and the insertion ended well, Provision gives a handle, and
  -- Release of that handle, in whatever world, asks to delete just the project, zone and name that
  -- were inserted, and gives the answer to that.
  pub release-provision :
      NoByte b'/' p.pool_name
      → inserted.1 ≡ ended none
      → (provision compute quote now unix_nano p offer m w
          ≡ (m, inserted.0, ok (handle_of p now unix_nano)))
        × ((w' : W)
            → release compute p (handle_of p now unix_nano) w' ≡ (
                let (w'', op) =
                  compute.delete_instance
                    (record {
                      project = (insert_request quote p unix_nano).project;
                      zone = (insert_request quote p unix_nano).zone;
                      instance = (insert_request quote p unix_nano).resource.name;
                    })
                    w' in
                (w'', finished op)))
  unfolding provision release insert_request
  release-provision plain made =
      let id = parse_instance_name-handle p now unix_nano plain in
      (rw (provision, made) refl, (λ w'. rw (release, id, insert_request) refl))
