-- ===== src/Capacity/Factories/Known.antt =====
-- Which providers the registry makes, and which errors it gives.
use opencoda.Prelude.{
  ◌≡◌, refl, sym, ◌∙◌, ◌≢◌, ◌⊎◌, inl, inr, false, Option, none, some, ◌++◌, if◌then◌else◌,
  Bool-cases, Text, bytes, text_beq, text_beq_iff, quoted, Dict, lookup, insert,
}
use opencoda.Api.{GpuPool}
use opencoda.Capacity.Provider.{
  Factory, new_factory_registry, register, make_for_pool, CapacityProvider, BootstrapConfig,
}
use opencoda.Capacity.Static as Static
use opencoda.Capacity.Aws.Types as Aws
use opencoda.Capacity.Aws.Factory as Ec2
use opencoda.Capacity.Gcp.Types as Gcp
use opencoda.Capacity.Gcp.Provision as Gce
use opencoda.Capacity.Contract.{Contract}
use opencoda.Capacity.Contract.Kept.{static-Contract, aws-Contract, gcp-Contract}
use opencoda.Capacity.Factories.{
  Surroundings, static_factory, aws_factory, gcp_factory, new_registry,
}
use opencoda.Results.{Error, Result, ok, err, message, Result-cases}

other : {s t : Text} → text_beq s t ≡ false → t ≢ s
other {s} {t} e h = absurd (cc (e, (text_beq_iff s t).1 (sym h)))

module _ {W : Type 0} (around : Surroundings W) (pool : GpuPool) (creds : Dict Text)
    (boot : BootstrapConfig) where
  abbrev asked : Text
  asked = pool.spec.provider.name

  -- The factory that the spec names is one of the three, and its client could be made.
  abbrev pub Made : Type 0
  Made =
      (prov : CapacityProvider W) × (make_for_pool (new_registry around) pool creds boot ≡ ok prov)
      × (prov.name ≡ asked)
      × Contract around.now prov
      × ((asked ≡ Static.provider_name)
          ⊎ ((asked ≡ Aws.provider_name) ⊎ (asked ≡ Gcp.provider_name)))

  abbrev pub Unknown : Error → Type 0
  Unknown e =
      (asked ≢ Static.provider_name)
      × (asked ≢ Aws.provider_name)
      × (asked ≢ Gcp.provider_name)
      × (e ≡ message (bytes "unknown capacity provider " ++ quoted asked))

  abbrev pub NoAws : Error → Type 0
  NoAws e =
      (asked ≡ Aws.provider_name)
      × (around.load_config (Ec2.provider_of pool boot).region (Ec2.static_credentials creds)
          ≡ err e)

  abbrev pub NoGcp : Error → Type 0
  NoGcp e = (asked ≡ Gcp.provider_name) × (around.new_client (Gce.json_credentials creds) ≡ err e)

  abbrev pub Refused : Type 0
  Refused =
      (e : Error) × (make_for_pool (new_registry around) pool creds boot ≡ err e)
      × (Unknown e ⊎ (NoAws e ⊎ NoGcp e))

  -- The lookup of a name among the three.
  factory_named : Text → Option (Factory W)
  factory_named name =
      if text_beq Static.provider_name name
      then some (static_factory around)
      else if text_beq Aws.provider_name name
      then some (aws_factory around)
      else if text_beq Gcp.provider_name name
      then some (gcp_factory around)
      else none

  lookup-new_registry :
      (name : Text) → lookup name (new_registry around).factories ≡ factory_named name
  unfolding new_registry register new_factory_registry insert lookup text_beq factory_named
  lookup-new_registry name = refl

  made_by :
      (f : Factory W)
      → factory_named asked ≡ some f
      → make_for_pool (new_registry around) pool creds boot ≡ f pool creds boot
  unfolding make_for_pool
  made_by f found = rw (make_for_pool, lookup-new_registry asked ∙ found) refl

  NamedOf : Text → Result (CapacityProvider W) → Type 0
  NamedOf name made =
      (prov : CapacityProvider W) × (made ≡ ok prov) × (prov.name ≡ name) × Contract around.now prov

  static_made : NamedOf Static.provider_name (static_factory around pool creds boot)
  unfolding NamedOf
  static_made = static-Contract around.fl around.now around.unix_nano pool creds boot

  aws_made :
      (ec2 : Aws.Ec2 W)
      → around.load_config (Ec2.provider_of pool boot).region (Ec2.static_credentials creds)
        ≡ ok ec2
      → NamedOf Aws.provider_name (aws_factory around pool creds boot)
  unfolding NamedOf Ec2.new_factory Ec2.provider_on
  aws_made ec2 good = (
    Ec2.provider_on around.fl around.s around.aws_cells around.scan_float around.quote around.base64
        around.now around.unix_nano ec2 (Ec2.provider_of pool boot),
    rw (Ec2.new_factory, good) refl,
    refl,
    aws-Contract around.fl around.s around.aws_cells around.scan_float around.quote around.base64
        around.now around.unix_nano ec2 (Ec2.provider_of pool boot),
  )

  gcp_made :
      (compute : Gcp.Compute W)
      → around.new_client (Gce.json_credentials creds) ≡ ok compute
      → NamedOf Gcp.provider_name (gcp_factory around pool creds boot)
  unfolding NamedOf Gce.new_factory Gce.provider_on
  gcp_made compute good = (
    Gce.provider_on around.fl around.gcp_cells around.quote around.now around.unix_nano compute
        (Gce.provider_of pool creds boot),
    rw (Gce.new_factory, good) refl,
    refl,
    gcp-Contract around.fl around.gcp_cells around.quote around.now around.unix_nano compute
        (Gce.provider_of pool creds boot),
  )

  -- The registry makes a provider that has the name that the pool asks for, static, aws or gcp, and
  -- keeps the contract: a quote of one offer, a report without an effect, and a time noted for just
  -- each ErrICE. Or it gives an error: the name is none of them, or it is aws or gcp and the SDK gave
  -- that error when it was asked for the configuration or the client.
  pub make_for_pool-new_registry : Made ⊎ Refused
  unfolding make_for_pool factory_named Ec2.new_factory Gce.new_factory NamedOf
  make_for_pool-new_registry = elim (Bool-cases (text_beq Static.provider_name asked)) [
    | inl static ↦
        let name = sym ((text_beq_iff Static.provider_name asked).0 static) in
        let by = made_by (static_factory around) (rw (factory_named, static) refl) in
        let (prov, came, named, kept) = static_made in
        inl (prov, by ∙ came, named ∙ sym name, kept, inl name)
    | inr not_static ↦ elim (Bool-cases (text_beq Aws.provider_name asked)) [
      | inl aws ↦
          let name = sym ((text_beq_iff Aws.provider_name asked).0 aws) in
          let by = made_by (aws_factory around) (rw (factory_named, not_static, aws) refl) in
          elim (Result-cases (
            around.load_config (Ec2.provider_of pool boot).region (Ec2.static_credentials creds))) [
              | inl (e, bad) ↦ inr (e, by ∙ rw (Ec2.new_factory, bad) refl, inr (inl (name, bad)))
              | inr (ec2, good) ↦
                  let (prov, came, named, kept) = aws_made ec2 good in
                  inl (prov, by ∙ came, named ∙ sym name, kept, inr (inl name))
            ]
      | inr not_aws ↦ elim (Bool-cases (text_beq Gcp.provider_name asked)) [
        | inl gcp ↦
            let name = sym ((text_beq_iff Gcp.provider_name asked).0 gcp) in
            let by =
              made_by (gcp_factory around) (rw (factory_named, not_static, not_aws, gcp) refl) in
            elim (Result-cases (around.new_client (Gce.json_credentials creds))) [
              | inl (e, bad) ↦ inr (e, by ∙ rw (Gce.new_factory, bad) refl, inr (inr (name, bad)))
              | inr (compute, good) ↦
                  let (prov, came, named, kept) = gcp_made compute good in
                  inl (prov, by ∙ came, named ∙ sym name, kept, inr (inr name))
            ]
        | inr not_gcp ↦ inr (
          message (bytes "unknown capacity provider " ++ quoted asked),
          rw (make_for_pool, lookup-new_registry asked, factory_named, not_static, not_aws, not_gcp)
              refl,
          inl (other not_static, other not_aws, other not_gcp, refl),
        )
      ]
    ]
  ]
