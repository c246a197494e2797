-- ===== src/Capacity/Aws/Tests.antt =====
-- An EC2 that lists two images and starts an instance, and one that has no capacity.
use opencoda.Prelude.{
  some, ◌≡◌, refl, ◌≢◌, ◌⊎◌, true, none, List, [], ◌∷◌, ◌++◌, pos, Text, bytes, text_beq,
  trim_space, lookup, get_or,
}
use opencoda.Api.Sample.{pool}
use opencoda.Capacity.Memory.{Memory, fresh}
use opencoda.Capacity.Provider.{returns, BootstrapConfig, Offer}
use opencoda.Floats.Sample.{sample}
use opencoda.Results.{ice, ok, err}
use opencoda.Scheduler.Sort.Insertion.{insertion}
use opencoda.Capacity.Aws.Types.{
  is_insufficient_capacity, split_csv, Provider, Ec2Error, Image, Instance, Ran, Ec2, api_error,
  refused, started, images,
}
use opencoda.Capacity.Aws.Images.{
  text_greater, name_patterns, latest_gpu_ami, find_ami, resolve_ami,
}
use opencoda.Capacity.Aws.Provision.{handle_of, provision, release}
use opencoda.Capacity.Aws.Factory.{provider_of}
use opencoda.Capacity.Aws.Ice.{RanOut, provision-RanOut}
use opencoda.Capacity.Aws.Handles.{release-provision, answered}

abbrev boot : BootstrapConfig
boot = record { api_server_url = []; ca_bundle = []; join_token = []; cluster_name = bytes "c" }

abbrev provider : Provider
provider = provider_of (pool (bytes "p")) boot

abbrev image : Text → Text → Image
image id date = record { image_id = bytes "ami-" ++ id; creation_date = date }

abbrev two_images : List Image
two_images = image (bytes "1") (bytes "2024-01-01") ∷ image (bytes "2") (bytes "2025-01-01") ∷ []

abbrev inst : Instance
inst = record { instance_id = bytes "i-1"; placement = some (bytes "us-east-1a") }

-- The world is the list of the instances that were ended.
abbrev ec2 : Ran → Ec2 (List Text)
ec2 ran = record {
  spot_price_history = λ t w. (w, none);
  describe_images = λ pattern w. (w, images two_images);
  run_instances = λ input w. (w, ran);
  terminate_instances = λ id w. (id ∷ w, none);
}

abbrev no_capacity : Ec2Error
no_capacity = api_error (bytes "InsufficientInstanceCapacity") (bytes "no capacity")

abbrev same : Text → Text
same t = t

abbrev offer : Offer
offer = record {
  id = [];
  instance_type = bytes "p5.48xlarge";
  zone = bytes "us-east-1b";
  hourly_usd = 21;
  expires_at = pos 0;
  interruptible = true;
}

abbrev before : Memory
before = fresh sample

-- The newer image is taken.
newer_taken : (resolve_ami (ec2 (started (inst ∷ []))) insertion provider []).1 ≡ ok (bytes "ami-2")
unfolding resolve_ami find_ami latest_gpu_ami name_patterns provider_of split_csv insertion get_or
    lookup text_beq trim_space text_greater
newer_taken = refl

release-provision_example :
    ((provision
        (ec2 (started (inst ∷ [])))
        sample
        (pos 9)
        insertion
        same
        same
        provider
        offer
        before
        []).2
      ≡ returns (ok (handle_of provider (pos 9) offer (bytes "us-east-1a") (bytes "i-1"))))
    × ((w : List Text)
        → release
            (ec2 (started (inst ∷ [])))
            sample
            (pos 9)
            (handle_of provider (pos 9) offer (bytes "us-east-1a") (bytes "i-1"))
            w
          ≡ answered (bytes "i-1" ∷ w, none))
release-provision_example =
    release-provision (ec2 (started (inst ∷ []))) sample (pos 9) insertion same same provider offer
      before [] (bytes "ami-2") inst [] (bytes "us-east-1a") newer_taken refl refl
      (refl, (refl, (refl, tt))) (λ e. absurd (cc e))

ran_out : RanOut (ec2 (refused no_capacity)) sample (pos 9) insertion same same provider offer []
unfolding resolve_ami find_ami latest_gpu_ami name_patterns provider_of split_csv insertion get_or
    lookup text_beq trim_space text_greater is_insufficient_capacity
ran_out = record {
  ami = bytes "ami-2";
  error = no_capacity;
  resolved = refl;
  refusal = refl;
  for_capacity = refl;
}

provision-RanOut_example :
    (RanOut (ec2 (refused no_capacity)) sample (pos 9) insertion same same provider offer []
      → ((provision
            (ec2 (refused no_capacity))
            sample
            (pos 9)
            insertion
            same
            same
            provider
            offer
            before
            []).2
          ≡ returns (err ice))
        × ((provision
              (ec2 (refused no_capacity))
              sample
              (pos 9)
              insertion
              same
              same
              provider
              offer
              before
              []).0
            ≡ record before { last_ice = pos 9 ∷ [] }))
    × (RanOut (ec2 (refused no_capacity)) sample (pos 9) insertion same same provider offer []
        ⊎ (((provision
                (ec2 (refused no_capacity))
                sample
                (pos 9)
                insertion
                same
                same
                provider
                offer
                before
                []).2
              ≢ returns (err ice))
            × ((provision
                  (ec2 (refused no_capacity))
                  sample
                  (pos 9)
                  insertion
                  same
                  same
                  provider
                  offer
                  before
                  []).0
                ≡ before)))
provision-RanOut_example =
    provision-RanOut (ec2 (refused no_capacity)) sample (pos 9) insertion same same provider offer
      [] before
