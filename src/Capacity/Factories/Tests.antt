-- ===== src/Capacity/Factories/Tests.antt =====
-- SDKs that give an EC2 client and none for GCP, and a pool at AWS.
use opencoda.Prelude.{refl, ◌⊎◌, none, [], pos, bytes, parse_ℕ}
use opencoda.Api.{GpuPool}
use opencoda.Api.Sample.{pool}
use opencoda.Capacity.Memory.{Memory, Memories}
use opencoda.Capacity.Provider.{BootstrapConfig}
use opencoda.Capacity.Factories.{Surroundings}
use opencoda.Capacity.Factories.Known.{Made, Refused, make_for_pool-new_registry}
use opencoda.Floats.Sample.{sample}
use opencoda.Capacity.Aws.Types.{Ec2, images, started}
use opencoda.Results.{ok, err, message}
use opencoda.Scheduler.Sort.Insertion.{insertion}

abbrev ec2 : Ec2 Memory
ec2 = record {
  spot_price_history = λ t w. (w, none);
  describe_images = λ pattern w. (w, images []);
  run_instances = λ input w. (w, started []);
  terminate_instances = λ id w. (w, none);
}

abbrev cells : Memories Memory
cells = record { read = λ name m. m; write = λ name m w. m; read-write = λ name m w. refl }

abbrev around : Surroundings Memory
around = record {
  fl = sample;
  s = insertion;
  aws_cells = cells;
  gcp_cells = cells;
  scan_float = parse_ℕ;
  quote = λ t. t;
  base64 = λ t. t;
  now = λ m. pos 5;
  unix_nano = λ m. 5;
  load_config = λ region creds. ok ec2;
  new_client = λ json. err (message (bytes "no client"));
}

abbrev aws_pool : GpuPool
aws_pool = record (pool (bytes "p")) {
  spec = record (pool (bytes "p")).spec {
    provider = record (pool (bytes "p")).spec.provider { name = bytes "aws" };
  };
}

abbrev boot : BootstrapConfig
boot = record { api_server_url = []; ca_bundle = []; join_token = []; cluster_name = [] }

make_for_pool-new_registry_example : Made around aws_pool [] boot ⊎ Refused around aws_pool [] boot
make_for_pool-new_registry_example = make_for_pool-new_registry around aws_pool [] boot
