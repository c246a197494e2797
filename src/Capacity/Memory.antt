-- ===== src/Capacity/Memory.antt =====
-- What the AWS and GCP providers change of themselves: a provider is used through a pointer, so
-- that this part lies in the world, one memory for each pool name. A factory starts it as `fresh`.
use opencoda.Prelude.{◌≡◌, List, [], Text}
use opencoda.Api.{Time, Float64}
use opencoda.Floats.{FloatOps}

pub record Memory : Type 0 where
  pub last_ice : List Time
  pub hourly_usd : Float64

abbrev pub fresh : FloatOps → Memory
fresh fl = record { last_ice = []; hourly_usd = fl.ratio 0 1 }

-- Where the memories are kept: what was written is read.
pub record Memories (W : Type 0) : Type 0 where
  pub read : Text → W → Memory
  pub write : Text → Memory → W → W
  pub read-write : (name : Text) (m : Memory) (w : W) → read name (write name m w) ≡ m

-- A method of the provider of a pool, on the world.
abbrev pub on_world : {W A : Type 0} → Memories W → Text → (Memory → W → Memory × W × A) → W → W × A
on_world cells pool_name method w =
    let (m, w', a) = method (cells.read pool_name w) w in (cells.write pool_name m w', a)
