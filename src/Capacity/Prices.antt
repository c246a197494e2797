-- ===== src/Capacity/Prices.antt =====
-- pkg/capacity/pricesync/pricesync.go: the table of prices and its synchronisation with a catalog.
-- The HTTP client is an argument, and so are the CSV reader, as the sequence of what its reads give,
-- and strconv.ParseFloat. A mutex makes each method of the table one step.
pub mod Loop
pub mod Rows
mod Tests
use opencoda.Prelude.{
  pos, ℕ, zero, suc, ◌+◌, Bool, true, false, Option, none, some, List, [], ◌∷◌, if◌then◌else◌,
  get_elem?, Text, bytes, text_beq, Dict, get_or, insert,
}
use opencoda.Api.{Duration, Float64}
use opencoda.Floats.{FloatOps}

pub record Table : Type 0 where
  pub prices : Dict Float64

unfoldable pub new_table : Table
new_table = record { prices = [] }

unfoldable pub get : FloatOps → Text → Table → Float64
get fl instance_type t = get_or t.prices instance_type (fl.ratio 0 1)

unfoldable pub set : Text → Float64 → Table → Table
set instance_type hourly t = record { prices = insert instance_type hourly t.prices }

-- What one read of the CSV reader gives.
pub data Read : Type 0 where
  end : Read
  broken : Read
  row : List Text → Read

-- The columns of the type and of the price: the last ones of these names.
unfoldable pub columns : ℕ → List Text → Option ℕ × Option ℕ → Option ℕ × Option ℕ
unfolding text_beq
columns i [] (type_idx, price_idx) = (type_idx, price_idx)
columns i (h ∷ header) (type_idx, price_idx) = columns (i + 1) header (
    if text_beq h (bytes "InstanceType")
    then (some i, price_idx)
    else if text_beq h (bytes "Price")
    then (type_idx, some i)
    else (type_idx, price_idx))

module _ (parse_float : Text → Option Float64) (type_idx price_idx : ℕ) where
  -- A row of the header's length: the reader gives no other without an error.
  unfoldable pub take_row : List Text → Table → Table
  unfolding set
  take_row cells t = elim (get_elem? cells price_idx) [
    | none ↦ t
    | some text ↦ elim (parse_float text) [
      | none ↦ t
      | some price ↦ elim (get_elem? cells type_idx) [
        | none ↦ t
        | some instance_type ↦ set instance_type price t
      ]
    ]
  ]

  -- The loop from the read at `i` on, for so many rounds; true where it has ended by itself.
  unfoldable pub read_rows : ℕ → ℕ → (ℕ → Read) → Table → Bool × Table
  unfolding take_row
  read_rows zero i reads t = (false, t)
  read_rows (suc rounds) i reads t = elim (reads i) [
    | end ↦ (true, t)
    | broken ↦ read_rows rounds (i + 1) reads t
    | row cells ↦ read_rows rounds (i + 1) reads (take_row cells t)
  ]

-- The body of an answer with status 200: the read at 0 is the header.
unfoldable pub sync_body : (Text → Option Float64) → ℕ → (ℕ → Read) → Table → Bool × Table
unfolding columns read_rows
sync_body parse_float rounds reads t = elim (reads 0) [
  | end ↦ (true, t)
  | broken ↦ (true, t)
  | row header ↦
      let (type_idx, price_idx) = columns 0 header (none, none) in
      elim type_idx [
        | none ↦ (true, t)
        | some ti ↦ elim price_idx [
          | none ↦ (true, t)
          | some pi ↦ read_rows parse_float ti pi rounds 1 reads t
        ]
      ]
]

-- `fetched` is the answer to the GET, `none` where there is none or its status is not 200.
unfoldable pub sync_once : (Text → Option Float64) → ℕ → Option (ℕ → Read) → Table → Bool × Table
unfolding sync_body
sync_once parse_float rounds none t = (true, t)
sync_once parse_float rounds (some reads) t = sync_body parse_float rounds reads t

-- The job's fields; the mutable table is passed on its own.
pub record SyncJob : Type 0 where
  pub table : Table
  pub url : Text
  pub period : Duration

-- 6 hours
unfoldable pub new_sync_job : SyncJob
unfolding new_table
new_sync_job = record {
  table = new_table;
  url =
      bytes "https://raw.githubusercontent.com/skypilot-org/skypilot-catalog/master/v1/aws/vms.csv";
  period = pos 21_600_000_000_000;
}

-- One synchronisation at once and one for each tick until the context is done; `answers` are what
-- they get. One that does not end keeps the next from its turn.
unfoldable pub start : (Text → Option Float64) → ℕ → List (Option (ℕ → Read)) → Table → Bool × Table
unfolding sync_once
start parse_float rounds [] t = (true, t)
start parse_float rounds (fetched ∷ answers) t =
    let (ended, t') = sync_once parse_float rounds fetched t in
    let rest = start parse_float rounds answers t' in if ended then rest else (false, t')
