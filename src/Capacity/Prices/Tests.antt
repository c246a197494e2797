-- ===== src/Capacity/Prices/Tests.antt =====
-- A catalog with two rows for one type.
use opencoda.Prelude.{
  ℕ, ◌+◌, ◌<◌, ◌≡◌, refl, ◌↔◌, true, none, some, List, [], ◌∷◌, map, nat_beq, if◌then◌else◌, Text,
  bytes, text_beq, parse_digits, parse_ℕ, lookup,
}
use opencoda.Capacity.Prices.{new_table, columns, sync_once, Read, end, broken, row}
use opencoda.Capacity.Prices.Loop.{sync_once-EndsWithin}
use opencoda.Capacity.Prices.Rows.{reads_of, last_price, lookup-sync_once}

abbrev header : List Text
header = bytes "Region" ∷ bytes "InstanceType" ∷ bytes "Price" ∷ []

abbrev rows : List (List Text)
rows =
    (bytes "us" ∷ bytes "p5" ∷ bytes "30" ∷ [])
    ∷ (bytes "eu" ∷ bytes "p5" ∷ bytes "20" ∷ [])
    ∷ (bytes "ap" ∷ bytes "p5" ∷ bytes "dear" ∷ [])
    ∷ []

abbrev catalog : ℕ → Read
catalog = reads_of (row header ∷ map row rows)

both_named : columns 0 header (none, none) ≡ (some 1, some 2)
unfolding columns text_beq
both_named = refl

last_taken : last_price parse_ℕ 1 2 (bytes "p5") rows none ≡ some 20
unfolding parse_ℕ parse_digits text_beq
last_taken = refl

lookup-sync_once_example :
    ((sync_once parse_ℕ 4 (some catalog) new_table).0 ≡ true)
    × (lookup (bytes "p5") (sync_once parse_ℕ 4 (some catalog) new_table).1.prices
        ≡ last_price parse_ℕ 1 2 (bytes "p5") rows (lookup (bytes "p5") new_table.prices))
lookup-sync_once_example =
    lookup-sync_once parse_ℕ (bytes "p5") header rows new_table 1 2 both_named

-- After the header every read is an error.
abbrev broken_off : ℕ → Read
broken_off i = if nat_beq i 0 then row header else broken

sync_once-EndsWithin_example :
    ((sync_once parse_ℕ 1000 (some broken_off) new_table).0 ≡ true)
    ↔ ((n : ℕ) × (n < 1000) × (broken_off (1 + n) ≡ end))
sync_once-EndsWithin_example =
    sync_once-EndsWithin parse_ℕ 1000 broken_off header new_table refl (1, 2, both_named)
