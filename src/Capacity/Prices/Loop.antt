-- ===== src/Capacity/Prices/Loop.antt =====
-- When the loop over the rows of a catalog ends.
use opencoda.Prelude.{
  ℕ, zero, suc, ◌+◌, ◌<◌, ◌≡◌, refl, sym, ap, ◌∙◌, ◌≢◌, ◌↔◌, ◌⊎◌, inl, inr, true, Option, none,
  some, List, arith, Text,
}
use opencoda.Api.{Float64}
use opencoda.Capacity.Prices.{
  columns, take_row, read_rows, sync_body, sync_once, Table, Read, end, broken, row,
}

Read-cases : (r : Read) → (r ≡ end) ⊎ ((r ≡ broken) ⊎ ((cells : List Text) × (r ≡ row cells)))
Read-cases end = inl refl
Read-cases broken = inr (inl refl)
Read-cases (row cells) = inr (inr (cells, refl))

broken_on : broken ≢ end
broken_on e = absurd (cc e)

row_on : (cells : List Text) → row cells ≢ end
row_on cells e = absurd (cc e)

module _ (parse_float : Text → Option Float64) (type_idx price_idx : ℕ) (reads : ℕ → Read) where
  -- The end of the file is met within so many reads from `i` on.
  abbrev pub EndsWithin : ℕ → ℕ → Type 0
  EndsWithin rounds i = (n : ℕ) × (n < rounds) × (reads (i + n) ≡ end)

  one_later : (rounds i : ℕ) → EndsWithin rounds (i + 1) → EndsWithin (suc rounds) i
  one_later rounds i (n, less, e) = (suc n, omega (arith, less), ap reads (omega arith) ∙ e)

  one_earlier :
      (rounds i : ℕ) → reads i ≢ end → EndsWithin (suc rounds) i → EndsWithin rounds (i + 1)
  one_earlier rounds i other (zero, less, e) = absurd (other (ap reads (omega arith) ∙ e))
  one_earlier rounds i other (suc n, less, e) = (n, omega (arith, less), ap reads (omega arith) ∙ e)

  read_rows-EndsWithin :
      (rounds i : ℕ) (t : Table)
      → ((read_rows parse_float type_idx price_idx rounds i reads t).0 ≡ true) ↔ EndsWithin rounds i
  unfolding read_rows
  read_rows-EndsWithin zero i t =
      ((λ h. absurd (cc h)), (λ (n, less, e). absurd (omega (arith, less))))
  read_rows-EndsWithin (suc rounds) i t = elim (Read-cases (reads i)) [
    | inl e ↦ rw (e, read_rows) ((λ h. (0, omega arith, ap reads (omega arith) ∙ e)), (λ h. refl))
    | inr (inl e) ↦
        let ih = read_rows-EndsWithin rounds (i + 1) t in
        rw (e, read_rows)
          (
            (λ h. one_later rounds i (ih.0 h)),
            (λ h. ih.1 (one_earlier rounds i (λ q. broken_on (sym e ∙ q)) h)),
          )
    | inr (inr (cells, e)) ↦
        let ih =
          read_rows-EndsWithin rounds (i + 1) (take_row parse_float type_idx price_idx cells t) in
        rw (e, read_rows)
          (
            (λ h. one_later rounds i (ih.0 h)),
            (λ h. ih.1 (one_earlier rounds i (λ q. row_on cells (sym e ∙ q)) h)),
          )
  ]

-- The header names both columns.
abbrev pub Headed : List Text → Type 0
Headed header = (ti : ℕ) × (pi : ℕ) × (columns 0 header (none, none) ≡ (some ti, some pi))

-- With a header that names both columns, the synchronisation ends within so many reads of rows
-- exactly when the end of the file is among them: a reader that gives errors for ever, as after a
-- broken connection, keeps it running for ever.
pub sync_once-EndsWithin :
    (parse_float : Text → Option Float64) (rounds : ℕ) (reads : ℕ → Read) (header : List Text)
    (t : Table)
    → reads 0 ≡ row header
    → Headed header
    → ((sync_once parse_float rounds (some reads) t).0 ≡ true)
      ↔ ((n : ℕ) × (n < rounds) × (reads (1 + n) ≡ end))
unfolding sync_once sync_body
sync_once-EndsWithin parse_float rounds reads header t first (ti, pi, named) =
    rw (first, sync_once, sync_body, ap (λ q. q.0) named, ap (λ q. q.1) named)
      (read_rows-EndsWithin parse_float ti pi reads rounds 1 t)
