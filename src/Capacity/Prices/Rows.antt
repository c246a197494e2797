-- ===== src/Capacity/Prices/Rows.antt =====
-- Which price the table holds after a synchronisation.
use opencoda.Prelude.{
  ℕ, suc, ◌+◌, ◌≡◌, refl, ap, ◌∙◌, inl, inr, true, Option, none, some, List, [], ◌∷◌, map, arith,
  if◌then◌else◌, Option-cases, length, get_elem?, Text, text_beq, lookup, lookup-insert,
}
use opencoda.Api.{Float64}
use opencoda.Capacity.Prices.{
  set, columns, take_row, read_rows, sync_body, sync_once, Table, Read, end, row,
}

-- A reader over a file of these reads.
abbrev pub reads_of : List Read → ℕ → Read
reads_of rs i = elim (get_elem? rs i) [ none ↦ end | some r ↦ r ]

module _ (parse_float : Text → Option Float64) (type_idx price_idx : ℕ) where
  -- The price that a row gives for a type.
  abbrev pub offered : Text → List Text → Option Float64
  offered name cells = elim (get_elem? cells price_idx) [
    | none ↦ none
    | some text ↦ elim (parse_float text) [
      | none ↦ none
      | some price ↦ elim (get_elem? cells type_idx) [
        | none ↦ none
        | some instance_type ↦ if text_beq instance_type name then some price else none
      ]
    ]
  ]

  -- The price of the last row for the type, or `old` where there is none.
  abbrev pub last_price : Text → List (List Text) → Option Float64 → Option Float64
  last_price name [] old = old
  last_price name (cells ∷ rows) old =
      last_price name rows (elim (offered name cells) [ none ↦ old | some price ↦ some price ])

  lookup-take_row :
      (name : Text) (cells : List Text) (t : Table)
      → lookup name (take_row parse_float type_idx price_idx cells t).prices
        ≡ (elim (offered name cells) [ none ↦ lookup name t.prices | some price ↦ some price ])
  unfolding take_row set
  lookup-take_row name cells t = elim (Option-cases (get_elem? cells price_idx)) [
    | inl e ↦ rw (e, take_row) refl
    | inr (text, e) ↦ elim (Option-cases (parse_float text)) [
      | inl e2 ↦ rw (e, take_row, e2) refl
      | inr (price, e2) ↦ elim (Option-cases (get_elem? cells type_idx)) [
        | inl e3 ↦ rw (e, take_row, e2, e3) refl
        | inr (instance_type, e3) ↦
            rw (e, take_row, e2, e3)
              (ground (arith, lookup-insert instance_type name price t.prices))
      ]
    ]
  ]

  lookup-read_rows :
      (name : Text) (rs : List (List Text)) (i : ℕ) (reads : ℕ → Read) (t : Table)
      → ((n : ℕ) → reads (i + n) ≡ reads_of (map row rs) n)
      → ((read_rows parse_float type_idx price_idx (suc (length rs)) i reads t).0 ≡ true)
        × (lookup name
              (read_rows parse_float type_idx price_idx (suc (length rs)) i reads t).1.prices
            ≡ last_price name rs (lookup name t.prices))
  unfolding read_rows
  lookup-read_rows name [] i reads t same =
      let e : reads i ≡ end = ap reads (omega arith) ∙ same 0 in rw (e, read_rows) (refl, refl)
  lookup-read_rows name (cells ∷ rs) i reads t same =
      let e : reads i ≡ row cells = ap reads (omega arith) ∙ same 0 in
      let (ends, found) =
        lookup-read_rows name rs (i + 1) reads (take_row parse_float type_idx price_idx cells t)
          (λ n. ap reads (omega arith) ∙ same (suc n)) in
      rw (e, read_rows) (ends, found ∙ ap (last_price name rs) (lookup-take_row name cells t))

-- Where the file is a header that names both columns, then rows, then its end, the synchronisation
-- ends, and the table holds for each type the price of the last row for it whose price is a number,
-- and what it held before for a type without such a row.
pub lookup-sync_once :
    (parse_float : Text → Option Float64) (name : Text) (header : List Text) (rs : List (List Text))
    (t : Table) (ti pi : ℕ)
    → columns 0 header (none, none) ≡ (some ti, some pi)
    → ((sync_once parse_float (suc (length rs)) (some (reads_of (row header ∷ map row rs))) t).0
        ≡ true)
      × (lookup name
            (sync_once parse_float
              (suc (length rs))
              (some (reads_of (row header ∷ map row rs)))
              t).1.prices
          ≡ last_price parse_float ti pi name rs (lookup name t.prices))
unfolding sync_once sync_body
lookup-sync_once parse_float name header rs t ti pi named =
    rw (sync_once, sync_body, ap (λ q. q.0) named, ap (λ q. q.1) named)
      (lookup-read_rows parse_float ti pi name rs 1 (reads_of (row header ∷ map row rs)) t (λ n.
        let next : 1 + n ≡ suc n = omega arith in ap (reads_of (row header ∷ map row rs)) next))
