-- ===== src/Buffer/ScaleDown/Limits.antt =====
-- How far one pass of scaleDown over a pool goes.
use opencoda.Prelude.{
  ℕ, suc, ◌+◌, ◌≡◌, refl, ap, inl, inr, Bool, true, false, List, [], ◌∷◌, arith, if◌then◌else◌,
  Bool-cases, length, count, pos_part, neg_part, ◌+ℤ◌, ◌-ℤ◌, ◌≤ℤ◌, ◌<ℤ◌, eq_of_parts, ℤ, int_laws,
  pos, bytes, text_beq, text_beq_iff,
}
use opencoda.Api.{Time, Duration, NodeRecord, GpuPool}
use opencoda.Capacity.Cache.{ProviderCache}
use opencoda.Results.{Result-cases}
use opencoda.Buffer.Types.{Api}
use opencoda.Buffer.ScaleDown.{drain_and_release, drains, drain_records, Drained}

abbrev pub is_released : NodeRecord → Bool
is_released r = text_beq r.state (bytes "released")

add_both : (a b : ℤ) (k m n : ℕ) → a +ℤ pos m ≡ b +ℤ pos n → a +ℤ pos (k + m) ≡ b +ℤ pos (k + n)
add_both a b k m n h =
    eq_of_parts (a +ℤ pos (k + m)) (b +ℤ pos (k + n))
      (omega (int_laws, ap pos_part h, ap neg_part h))

take_one :
    (a b : ℤ) (m n : ℕ) → a +ℤ pos m ≡ b -ℤ pos 1 +ℤ pos n → a +ℤ pos (1 + m) ≡ b +ℤ pos (0 + n)
take_one a b m n h =
    eq_of_parts (a +ℤ pos (1 + m)) (b +ℤ pos (0 + n))
      (omega (int_laws, ap pos_part h, ap neg_part h))

more_left :
    (a e e' : ℤ) (k m n : ℕ)
    → (pos m +ℤ a) ≤ℤ (pos n +ℤ e')
    → e' ≤ℤ e
    → (pos (k + m) +ℤ a) ≤ℤ (pos (k + n) +ℤ e)
more_left a e e' k m n h less = omega (int_laws, h)

module _ {S : Type 0} (api : Api S) (stab drain_timeout : Duration) (now : Time)
    (pool : GpuPool) where
  -- However the pass ends: no record is added or dropped, the excess is not driven below zero, at
  -- most so many records become released as the excess falls by, and with each of them the counter
  -- of buffered nodes falls by one.
  pub record Limited (rs : List NodeRecord) (excess buffered : ℤ) (d : Drained api) : Type 0 where
    pub same_length : length d.records ≡ length rs
    pub excess_left : pos 0 ≤ℤ excess → pos 0 ≤ℤ d.excess
    pub at_most :
        (pos (count is_released d.records) +ℤ d.excess) ≤ℤ (pos (count is_released rs) +ℤ excess)
    pub counted :
        d.buffered +ℤ pos (count is_released d.records) ≡ buffered +ℤ pos (count is_released rs)

  drains-buffered :
      (excess : ℤ) (r : NodeRecord)
      → drains api stab now excess r ≡ true
      → (pos 0 <ℤ excess) × (is_released r ≡ false)
  unfolding drains text_beq
  drains-buffered excess r h =
      let buffered : text_beq r.state (bytes "buffered") ≡ true = ground arith in
      let same : r.state ≡ bytes "buffered" =
        (text_beq_iff r.state (bytes "buffered")).0 buffered in
      (ground arith, rw same refl)

  -- The record at the head stays as it is, and the excess is not raised.
  kept_head :
      (r : NodeRecord) (rs : List NodeRecord) (e e' b : ℤ) (d : Drained api)
      → Limited rs e' b d
      → e' ≤ℤ e
      → (pos 0 ≤ℤ e → pos 0 ≤ℤ e')
      → Limited (r ∷ rs) e b (record d { records = r ∷ d.records })
  kept_head r rs e e' b d l less left = record {
    same_length = ap suc l.same_length;
    excess_left = λ h. l.excess_left (left h);
    at_most = more_left d.excess e e' (if is_released r then 1 else 0) _ _ l.at_most less;
    counted = add_both d.buffered b (if is_released r then 1 else 0) _ _ l.counted;
  }

  -- The record at the head is released.
  released_head :
      (r : NodeRecord) (rs : List NodeRecord) (e b : ℤ) (d : Drained api)
      → Limited rs (e -ℤ pos 1) (b -ℤ pos 1) d
      → pos 0 <ℤ e
      → is_released r ≡ false
      → Limited
          (r ∷ rs)
          e
          b
          (record d { records = record r { state = bytes "released" } ∷ d.records })
  unfolding text_beq
  released_head r rs e b d l more not_yet = record {
    same_length = ap suc l.same_length;
    excess_left = λ h. l.excess_left (omega int_laws);
    at_most = rw not_yet (omega (int_laws, l.at_most));
    counted = rw not_yet (take_one d.buffered b _ _ l.counted);
  }

  -- On every path, errors included, a pass over the records is limited in this way.
  pub drain_records-Limited :
      (rs : List NodeRecord) (excess buffered : ℤ) (providers : ProviderCache S) (s : S)
      → Limited rs excess buffered
          (drain_records api stab drain_timeout now pool rs excess buffered providers s)
  unfolding drain_records
  drain_records-Limited [] excess buffered providers s = record {
    same_length = refl;
    excess_left = λ h. h;
    at_most = omega arith;
    counted = refl;
  }
  drain_records-Limited (r ∷ rs) excess buffered providers s =
      elim (Bool-cases (drains api stab now excess r)) [
        | inr stays ↦
            rw (stays, drain_records)
              (kept_head r rs excess excess buffered _
                (drain_records-Limited rs excess buffered providers s) (omega arith) (λ h. h))
        | inl taken ↦
            let (more, not_yet) = drains-buffered excess r taken in
            elim (Result-cases (drain_and_release api drain_timeout pool r providers s).1) [
              | inl (e, bad) ↦
                  rw (taken, drain_records, bad)
                    (record {
                      same_length = refl;
                      excess_left = λ h. h;
                      at_most = omega arith;
                      counted = refl;
                    })
              | inr (true, good) ↦
                  rw (taken, drain_records, good)
                    (released_head r rs excess buffered _
                      (drain_records-Limited rs (excess -ℤ pos 1) (buffered -ℤ pos 1) _ _) more
                      not_yet)
              | inr (false, good) ↦
                  rw (taken, drain_records, good)
                    (kept_head r rs excess (excess -ℤ pos 1) buffered _
                      (drain_records-Limited rs (excess -ℤ pos 1) buffered _ _) (omega int_laws)
                      (λ h. omega int_laws))
            ]
      ]
