-- ===== src/E2e/LoadGen/Counted.antt =====
-- What the summary of the load generator adds up to.
use opencoda.Prelude.{
  ℕ, zero, suc, ◌+◌, ◌*◌, ◌≤◌, ◌≡◌, refl, ◌≢◌, ◌⊎◌, inl, inr, Bool, true, false, some, [], arith,
  ltb, nat_beq, if◌then◌else◌, Bool-cases, pos, Text, text_beq, text_beq_iff,
}
use opencoda.Api.{Float64}
use opencoda.Floats.{FloatOps}
use opencoda.E2e.LoadGen.{
  World, Flags, Tally, Sent, Summary, rounds, retry, one_request, burst, bursts_from, main, summary,
  failed, status, completions_url, no_tally, succeed, summarise, question_text, after_send,
  after_retry,
}

-- From one tally to another in `n` requests, `f` of them the first of a burst.
pub record Counted (n f : ℕ) (t t' : Tally) : Type 0 where
  pub all : t'.total_requests ≡ t.total_requests + n
  pub answered : t'.successes ≤ t.successes + n
  pub first : t'.first_hits ≤ t.first_hits + f
  pub hits : t'.first_hits + t.successes ≤ t.first_hits + t'.successes

Counted-trans :
    {n f m g : ℕ} {t t' t'' : Tally}
    → Counted n f t t'
    → Counted m g t' t''
    → Counted (n + m) (f + g) t t''
Counted-trans a b = record {
  all = omega (arith, a.all, b.all);
  answered = omega (arith, a.answered, b.answered);
  first = omega (arith, a.first, b.first);
  hits = omega (arith, a.hits, b.hits);
}

Counted-within : {n m f g : ℕ} {t t' : Tally} → n ≡ m → f ≤ g → Counted n f t t' → Counted m g t t'
Counted-within e le c = record {
  all = omega (arith, e, c.all);
  answered = omega (arith, e, c.answered);
  first = omega (arith, le, c.first);
  hits = c.hits;
}

Counted-refl : (f : ℕ) (t : Tally) → Counted 0 f t t
Counted-refl f t = record {
  all = omega arith;
  answered = omega arith;
  first = omega arith;
  hits = omega arith;
}

-- Seconds are not counted.
provisioned_later :
    {n f : ℕ} {t t' : Tally} (p : Float64)
    → Counted n f t t'
    → Counted n f t (record t' { provisioned = p })
provisioned_later p c = record {
  all = c.all;
  answered = c.answered;
  first = c.first;
  hits = c.hits;
}

not_empty : (s : Text) → s ≢ [] → text_beq s [] ≡ false
not_empty s given = ground (arith, text_beq_iff s [])

abbrev first_of : ℕ → ℕ
first_of i = if nat_beq i 0 then 1 else 0

module _ {W : Type 0} (fl : FloatOps) (world : World W) (flags : Flags) where
  -- A tally that is left as it was, or has one success more, which is a hit only if `may_hit`.
  abbrev Gained : Bool → Tally → Tally → Type 0
  Gained may_hit t t' =
      (t' ≡ t)
      ⊎ ((first : Bool) × (start : W) × (w : W) × (t' ≡ succeed fl world flags first start w t)
          × (first ≡ true → may_hit ≡ true))

  Gained-retried :
      (first : Bool) (start w : W) (t : Tally) (sent : Sent) (rest : W × Tally)
      → Gained first t rest.1
      → Gained first t (after_retry fl world flags first start w t sent rest).1
  Gained-retried first start w t failed rest h = h
  Gained-retried first start w t (status code body) rest h = elim (Bool-cases (nat_beq code 200)) [
    | inl ok ↦ rw ok (inr (first, start, w, refl, λ e. e))
    | inr other ↦ rw other h
  ]

  -- However many retries there are, one succeeds at most.
  retry-Gained :
      (k : ℕ) (first : Bool) (start w : W) (t : Tally)
      → Gained first t (retry fl world flags k first start w t).1
  unfolding retry
  retry-Gained zero first start w t = inl refl
  retry-Gained (suc k) first start w t =
      let (w', sent) =
        world.resend (completions_url fl world flags) flags.token (world.sleep (pos 2) w) in
      Gained-retried first start w' t sent (retry fl world flags k first start w' t)
        (retry-Gained k first start w' t)

  Gained-Counted :
      (i : ℕ) (t t' : Tally)
      → Gained (nat_beq i 0) (record t { total_requests = t.total_requests + 1 }) t'
      → Counted 1 (first_of i) t t'
  Gained-Counted i t t' (inl e) = rw e (record {
    all = omega arith;
    answered = omega arith;
    first = omega arith;
    hits = omega arith;
  })
  Gained-Counted i t t' (inr (true, start, w, e, may)) =
      rw (e, may refl)
        (record {
          all = omega arith;
          answered = omega arith;
          first = omega arith;
          hits = omega arith;
        })
  Gained-Counted i t t' (inr (false, start, w, e, may)) = rw e (record {
    all = omega arith;
    answered = omega arith;
    first = omega arith;
    hits = omega arith;
  })

  after_send-Gained :
      (i : ℕ) (start w : W) (t : Tally) (sent : Sent)
      → Gained (nat_beq i 0) t (after_send fl world flags i start w t sent).1
  unfolding after_send
  after_send-Gained i start w t failed = inl refl
  after_send-Gained i start w t (status code body) = elim (Bool-cases (nat_beq code 200)) [
    | inl ok ↦ rw ok (inr (_, start, w, refl, λ e. ground (arith, e)))
    | inr other ↦ elim (Bool-cases (nat_beq code 429)) [
      | inl busy ↦ rw (other, busy) (retry-Gained 30 (nat_beq i 0) start w t)
      | inr neither ↦ rw (other, neither) (inl refl)
    ]
  ]

  module _ (built : world.new_request (completions_url fl world flags) ≡ true) where
    -- A request is tallied, and its URL never makes it panic.
    one_request-Counted :
        (b i : ℕ) (w : W) (t : Tally)
        → (w' : W) × (t' : Tally) × (one_request fl world flags b i w t ≡ some (w', t'))
          × Counted 1 (first_of i) t t'
    unfolding one_request
    one_request-Counted b i w t =
        let counted : Tally = record t { total_requests = t.total_requests + 1 } in
        let (w1, n) = world.intn 1000 w in
        let payload = world.marshal flags.model flags.system (question_text i b n) in
        let (w2, sent) = world.send (completions_url fl world flags) flags.token payload w1 in
        let done = after_send fl world flags i w1 w2 counted sent in
        (
          done.0,
          done.1,
          rw built refl,
          Gained-Counted i t done.1 (after_send-Gained i w1 w2 counted sent),
        )

    -- Only the request 0 is the first of its burst.
    burst-Counted :
        (k b i : ℕ) (w : W) (t : Tally)
        → (w' : W) × (t' : Tally) × (burst fl world flags k b i w t ≡ some (w', t'))
          × Counted k (first_of i) t t'
    unfolding burst
    burst-Counted zero b i w t = (w, t, refl, Counted-refl (first_of i) t)
    burst-Counted (suc k) b i w t =
        let (w', t', e, one) = one_request-Counted b i w t in
        let (w'', t'', e', others) = burst-Counted k b (i + 1) w' t' in
        (
          w'',
          t'',
          rw (burst, e, e') refl,
          Counted-within (omega arith) (ground arith) (Counted-trans one others),
        )

    -- Every burst adds its requests, and one first request at most.
    bursts_from-Counted :
        (k b : ℕ) (w : W) (t : Tally)
        → (w' : W) × (t' : Tally) × (bursts_from fl world flags k b w t ≡ some (w', t'))
          × Counted (k * rounds flags.burst_size) k t t'
    unfolding bursts_from
    bursts_from-Counted zero b w t =
        (w, t, refl, Counted-within (grind arith) (omega arith) (Counted-refl 0 t))
    bursts_from-Counted (suc k) b w t =
        let start = if ltb 0 b then world.sleep flags.idle_sec w else w in
        let (w', t', e, one) = burst-Counted (rounds flags.burst_size) b 0 start t in
        let (w'', t'', e', others) =
          bursts_from-Counted k (b + 1) w'
            (record t' { provisioned = fl.add t'.provisioned (world.seconds_between start w') }) in
        (
          w'',
          t'',
          rw (bursts_from, e, e') refl,
          Counted-within (grind arith) (ground arith)
              (Counted-trans (provisioned_later _ one) others),
        )

  -- With a token, and where the requests can be built, the load generator comes to its summary: it
  -- has made the requests of all bursts, no more of them succeeded than were made, and the hits of
  -- first requests are no more than the successes and no more than the bursts.
  pub main-Counted :
      (w : W)
      → flags.token ≢ []
      → world.new_request (completions_url fl world flags) ≡ true
      → (s : Summary fl world flags) × (main fl world flags w ≡ summary s)
        × (s.tally.total_requests ≡ rounds flags.bursts * rounds flags.burst_size)
        × (s.tally.successes ≤ s.tally.total_requests)
        × (s.tally.first_hits ≤ s.tally.successes)
        × (s.tally.first_hits ≤ rounds flags.bursts)
  unfolding main
  main-Counted w given built =
      let (w', t, e, counted) =
        bursts_from-Counted built (rounds flags.bursts) 0 w (no_tally fl world flags) in
      (
        summarise fl world flags t,
        rw (main, not_empty flags.token given, e) refl,
        omega (arith, counted.all),
        omega (arith, counted.all, counted.answered),
        omega (arith, counted.hits),
        omega (arith, counted.first),
      )
