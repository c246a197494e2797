-- ===== src/E2e/LoadGen.antt =====
-- test/e2e/loadgen/main.go: bursts of completions against a gateway. The HTTP client, the clock, the
-- random numbers and json.Marshal are the interface `World`; what is printed is left out, but for
-- the summary.
pub mod Counted
use opencoda.Prelude.{
  ℕ, zero, suc, ◌+◌, Bool, ◌&&◌, ◌||◌, Option, none, some, [], ◌++◌, ltb, nat_beq, if◌then◌else◌,
  pos_part, ltb_ℤ, ℤ, pos, Text, bytes, text_beq, contains, decimal_ℕ,
}
use opencoda.Api.{Float64}
use opencoda.Floats.{FloatOps}

-- What client.Do gives: an error, or a status and a body.
pub data Sent : Type 0 where
  failed : Sent
  status : ℕ → Text → Sent

pub record World (W : Type 0) : Type 0 where
  -- http.NewRequest, true where it gives no error
  pub new_request : Text → Bool
  -- json.Marshal of the model, the system prompt and the question
  pub marshal : Text → Text → Text → Text
  -- client.Do of the request with that URL, token and payload
  pub send : Text → Text → Text → W → W × Sent
  -- client.Do of a request with that URL and token that was sent before, and whose body has been read
  pub resend : Text → Text → W → W × Sent
  pub sleep : ℤ → W → W
  -- rand.Intn
  pub intn : ℕ → W → W × ℕ
  -- time.Since(start).Seconds(), both in the state
  pub seconds_between : W → W → Float64

pub record Flags : Type 0 where
  pub gateway_url : Text
  pub token : Text
  pub model : Text
  pub bursts : ℤ
  pub burst_size : ℤ
  pub idle_sec : ℤ
  pub system : Text

pub record Tally : Type 0 where
  pub total_requests : ℕ
  pub successes : ℕ
  pub first_hits : ℕ
  pub busy_seconds : Float64
  pub provisioned : Float64

-- The times that `for i := 0; i < n; i++` goes round.
abbrev pub rounds : ℤ → ℕ
rounds n = pos_part n

abbrev pub question_text : ℕ → ℕ → ℕ → Text
question_text i b n =
    bytes "turn-"
    ++ (decimal_ℕ i ++ (bytes "-burst-" ++ (decimal_ℕ b ++ (bytes " question " ++ decimal_ℕ n))))

module _ {W : Type 0} (fl : FloatOps) (world : World W) (flags : Flags) where
  abbrev completions_url : Text
  completions_url = flags.gateway_url ++ bytes "/v1/chat/completions"

  -- A request answered with 200 at last; `first` where it counts as a hit of the first request.
  abbrev pub succeed : Bool → W → W → Tally → Tally
  succeed first start w t = record t {
    successes = t.successes + 1;
    first_hits = if first then t.first_hits + 1 else t.first_hits;
    busy_seconds = fl.add t.busy_seconds (world.seconds_between start w);
  }

  abbrev pub after_retry : Bool → W → W → Tally → Sent → W × Tally → W × Tally
  after_retry first start w t failed rest = rest
  after_retry first start w t (status code body) rest =
      if nat_beq code 200 then (w, succeed first start w t) else rest

  -- Up to so many retries of a request that got 429. It is the same request each time, and its body
  -- was read when it was first sent.
  unfoldable pub retry : ℕ → Bool → W → W → Tally → W × Tally
  retry zero first start w t = (w, t)
  retry (suc k) first start w t =
      let (w', sent) = world.resend completions_url flags.token (world.sleep (pos 2) w) in
      let rest = retry k first start w' t in after_retry first start w' t sent rest

  unfoldable pub after_send : ℕ → W → W → Tally → Sent → W × Tally
  unfolding retry contains
  after_send i start w t failed = (w, t)
  after_send i start w t (status code body) =
      let hit = contains body (bytes "hello") || contains body (bytes "choices") in
      if nat_beq code 200
      then (w, succeed (nat_beq i 0 && hit) start w t)
      else if nat_beq code 429
      then retry 30 (nat_beq i 0) start w t
      else (w, t)

  -- The request `i` of the burst `b`; `none` is the panic of http.NewRequest's error.
  unfoldable pub one_request : ℕ → ℕ → W → Tally → Option (W × Tally)
  unfolding after_send decimal_ℕ
  one_request b i w t0 =
      let t = record t0 { total_requests = t0.total_requests + 1 } in
      let (w1, n) = world.intn 1000 w in
      let payload = world.marshal flags.model flags.system (question_text i b n) in
      let (w2, sent) = world.send completions_url flags.token payload w1 in
      if world.new_request completions_url then some (after_send i w1 w2 t sent) else none

  -- So many requests more of a burst, from the request `i` on.
  unfoldable pub burst : ℕ → ℕ → ℕ → W → Tally → Option (W × Tally)
  unfolding one_request
  burst zero b i w t = some (w, t)
  burst (suc k) b i w t = elim (one_request b i w t) [
    | none ↦ none
    | some (w', t') ↦ burst k b (i + 1) w' t'
  ]

  -- So many bursts more, from the burst `b` on.
  unfoldable pub bursts_from : ℕ → ℕ → W → Tally → Option (W × Tally)
  unfolding burst
  bursts_from zero b w t = some (w, t)
  bursts_from (suc k) b w t =
      let start = if ltb 0 b then world.sleep flags.idle_sec w else w in
      elim (burst (rounds flags.burst_size) b 0 start t) [
        | none ↦ none
        | some (w', t') ↦
            bursts_from k (b + 1) w'
              (record t' { provisioned = fl.add t'.provisioned (world.seconds_between start w') })
      ]

  abbrev pub no_tally : Tally
  no_tally = record {
    total_requests = 0;
    successes = 0;
    first_hits = 0;
    busy_seconds = fl.ratio 0 1;
    provisioned = fl.ratio 0 1;
  }

  -- The numbers of the summary, with the two rates.
  pub record Summary : Type 0 where
    pub tally : Tally
    pub utilization : Float64
    pub first_hit_rate : Float64

  abbrev pub summarise : Tally → Summary
  summarise t = record {
    tally = t;
    utilization =
        if fl.less (fl.ratio 0 1) t.provisioned
        then fl.div t.busy_seconds t.provisioned
        else fl.ratio 0 1;
    first_hit_rate =
        if ltb_ℤ (pos 0) flags.bursts
        then fl.div (fl.of_int (pos t.first_hits)) (fl.of_int flags.bursts)
        else fl.ratio 0 1;
  }

  pub data Exit : Type 0 where
    token_required panicked : Exit
    summary : Summary → Exit

  unfoldable pub main : W → Exit
  unfolding bursts_from text_beq
  main w =
      if text_beq flags.token []
      then token_required
      else elim (bursts_from (rounds flags.bursts) 0 w no_tally) [
        | none ↦ panicked
        | some (w', t) ↦ summary (summarise t)
      ]
