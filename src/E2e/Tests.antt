-- ===== src/E2e/Tests.antt =====
-- Runs of the fake engine.
use opencoda.Prelude.{
  ℕ, ◌+◌, ◌-◌, ◌≤◌, ◌≡◌, refl, true, some, List, [], ◌∷◌, arith, ltb, if◌then◌else◌, count, pos,
  Text, bytes, text_beq, strip_prefix, has_prefix, contains,
}
use opencoda.Floats.Sample.{sample}
use opencoda.Gateway.Sync.{scrape_kv_hit_rate}
use opencoda.E2e.FakeVllm.{new_counts, handle, handle_all, Request, page}
use opencoda.E2e.LoadGen.{World, Flags, Summary, main, summary, retry, no_tally, status}
use opencoda.E2e.LoadGen.Counted.{main-Counted}
use opencoda.E2e.FakeVllm.Scraped.{asks, asks_shared, scrape_kv_hit_rate-handle_all}

abbrev asked : Text → Request
asked content = record { path = bytes "/v1/chat/completions"; messages = content ∷ [] }

abbrev requests : List Request
requests =
    asked (bytes "the shared-agent-prefix")
    ∷ asked (bytes "none")
    ∷ record { path = bytes "/health"; messages = [] }
    ∷ []

scrape_kv_hit_rate-handle_all_example :
    (text : Text) × ((handle
        (record { path = bytes "/metrics"; messages = [] })
        (handle_all requests new_counts)).1
      ≡ page text)
    × (scrape_kv_hit_rate sample (λ _. some text) (bytes "10.0.0.1")
        ≡ some (
            sample.div
              (sample.of_int (pos (count asks_shared requests)))
              (sample.of_int (pos (count asks requests)))))
unfolding text_beq
scrape_kv_hit_rate-handle_all_example =
    scrape_kv_hit_rate-handle_all sample (bytes "10.0.0.1") requests (omega arith) (omega arith)

-- One of the two completions had the prefix.
counted : handle_all requests new_counts ≡ record { prefix_hits = 1; prefix_queries = 2 }
unfolding handle_all text_beq contains has_prefix strip_prefix
counted = refl

-- A gateway without a replica at first: the world counts the requests, and from the fourth on they
-- are answered.
abbrev world : World ℕ
world = record {
  new_request = λ url. true;
  marshal = λ model system question. question;
  send = λ url token payload n. (n + 1, status (if ltb n 3 then 429 else 200) (bytes "hello"));
  resend = λ url token n. (n + 1, status (if ltb n 3 then 429 else 200) (bytes "hello"));
  sleep = λ seconds n. n;
  intn = λ limit n. (n, 0);
  seconds_between = λ start now. now - start;
}

abbrev flags : Flags
flags = record {
  gateway_url = bytes "http://g";
  token = bytes "a:b";
  model = bytes "m";
  bursts = pos 2;
  burst_size = pos 2;
  idle_sec = pos 30;
  system = bytes "s";
}

main-Counted_example :
    (s : Summary sample world flags) × (main sample world flags 0 ≡ summary s)
    × (s.tally.total_requests ≡ 4)
    × (s.tally.successes ≤ s.tally.total_requests)
    × (s.tally.first_hits ≤ s.tally.successes)
    × (s.tally.first_hits ≤ 2)
main-Counted_example = main-Counted sample world flags 0 (λ e. absurd (cc e)) refl

-- The first request is retried until it succeeds.
retried : (retry sample world flags 30 true 0 1 (no_tally sample world flags)).1.successes ≡ 1
unfolding retry
retried = refl
