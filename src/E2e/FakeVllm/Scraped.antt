-- ===== src/E2e/FakeVllm/Scraped.antt =====
-- The fake engine and the gateway together: the rate that the gateway scrapes off the engine.
use opencoda.Prelude.{
  ℕ, ◌+◌, ◌^◌, ◌≤◌, ◌<◌, ◌≡◌, refl, ap, ◌∙◌, inl, inr, Bool, true, false, ◌&&◌, some, List, [], ◌∷◌,
  arith, if◌then◌else◌, Bool-cases, length, count, count-le-length, pos, Text, bytes, text_beq,
  text_beq_iff,
}
use opencoda.Floats.{FloatOps}
use opencoda.Gateway.Sync.{scrape_kv_hit_rate}
use opencoda.Gateway.Metrics.{parse_prefix_cache_metrics, Counters}
use opencoda.E2e.FakeVllm.{
  new_counts, metrics_page, is_shared, complete, page_or_panic, handle, handle_all, Counts, Request,
  page,
}
use opencoda.E2e.FakeVllm.Page.{parse_prefix_cache_metrics-metrics_page}

-- The requests that ask for a completion, and those of them with the shared prefix.
abbrev pub asks : Request → Bool
asks req = text_beq req.path (bytes "/v1/chat/completions")

abbrev pub asks_shared : Request → Bool
asks_shared req = asks req && is_shared req.messages

-- A path is one route at most.
other_route :
    (path : Text)
    → text_beq path (bytes "/v1/chat/completions") ≡ true
    → (text_beq path (bytes "/health") ≡ false) × (text_beq path (bytes "/metrics") ≡ false)
unfolding text_beq
other_route path e = rw ((text_beq_iff path (bytes "/v1/chat/completions")).0 e) (refl, refl)

handle_other : (req : Request) (c : Counts) → asks req ≡ false → (handle req c).0 ≡ c
unfolding handle
handle_other req c e = ground (arith, e)

handle_completion :
    (req : Request) (c : Counts) → asks req ≡ true → (handle req c).0 ≡ complete req.messages c
unfolding handle
handle_completion req c e = ground (arith, e, other_route req.path e)

-- A request counts at most once, as what it asks for.
handle_counts :
    (req : Request) (c : Counts)
    → c.prefix_hits ≤ c.prefix_queries
    → c.prefix_queries + 1 < 2 ^ 64
    → ((handle req c).0.prefix_hits ≡ c.prefix_hits + (if asks_shared req then 1 else 0))
      × ((handle req c).0.prefix_queries ≡ c.prefix_queries + (if asks req then 1 else 0))
unfolding complete
handle_counts req c le few = elim (Bool-cases (asks req)) [
  | inl asked ↦ rw (handle_completion req c asked) (ground (arith, asked), ground (arith, asked))
  | inr other ↦ rw (handle_other req c other) (ground (arith, other), ground (arith, other))
]

handle_all_counts :
    (reqs : List Request) (c : Counts)
    → c.prefix_hits ≤ c.prefix_queries
    → c.prefix_queries + length reqs < 2 ^ 64
    → ((handle_all reqs c).prefix_hits ≡ c.prefix_hits + count asks_shared reqs)
      × ((handle_all reqs c).prefix_queries ≡ c.prefix_queries + count asks reqs)
unfolding handle_all
handle_all_counts [] c le few = (omega arith, omega arith)
handle_all_counts (req ∷ reqs) c le few =
    let (h, q) = handle_counts req c le (omega arith) in
    let (hs, qs) =
      handle_all_counts reqs (handle req c).0 (ground (arith, h, q)) (ground (arith, q)) in
    (omega (arith, h, hs), omega (arith, q, qs))

abbrev counters : ℕ → ℕ → Counters
counters h q = record { hits = h; queries = q; ok = true }

counters_eq : (h h' q q' : ℕ) → h ≡ h' → q ≡ q' → counters h q ≡ counters h' q'
counters_eq h h' q q' e e' = rw (e, e') refl

metrics_served :
    (c : Counts) (text : Text)
    → metrics_page c ≡ some text
    → (handle (record { path = bytes "/metrics"; messages = [] }) c).1 ≡ page text
unfolding handle metrics_page
metrics_served c text e = ap page_or_panic e

scrape_kv_hit_rate-parsed :
    (fl : FloatOps) (ip text : Text) (h q : ℕ)
    → parse_prefix_cache_metrics text ≡ record { hits = h; queries = q; ok = true }
    → 0 < q
    → scrape_kv_hit_rate fl (λ _. some text) ip
      ≡ some (fl.div (fl.of_int (pos h)) (fl.of_int (pos q)))
unfolding scrape_kv_hit_rate
scrape_kv_hit_rate-parsed fl ip text h q e some_asked = rw (scrape_kv_hit_rate, e) (ground arith)

-- After any requests, fewer than 2^64 and one for a completion among them, the page of an engine
-- that has just been started is served, and the gateway scrapes off it the number of completions
-- with the shared prefix divided by the number of completions.
pub scrape_kv_hit_rate-handle_all :
    (fl : FloatOps) (ip : Text) (reqs : List Request)
    → length reqs < 2 ^ 64
    → 0 < count asks reqs
    → (text : Text) × ((handle
          (record { path = bytes "/metrics"; messages = [] })
          (handle_all reqs new_counts)).1
        ≡ page text)
      × (scrape_kv_hit_rate fl (λ _. some text) ip
          ≡ some (
              fl.div
                (fl.of_int (pos (count asks_shared reqs)))
                (fl.of_int (pos (count asks reqs)))))
scrape_kv_hit_rate-handle_all fl ip reqs few some_asked =
    let (h, q) = handle_all_counts reqs new_counts (omega arith) (omega arith) in
    let (text, served, parsed) =
      parse_prefix_cache_metrics-metrics_page (handle_all reqs new_counts)
        (omega (arith, h, count-le-length asks_shared reqs))
        (omega (arith, q, count-le-length asks reqs)) in
    (
      text,
      metrics_served (handle_all reqs new_counts) text served,
      scrape_kv_hit_rate-parsed fl ip text (count asks_shared reqs) (count asks reqs)
          (parsed ∙ counters_eq _ _ _ _ (omega (arith, h)) (omega (arith, q))) some_asked,
    )
