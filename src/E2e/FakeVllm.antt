-- ===== src/E2e/FakeVllm.antt =====
-- test/e2e/fakevllm/main.go: an engine that answers every completion alike and counts those with the
-- shared prefix. Each atomic access to a counter is one step; json.Unmarshal is an argument.
pub mod Page
pub mod Scraped
use opencoda.Prelude.{
  ℕ, zero, suc, ◌+◌, ◌/◌, ◌%◌, ◌^◌, Bool, Option, none, some, List, [], ◌∷◌, ◌++◌, ltb, nat_beq,
  if◌then◌else◌, Text, bytes, text_beq, contains,
}

-- Two counters of type uint64.
pub record Counts : Type 0 where
  pub prefix_hits : ℕ
  pub prefix_queries : ℕ

abbrev pub new_counts : Counts
new_counts = record { prefix_hits = 0; prefix_queries = 0 }

-- atomic.AddUint64(&x, 1)
abbrev pub add_one : ℕ → ℕ
add_one x = (x + 1) % 2 ^ 64

-- The loop over the free places of `buf`, of which there are `i`; `s` is what stands behind them.
-- `none` is the panic of an index below 0.
unfoldable pub itoa_loop : ℕ → ℕ → Text → Option Text
itoa_loop zero v s = if ltb 0 v then none else some s
itoa_loop (suc i) v s =
    let rest = itoa_loop i (v / 10) ((48 + v % 10) ∷ s) in if ltb 0 v then rest else some s

unfoldable pub itoa : ℕ → Option Text
unfolding itoa_loop
itoa v = if nat_beq v 0 then some (bytes "0") else itoa_loop 20 v []

-- The page with the two numbers in decimal.
abbrev pub page_of : Text → Text → Text
page_of hits queries =
    bytes "# HELP coda_prefix_cache_hits_total Prefix cache hits\n"
    ++ (bytes "# TYPE coda_prefix_cache_hits_total counter\n"
        ++ (bytes "coda_prefix_cache_hits_total "
            ++ (hits
                ++ (bytes "\n"
                    ++ (bytes "# HELP coda_prefix_cache_queries_total Prefix cache queries\n"
                        ++ (bytes "# TYPE coda_prefix_cache_queries_total counter\n"
                            ++ (bytes "coda_prefix_cache_queries_total "
                                ++ (queries ++ bytes "\n"))))))))

unfoldable pub metrics_page : Counts → Option Text
unfolding itoa
metrics_page c = elim (itoa c.prefix_hits) [
  | none ↦ none
  | some hits ↦ elim (itoa c.prefix_queries) [
    | none ↦ none
    | some queries ↦ some (page_of hits queries)
  ]
]

-- The first message, or the empty text where there is none.
abbrev pub prefix_of : List Text → Text
prefix_of [] = []
prefix_of (content ∷ messages) = content

abbrev pub is_shared : List Text → Bool
is_shared messages = contains (prefix_of messages) (bytes "shared-agent-prefix")

-- A completion; `messages` are the contents of the messages in the body, none where it is no JSON.
unfoldable pub complete : List Text → Counts → Counts
complete messages c = record {
  prefix_hits = if is_shared messages then add_one c.prefix_hits else c.prefix_hits;
  prefix_queries = add_one c.prefix_queries;
}

-- What a client gets; every completion gets the same.
pub data Answer : Type 0 where
  healthy completed missing : Answer
  page : Text → Answer
  -- the goroutine of the request panics
  panicked : Answer

abbrev pub page_or_panic : Option Text → Answer
page_or_panic none = panicked
page_or_panic (some text) = page text

pub record Request : Type 0 where
  pub path : Text
  pub messages : List Text

-- The routes of main.
unfoldable pub handle : Request → Counts → Counts × Answer
unfolding metrics_page complete text_beq
handle req c =
    if text_beq req.path (bytes "/health")
    then (c, healthy)
    else if text_beq req.path (bytes "/metrics")
    then (c, page_or_panic (metrics_page c))
    else if text_beq req.path (bytes "/v1/chat/completions")
    then (complete req.messages c, completed)
    else (c, missing)

unfoldable pub handle_all : List Request → Counts → Counts
unfolding handle
handle_all [] c = c
handle_all (req ∷ reqs) c = handle_all reqs (handle req c).0
