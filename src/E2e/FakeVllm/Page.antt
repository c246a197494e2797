-- ===== src/E2e/FakeVllm/Page.antt =====
-- The page of the fake engine, as the gateway reads it.
use mathlib.Core.List.{append-nil, append_assoc}
use opencoda.Prelude.{
  ℕ, zero, suc, ◌+◌, ◌*◌, ◌/◌, ◌%◌, ◌^◌, ◌≤◌, ◌<◌, ◌≡◌, refl, ap, ◌∙◌, inl, inr, true, false, some,
  List, [], ◌∷◌, ◌++◌, arith, ltb, nat_beq, if◌then◌else◌, nat_beq_iff, Bool-cases, All, IsDigits,
  decimal_ℕ-IsDigits, parse_uint-decimal_ℕ, decimal_ℕ-cons, Text, bytes, text_beq, strip_prefix,
  has_prefix, split, is_space, trim_right, trim_space, digits_onto, decimal_ℕ, is_digit, parse_uint,
}
use opencoda.Gateway.Metrics.{
  fields_from, read_line, read_lines, parse_prefix_cache_metrics, Counters,
}
use opencoda.E2e.FakeVllm.{itoa_loop, itoa, page_of, metrics_page, Counts}

-- How far `i` digits reach.
abbrev reach : ℕ → ℕ
reach zero = 1
reach (suc i) = 10 * reach i

digits_onto-cases :
    (f v : ℕ) (s : Text)
    → 0 < v
    → v ≤ suc f
    → digits_onto (suc f) v s
      ≡ (if ltb 0 (v / 10) then digits_onto f (v / 10) ((48 + v % 10) ∷ s) else (48 + v % 10) ∷ s)
unfolding digits_onto
digits_onto-cases f v s some_left h = ground arith

itoa_loop_finished : (i : ℕ) (s : Text) → itoa_loop i 0 s ≡ some s
unfolding itoa_loop
itoa_loop_finished zero s = refl
itoa_loop_finished (suc i) s = refl

itoa_loop-digits_onto :
    (i f v : ℕ) (s : Text)
    → 0 < v
    → v ≤ f
    → v < reach i
    → itoa_loop i v s ≡ some (digits_onto f v s)
unfolding itoa_loop
itoa_loop-digits_onto zero f v s some_left enough small = absurd (omega arith)
itoa_loop-digits_onto (suc i) zero v s some_left enough small = absurd (omega arith)
itoa_loop-digits_onto (suc i) (suc f) v s some_left enough small =
    elim (Bool-cases (ltb 0 (v / 10))) [
      | inl more ↦
          rw (digits_onto-cases f v s some_left enough, more)
            (ground (
              arith,
              itoa_loop-digits_onto i f (v / 10) ((48 + v % 10) ∷ s) (ground arith) (omega arith)
                  (omega arith),
            ))
      | inr last ↦
          rw (digits_onto-cases f v s some_left enough, last)
            (let over : v / 10 ≡ 0 = ground (arith, last) in
              ground (arith, over, itoa_loop_finished i ((48 + v % 10) ∷ s)))
    ]

-- Twenty places are enough for a uint64: itoa does not run off its buffer, and prints the number in
-- decimal.
pub itoa-decimal_ℕ : (v : ℕ) → v < 2 ^ 64 → itoa v ≡ some (decimal_ℕ v)
unfolding itoa decimal_ℕ
itoa-decimal_ℕ v h = elim (Bool-cases (nat_beq v 0)) [
  | inl zero_value ↦ rw ((nat_beq_iff v 0).0 zero_value) refl
  | inr more ↦ rw more (itoa_loop-digits_onto 20 v v [] (ground arith) (omega arith) (omega arith))
]

-- A line is a text up to its newline.
split-line :
    (a b : Text) → All (λ c. nat_beq c 10 ≡ false) a → split 10 (a ++ (10 ∷ b)) ≡ a ∷ split 10 b
unfolding split
split-line [] b h = refl
split-line (c ∷ a) b h = rw (h.0, split-line a b h.1) refl

no_newline : (ds : Text) → IsDigits ds → All (λ c. nat_beq c 10 ≡ false) ds
no_newline [] h = tt
no_newline (c ∷ ds) h = (ground (arith, h.0), no_newline ds h.1)

-- A digit at the end is no space to trim.
trim_right-IsDigits : (ds : Text) → IsDigits ds → trim_right ds ≡ ds
unfolding trim_right
trim_right-IsDigits [] h = refl
trim_right-IsDigits (c ∷ ds) h = ground (arith, h.0, trim_right-IsDigits ds h.1)

digit_no_space : (c : ℕ) → is_digit c ≡ true → is_space c ≡ false
digit_no_space c h = ground arith

fields_from-IsDigits : (w ds : Text) → IsDigits ds → fields_from w ds ≡ fields_from (w ++ ds) []
unfolding fields_from
fields_from-IsDigits w [] h = rw (append-nil w) refl
fields_from-IsDigits w (c ∷ ds) h = rw (digit_no_space c h.0) (
    fields_from-IsDigits (w ++ (c ∷ [])) ds h.1
    ∙ ap (λ t. fields_from t []) (append_assoc w (c ∷ []) ds))

-- A number behind a space is not trimmed away, and is the last field.
trimmed :
    (n : ℕ)
    → (if text_beq (trim_right (decimal_ℕ n)) [] then [] else 32 ∷ trim_right (decimal_ℕ n))
      ≡ 32 ∷ decimal_ℕ n
unfolding text_beq
trimmed n =
    let (c, t, e) = decimal_ℕ-cons n in
    rw (trim_right-IsDigits (decimal_ℕ n) (decimal_ℕ-IsDigits n), e) refl

last_field : (n : ℕ) → fields_from [] (decimal_ℕ n) ≡ decimal_ℕ n ∷ []
unfolding fields_from
last_field n =
    let (c, t, e) = decimal_ℕ-cons n in
    fields_from-IsDigits [] (decimal_ℕ n) (decimal_ℕ-IsDigits n) ∙ rw e refl

-- What the fields behind the name give.
abbrev value_of : List Text → ℕ
value_of [] = 0
value_of (b ∷ more) = parse_uint b

module _ (n : ℕ) (small : n < 2 ^ 64) (c : Counters) where
  read_hits :
      read_line (bytes "coda_prefix_cache_hits_total " ++ decimal_ℕ n) c
      ≡ record c { hits = n; ok = true }
  unfolding read_line fields_from has_prefix strip_prefix
  read_hits = rw (trimmed n) (
      ap (λ fields. record c { hits = value_of fields; ok = true }) (last_field n)
      ∙ ap (λ v. record c { hits = v; ok = true }) (parse_uint-decimal_ℕ n small))

  read_queries :
      read_line (bytes "coda_prefix_cache_queries_total " ++ decimal_ℕ n) c
      ≡ record c { queries = n; ok = true }
  unfolding read_line fields_from has_prefix strip_prefix
  read_queries = rw (trimmed n) (
      ap (λ fields. record c { queries = value_of fields; ok = true }) (last_field n)
      ∙ ap (λ v. record c { queries = v; ok = true }) (parse_uint-decimal_ℕ n small))

-- The lines of the page.
abbrev lines_of : Text → Text → List Text
lines_of hits queries =
    bytes "# HELP coda_prefix_cache_hits_total Prefix cache hits"
    ∷ bytes "# TYPE coda_prefix_cache_hits_total counter"
    ∷ (bytes "coda_prefix_cache_hits_total " ++ hits)
    ∷ bytes "# HELP coda_prefix_cache_queries_total Prefix cache queries"
    ∷ bytes "# TYPE coda_prefix_cache_queries_total counter"
    ∷ (bytes "coda_prefix_cache_queries_total " ++ queries)
    ∷ []
    ∷ []

split-page_of :
    (hits queries : Text)
    → IsDigits hits
    → IsDigits queries
    → split 10 (page_of hits queries) ≡ lines_of hits queries
unfolding split
split-page_of hits queries h q =
    rw (split-line hits _ (no_newline hits h), split-line queries [] (no_newline queries q)) refl

next_line :
    (l : Text) (ls : List Text) (c c' : Counters)
    → read_line l c ≡ c'
    → read_lines (l ∷ ls) c ≡ read_lines ls c'
unfolding read_lines
next_line l ls c c' e = ap (read_lines ls) e

-- The lines that are no counter.
comment : (text : Text) (c : Counters) → read_line (bytes "# " ++ text) c ≡ c
unfolding read_line has_prefix strip_prefix trim_space trim_right
comment text c = refl

no_more : (c : Counters) → read_lines ([] ∷ []) c ≡ c
unfolding read_lines
no_more c = refl

read_lines-lines_of :
    (h q : ℕ) (c : Counters)
    → h < 2 ^ 64
    → q < 2 ^ 64
    → read_lines (lines_of (decimal_ℕ h) (decimal_ℕ q)) c
      ≡ record { hits = h; queries = q; ok = true }
read_lines-lines_of h q c few few' =
    next_line _ _ _ _ (comment (bytes "HELP coda_prefix_cache_hits_total Prefix cache hits") c)
    ∙ next_line _ _ _ _ (comment (bytes "TYPE coda_prefix_cache_hits_total counter") c)
    ∙ next_line _ _ _ _ (read_hits h few c)
    ∙ next_line _ _ _ _
        (comment (bytes "HELP coda_prefix_cache_queries_total Prefix cache queries") _)
    ∙ next_line _ _ _ _ (comment (bytes "TYPE coda_prefix_cache_queries_total counter") _)
    ∙ next_line _ _ _ _ (read_queries q few' _)
    ∙ no_more _

itoa_page :
    (c : Counts) (hits queries : Text)
    → itoa c.prefix_hits ≡ some hits
    → itoa c.prefix_queries ≡ some queries
    → metrics_page c ≡ some (page_of hits queries)
unfolding metrics_page
itoa_page c hits queries e e' = rw (metrics_page, e, e') refl

parsed :
    (c : Counts)
    → c.prefix_hits < 2 ^ 64
    → c.prefix_queries < 2 ^ 64
    → parse_prefix_cache_metrics (page_of (decimal_ℕ c.prefix_hits) (decimal_ℕ c.prefix_queries))
      ≡ record { hits = c.prefix_hits; queries = c.prefix_queries; ok = true }
unfolding parse_prefix_cache_metrics
parsed c few few' =
    ap (λ ls. read_lines ls (record { hits = 0; queries = 0; ok = false }))
      (split-page_of (decimal_ℕ c.prefix_hits) (decimal_ℕ c.prefix_queries)
        (decimal_ℕ-IsDigits c.prefix_hits) (decimal_ℕ-IsDigits c.prefix_queries))
    ∙ read_lines-lines_of c.prefix_hits c.prefix_queries _ few few'

-- The page of the fake engine is read back by the gateway: what it has counted, in 64 bits, comes
-- out of parsePrefixCacheMetrics.
pub parse_prefix_cache_metrics-metrics_page :
    (c : Counts)
    → c.prefix_hits < 2 ^ 64
    → c.prefix_queries < 2 ^ 64
    → (page : Text) × (metrics_page c ≡ some page)
      × (parse_prefix_cache_metrics page
          ≡ record { hits = c.prefix_hits; queries = c.prefix_queries; ok = true })
parse_prefix_cache_metrics-metrics_page c few few' =
    let hits = decimal_ℕ c.prefix_hits in
    let queries = decimal_ℕ c.prefix_queries in
    (
      page_of hits queries,
      itoa_page c hits queries (itoa-decimal_ℕ c.prefix_hits few)
          (itoa-decimal_ℕ c.prefix_queries few'),
      parsed c few few',
    )
