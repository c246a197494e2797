-- ===== src/Gateway/Metrics.antt =====
-- parsePrefixCacheMetrics and parseMetricCounter of internal/gateway/k8s.go, over the text of a
-- metrics page.
pub mod Reading
use opencoda.Prelude.{
  ℕ, Bool, true, false, List, [], ◌∷◌, ◌++◌, if◌then◌else◌, Text, bytes, has_prefix, split,
  is_space, trim_space, parse_uint,
}

-- strings.Fields
abbrev take_word : Text → List Text → List Text
take_word [] ws = ws
take_word (c ∷ w) ws = (c ∷ w) ∷ ws

unfoldable pub fields_from : Text → Text → List Text
fields_from word [] = take_word word []
fields_from word (c ∷ s) =
    let apart = take_word word (fields_from [] s) in
    let on = fields_from (word ++ (c ∷ [])) s in if is_space c then apart else on

-- The number alone is used by the caller, and it is 0 where there is no second field.
unfoldable pub parse_metric_counter : Text → ℕ
unfolding fields_from parse_uint
parse_metric_counter line = elim (fields_from [] line) [
  | [] ↦ 0
  | a ∷ rest ↦ elim rest [ [] ↦ 0 | b ∷ more ↦ parse_uint b ]
]

pub record Counters : Type 0 where
  pub hits : ℕ
  pub queries : ℕ
  pub ok : Bool

unfoldable pub read_line : Text → Counters → Counters
unfolding parse_metric_counter trim_space has_prefix
read_line text c =
    let line = trim_space text in
    let value = parse_metric_counter line in
    if has_prefix line (bytes "#")
    then c
    else if has_prefix line (bytes "vllm:gpu_prefix_cache_hits_total ")
    then record c { hits = value; ok = true }
    else if has_prefix line (bytes "vllm:gpu_prefix_cache_queries_total ")
    then record c { queries = value; ok = true }
    else if has_prefix line (bytes "coda_prefix_cache_hits_total ")
    then record c { hits = value; ok = true }
    else if has_prefix line (bytes "coda_prefix_cache_queries_total ")
    then record c { queries = value; ok = true }
    else c

unfoldable pub read_lines : List Text → Counters → Counters
unfolding read_line
read_lines [] c = c
read_lines (l ∷ ls) c = read_lines ls (read_line l c)

-- A scanner's lines are the parts between newlines.
unfoldable pub parse_prefix_cache_metrics : Text → Counters
unfolding read_lines split
parse_prefix_cache_metrics page =
    read_lines (split 10 page) (record { hits = 0; queries = 0; ok = false })
