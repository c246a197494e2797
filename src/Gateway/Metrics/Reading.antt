-- ===== src/Gateway/Metrics/Reading.antt =====
-- Which lines of a metrics page count.
use opencoda.Prelude.{◌≡◌, refl, true, bytes}
use opencoda.Gateway.Metrics.{parse_prefix_cache_metrics}

-- the page of the package's own test
page_of_test :
    parse_prefix_cache_metrics (
      bytes
        "\n# HELP coda_prefix_cache_hits_total hits\n# TYPE coda_prefix_cache_hits_total counter\ncoda_prefix_cache_hits_total 7\ncoda_prefix_cache_queries_total 10\n")
    ≡ record { hits = 7; queries = 10; ok = true }
unfolding parse_prefix_cache_metrics
page_of_test = refl
