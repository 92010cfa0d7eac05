-- ===== src/Exchange/Metrics/Opts.antt =====
-- The options of the ten metrics of internal/metrics/metrics.go, in their order.
use movra.Prelude.{String, [], ◌∷◌}
use movra.Platform.Prometheus.{Description, counter, histogram, gauge, def_buckets, upper_bounds}

abbrev pub rate_requests_total : String → Description
rate_requests_total namespace = record {
  kind = counter;
  namespace = namespace;
  name = "rate_requests_total";
  help = "Total number of rate requests";
  labels = "source_currency" ∷ "target_currency" ∷ "status" ∷ [];
}

abbrev pub rate_request_duration : String → Description
rate_request_duration namespace = record {
  kind = histogram def_buckets;
  namespace = namespace;
  name = "rate_request_duration_seconds";
  help = "Duration of rate requests in seconds";
  labels = "source_currency" ∷ "target_currency" ∷ "cache_hit" ∷ [];
}

abbrev pub cache_hits_total : String → Description
cache_hits_total namespace = record {
  kind = counter;
  namespace = namespace;
  name = "cache_hits_total";
  help = "Total number of cache hits";
  labels = "cache_type" ∷ [];
}

abbrev pub cache_misses_total : String → Description
cache_misses_total namespace = record {
  kind = counter;
  namespace = namespace;
  name = "cache_misses_total";
  help = "Total number of cache misses";
  labels = "cache_type" ∷ [];
}

abbrev pub locked_rates_active : String → Description
locked_rates_active namespace = record {
  kind = gauge;
  namespace = namespace;
  name = "locked_rates_active";
  help = "Number of currently active rate locks";
  labels = [];
}

abbrev pub rate_lock_duration : String → Description
rate_lock_duration namespace = record {
  kind = histogram (upper_bounds (15 ∷ 30 ∷ 45 ∷ 60 ∷ 90 ∷ 120 ∷ []));
  namespace = namespace;
  name = "rate_lock_duration_seconds";
  help = "Duration of rate locks in seconds";
  labels = "source_currency" ∷ "target_currency" ∷ [];
}

abbrev pub provider_requests_total : String → Description
provider_requests_total namespace = record {
  kind = counter;
  namespace = namespace;
  name = "provider_requests_total";
  help = "Total number of requests to rate providers";
  labels = "provider" ∷ "status" ∷ [];
}

abbrev pub provider_errors_total : String → Description
provider_errors_total namespace = record {
  kind = counter;
  namespace = namespace;
  name = "provider_errors_total";
  help = "Total number of errors from rate providers";
  labels = "provider" ∷ "error_type" ∷ [];
}

abbrev pub provider_request_duration : String → Description
provider_request_duration namespace = record {
  kind = histogram def_buckets;
  namespace = namespace;
  name = "provider_request_duration_seconds";
  help = "Duration of provider requests in seconds";
  labels = "provider" ∷ [];
}

abbrev pub quotes_generated_total : String → Description
quotes_generated_total namespace = record {
  kind = counter;
  namespace = namespace;
  name = "quotes_generated_total";
  help = "Total number of quotes generated";
  labels = "source_currency" ∷ "target_currency" ∷ [];
}
