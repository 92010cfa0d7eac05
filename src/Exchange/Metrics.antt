-- ===== src/Exchange/Metrics.antt =====
-- internal/metrics/metrics.go: the metrics of the exchange-rate service, over the client library of
-- Prometheus. The program makes them and does not record anything yet.
pub mod Opts
pub mod Recordings
pub mod Made
pub mod Recorded
use movra.Prelude.{ℕ, String, Bool, List, [], ◌∷◌, if◌then◌else◌, ◌==◌}
use movra.Prelude.Action.{Action, ◌>>=◌, ◌>>◌, pure, total}
use movra.Exchange.Metrics.Opts
use movra.Platform.Prometheus.{Registry}

pub record Metrics (V : Type 0) : Type 0 where
  pub rate_requests_total : V
  pub rate_request_duration : V
  pub cache_hits_total : V
  pub cache_misses_total : V
  pub locked_rates_active : V
  pub rate_lock_duration : V
  pub provider_requests_total : V
  pub provider_errors_total : V
  pub provider_request_duration : V
  pub quotes_generated_total : V

-- The namespace that `NewMetrics` takes for the one it is given.
unfoldable pub chosen_namespace : String → String
chosen_namespace namespace = if namespace == "" then "exchange_rate_service" else namespace

module _ {F W V : Type 0} (reg : Registry F W V) where
  open reg use {register, count, observe, raise, lower}

  unfoldable pub new_metrics : String → Action W (Metrics V)
  unfolding ◌>>=◌ chosen_namespace
  new_metrics given = do
    let namespace = chosen_namespace given
    a ← register (Opts.rate_requests_total namespace)
    b ← register (Opts.rate_request_duration namespace)
    c ← register (Opts.cache_hits_total namespace)
    d ← register (Opts.cache_misses_total namespace)
    e ← register (Opts.locked_rates_active namespace)
    f ← register (Opts.rate_lock_duration namespace)
    g ← register (Opts.provider_requests_total namespace)
    h ← register (Opts.provider_errors_total namespace)
    i ← register (Opts.provider_request_duration namespace)
    j ← register (Opts.quotes_generated_total namespace)
    pure (record {
      rate_requests_total = a;
      rate_request_duration = b;
      cache_hits_total = c;
      cache_misses_total = d;
      locked_rates_active = e;
      rate_lock_duration = f;
      provider_requests_total = g;
      provider_errors_total = h;
      provider_request_duration = i;
      quotes_generated_total = j;
    })

  module _ (m : Metrics V) where
    unfoldable pub record_rate_request : String → String → String → F → Bool → Action W (Unit {0})
    unfolding ◌>>◌
    record_rate_request source target status duration_seconds cache_hit = do
      count m.rate_requests_total (source ∷ target ∷ status ∷ [])
      let cache_hit_str = if cache_hit then "true" else "false"
      observe m.rate_request_duration (source ∷ target ∷ cache_hit_str ∷ []) duration_seconds

    unfoldable pub record_cache_hit : String → Action W (Unit {0})
    record_cache_hit cache_type = count m.cache_hits_total (cache_type ∷ [])

    unfoldable pub record_cache_miss : String → Action W (Unit {0})
    record_cache_miss cache_type = count m.cache_misses_total (cache_type ∷ [])

    unfoldable pub record_rate_lock : String → String → F → Action W (Unit {0})
    unfolding ◌>>◌ total
    record_rate_lock source target duration_seconds = do
      total (λ w. (tt, raise m.locked_rates_active w))
      observe m.rate_lock_duration (source ∷ target ∷ []) duration_seconds

    unfoldable pub record_rate_lock_expired : Action W (Unit {0})
    unfolding total
    record_rate_lock_expired = total (λ w. (tt, lower m.locked_rates_active w))

    unfoldable pub record_provider_request : String → String → F → Action W (Unit {0})
    unfolding ◌>>◌
    record_provider_request provider status duration_seconds = do
      count m.provider_requests_total (provider ∷ status ∷ [])
      observe m.provider_request_duration (provider ∷ []) duration_seconds

    unfoldable pub record_provider_error : String → String → Action W (Unit {0})
    record_provider_error provider error_type =
        count m.provider_errors_total (provider ∷ error_type ∷ [])

    unfoldable pub record_quote_generated : String → String → Action W (Unit {0})
    record_quote_generated source target = count m.quotes_generated_total (source ∷ target ∷ [])
