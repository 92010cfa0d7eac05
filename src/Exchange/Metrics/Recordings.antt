-- ===== src/Exchange/Metrics/Recordings.antt =====
-- Calls of the methods of internal/metrics/metrics.go, and what they are counted as.
use movra.Prelude.{ℕ, String, Bool, List, [], ◌∷◌, if◌then◌else◌}
use movra.Prelude.Int.{ℤ, pos, negsuc}
use movra.Prelude.Action.{Action, ◌>>=◌, ◌>>◌, pure}
use movra.Platform.Prometheus.{Registry, bump, shift}
use movra.Exchange.Metrics.{
  Metrics, new_metrics, record_rate_request, record_cache_hit, record_cache_miss, record_rate_lock,
  record_rate_lock_expired, record_provider_request, record_provider_error, record_quote_generated,
}

-- A call of a method of the metrics.
pub data Recording (F : Type 0) : Type 0 where
  rate_request : (source target status : String) (duration : F) (cache_hit : Bool) → Recording F
  cache_hit : (cache_type : String) → Recording F
  cache_miss : (cache_type : String) → Recording F
  rate_lock : (source target : String) (duration : F) → Recording F
  rate_lock_expired : Recording F
  provider_request : (provider status : String) (duration : F) → Recording F
  provider_error : (provider error_type : String) → Recording F
  quote_generated : (source target : String) → Recording F

-- A series, by its full name and label values, after a recording; its count was `c` before.
abbrev pub counted : {F : Type 0} → (String → String) → Recording F → String → List String → ℕ → ℕ
counted full (rate_request s t st d hit) n ks c =
    bump (full "rate_request_duration_seconds") (s ∷ t ∷ (if hit then "true" else "false") ∷ []) n
      ks (bump (full "rate_requests_total") (s ∷ t ∷ st ∷ []) n ks c)
counted full (cache_hit ty) n ks c = bump (full "cache_hits_total") (ty ∷ []) n ks c
counted full (cache_miss ty) n ks c = bump (full "cache_misses_total") (ty ∷ []) n ks c
counted full (rate_lock s t d) n ks c = bump (full "rate_lock_duration_seconds") (s ∷ t ∷ []) n ks c
counted full rate_lock_expired n ks c = c
counted full (provider_request p st d) n ks c =
    bump (full "provider_request_duration_seconds") (p ∷ []) n ks
      (bump (full "provider_requests_total") (p ∷ st ∷ []) n ks c)
counted full (provider_error p ty) n ks c = bump (full "provider_errors_total") (p ∷ ty ∷ []) n ks c
counted full (quote_generated s t) n ks c = bump (full "quotes_generated_total") (s ∷ t ∷ []) n ks c

-- A gauge after a recording; it stood at `z` before.
abbrev pub moved : {F : Type 0} → (String → String) → Recording F → String → ℤ → ℤ
moved full (rate_lock s t d) n z = shift (full "locked_rates_active") (pos 1) n z
moved full rate_lock_expired n z = shift (full "locked_rates_active") (negsuc 0) n z
moved full r n z = z

abbrev pub counted_all :
    {F : Type 0} → (String → String) → List (Recording F) → String → List String → ℕ → ℕ
counted_all full [] n ks c = c
counted_all full (r ∷ rs) n ks c = counted_all full rs n ks (counted full r n ks c)

abbrev pub moved_all : {F : Type 0} → (String → String) → List (Recording F) → String → ℤ → ℤ
moved_all full [] n z = z
moved_all full (r ∷ rs) n z = moved_all full rs n (moved full r n z)

module _ {F W V : Type 0} (reg : Registry F W V) where
  unfoldable pub record_one : Metrics V → Recording F → Action W (Unit {0})
  record_one m (rate_request s t st d hit) = record_rate_request reg m s t st d hit
  record_one m (cache_hit ty) = record_cache_hit reg m ty
  record_one m (cache_miss ty) = record_cache_miss reg m ty
  record_one m (rate_lock s t d) = record_rate_lock reg m s t d
  record_one m rate_lock_expired = record_rate_lock_expired reg m
  record_one m (provider_request p st d) = record_provider_request reg m p st d
  record_one m (provider_error p ty) = record_provider_error reg m p ty
  record_one m (quote_generated s t) = record_quote_generated reg m s t

  unfoldable pub record_all : Metrics V → List (Recording F) → Action W (Unit {0})
  unfolding ◌>>◌ pure
  record_all m [] = pure tt
  record_all m (r ∷ rs) = record_one m r >> record_all m rs

  -- The metrics are made, and the recordings follow.
  unfoldable pub make_and_record : String → List (Recording F) → Action W (Unit {0})
  unfolding ◌>>=◌
  make_and_record namespace rs = do m ← new_metrics reg namespace; record_all m rs
