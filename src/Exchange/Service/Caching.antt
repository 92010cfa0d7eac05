-- ===== src/Exchange/Service/Caching.antt =====
-- `GetRate` of internal/service/rate_service.go: where its answer comes from.
use movra.Prelude.{String, ◌≡◌, ◌≢◌, refl, sym, ◌∙◌, Option, none, some}
use movra.Prelude.Action.{Fallible, ok, err, map_error, bind_result, pure, catch, wrapping, ◌>>=◌}
use movra.Platform.Time.{seconds}
use movra.Platform.Float.{Floats}
use movra.Exchange.Model.{ExchangeRate}
use movra.Exchange.Interfaces.{Rate, Error}
use movra.Exchange.Pricing.{provider_rate_to_model}
use movra.Exchange.Service.{RateService, unavailable, fetch_rate, after_lookup, get_rate}

module _ {F W : Type 0} (fl : Floats F) (s : RateService F W) (from to : String) where
  open s use {provider, repository}

  -- The world after the lookup in the cache.
  abbrev looked : W → W
  looked w = (repository.get_rate from to w).1

  abbrev Missed : W → Type 0
  Missed w = (rate : Rate F) → (repository.get_rate from to w).0 ≢ ok (some rate)

  -- Where an answer, and the world it leaves, come from: the cache, and then nothing else is called;
  -- or the provider after a miss; or the provider's error after a miss.
  pub data Obtained (w : W) (run : Fallible Error (ExchangeRate F) × W) : Type 0 where
    cached :
        (rate : Rate F)
        → (repository.get_rate from to w).0 ≡ ok (some rate)
        → run ≡ (ok (provider_rate_to_model fl rate from to), looked w)
        → Obtained w run
    fetched :
        (rate : Rate F)
        → Missed w
        → (provider.get_rate from to (looked w)).0 ≡ ok rate
        → run.0 ≡ ok (provider_rate_to_model fl rate from to)
        → Obtained w run
    failed :
        (e : Error)
        → Missed w
        → (provider.get_rate from to (looked w)).0 ≡ err e
        → run.0 ≡ err (unavailable fl s from to e)
        → Obtained w run

  fetch_rate-Obtained : (w : W) → Missed w → Obtained w (fetch_rate fl s from to (looked w))
  unfolding fetch_rate ◌>>=◌ wrapping catch pure
  fetch_rate-Obtained w missed = asked (provider.get_rate from to (looked w)).0 refl
    where
      after : Fallible Error (Rate F) → Fallible Error (ExchangeRate F) × W
      after r =
          bind_result (map_error (unavailable fl s from to) r)
            (provider.get_rate from to (looked w)).1
            (λ rate. catch (repository.save_rate rate (seconds s.rate_cache_ttl)) >>= λ _.
              pure (provider_rate_to_model fl rate from to))

      asked :
          (r : Fallible Error (Rate F))
          → (provider.get_rate from to (looked w)).0 ≡ r
          → Obtained w (after r)
      asked (ok rate) e = fetched rate missed e refl
      asked (err x) e = failed x missed e refl

  -- `GetRate` answers from the cache, and calls nothing else, if the cache has a rate for the
  -- pair; if the lookup fails or finds none, it answers with the provider's rate, whether or not
  -- that can be cached, or with the provider's error.
  pub get_rate-Obtained : (w : W) → Obtained w (get_rate fl s from to w)
  unfolding get_rate ◌>>=◌ catch
  get_rate-Obtained w = after (repository.get_rate from to w).0 refl
    where
      none_ne :
          (rate : Rate F) → ◌≢◌ {A = Fallible Error (Option (Rate F))} (ok none) (ok (some rate))
      none_ne rate h = cc

      err_ne :
          (rate : Rate F) (x : Error)
          → ◌≢◌ {A = Fallible Error (Option (Rate F))} (err x) (ok (some rate))
      err_ne rate x h = cc

      unfold_pure : (x : ExchangeRate F) → pure {E = Error} x (looked w) ≡ (ok x, looked w)
      unfold_pure x = unfold pure in refl

      after :
          (r : Fallible Error (Option (Rate F)))
          → (repository.get_rate from to w).0 ≡ r
          → Obtained w (after_lookup fl s from to r (looked w))
      after (ok (some rate)) e =
          cached rate e (unfold_pure (provider_rate_to_model fl rate from to))
      after (ok none) e = fetch_rate-Obtained w (λ rate h. none_ne rate (sym e ∙ h))
      after (err x) e = fetch_rate-Obtained w (λ rate h. err_ne rate x (sym e ∙ h))
