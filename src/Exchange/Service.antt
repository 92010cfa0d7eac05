-- ===== src/Exchange/Service.antt =====
-- internal/service/rate_service.go: the rate service, over its provider and its store. The corridors
-- stand in `Corridors`.
pub mod Locking
pub mod Caching
pub mod Quotes
use Prim.Native.String.{◌++◌}
use movra.Prelude.{
  ℕ, String, Bool, true, false, Option, none, some, List, [], ◌∷◌, ◌==◌, if◌then◌else◌, append,
}
use movra.Prelude.Int.{ℤ, pos, leb_ℤ, ltb_ℤ}
use movra.Prelude.Action.{Fallible, ok, err, Run, pure, fail, total, catch, wrapping, ◌>>=◌, ◌>>◌}
use movra.Platform.Time.{Time, add, seconds, zero_time}
use movra.Platform.Float.{Floats, zero_float, one, hundred}
use movra.Exchange.Model.{ExchangeRate, LockedRate, RateQuote, Corridor, corridors}
use movra.Exchange.Corridors.{first_between, get_corridor}
use movra.Exchange.Interfaces.{
  CurrencyPair, Rate, Error, unsupported_pair, provider_unavailable, not_found, expired, plain,
  wrapped, RateProvider, RateRepository, Host,
}
use movra.Exchange.Pricing.{parsed, provider_rate_to_model, expired_lock, fee_of}

pub record RateService (F W : Type 0) : Type 0 where
  pub provider : RateProvider F W
  pub repository : RateRepository F W
  pub host : Host F W
  -- the two settings that the service reads
  pub rate_cache_ttl : ℤ
  pub lock_duration : ℤ

module _ {F W : Type 0} (fl : Floats F) (s : RateService F W) where
  open s use {provider, repository, host, rate_cache_ttl, lock_duration}

  abbrev now : Run Error W Time
  now = total host.now

  abbrev unavailable : String → String → Error → Error
  unavailable from to = wrapped ("failed to get rate for " ++ (from ++ ("/" ++ to)))

  -- `GetRate` after a cache miss: a rate that cannot be cached is returned all the same.
  unfoldable pub fetch_rate : String → String → Run Error W (ExchangeRate F)
  unfolding provider_rate_to_model
  fetch_rate from to = do
    rate ← wrapping (unavailable from to) (provider.get_rate from to)
    _ ← catch (repository.save_rate rate (seconds rate_cache_ttl))
    pure (provider_rate_to_model fl rate from to)

  -- A failed lookup counts as a miss.
  abbrev after_lookup :
      String → String → Fallible Error (Option (Rate F)) → Run Error W (ExchangeRate F)
  after_lookup from to (ok (some rate)) = pure (provider_rate_to_model fl rate from to)
  after_lookup from to (ok none) = fetch_rate from to
  after_lookup from to (err e) = fetch_rate from to

  unfoldable pub get_rate : String → String → Run Error W (ExchangeRate F)
  unfolding fetch_rate provider_rate_to_model
  get_rate from to = do cached ← catch (repository.get_rate from to); after_lookup from to cached

  abbrev sorted_in :
      CurrencyPair
      → Fallible Error (Option (Rate F))
      → List (ExchangeRate F) × List CurrencyPair
      → List (ExchangeRate F) × List CurrencyPair
  sorted_in pair (ok (some rate)) (results, uncached) =
      (append results (provider_rate_to_model fl rate pair.source pair.target ∷ []), uncached)
  sorted_in pair (ok none) (results, uncached) = (results, append uncached (pair ∷ []))
  sorted_in pair (err e) (results, uncached) = (results, append uncached (pair ∷ []))

  -- The first loop of `GetRates`: the results and the pairs that are not cached.
  unfoldable pub look_up :
      List CurrencyPair
      → List (ExchangeRate F) × List CurrencyPair
      → W
      → (List (ExchangeRate F) × List CurrencyPair) × W
  unfolding provider_rate_to_model
  look_up [] found w = (found, w)
  look_up (pair ∷ pairs) found w =
      let (cached, w') = repository.get_rate pair.source pair.target w in
      look_up pairs (sorted_in pair cached found) w'

  -- The loop over the provider's rates.
  unfoldable pub cache_all : List (Rate F) → List (ExchangeRate F) → W → List (ExchangeRate F) × W
  unfolding provider_rate_to_model
  cache_all [] results w = (results, w)
  cache_all (rate ∷ rates) results w =
      let w' = (repository.save_rate rate (seconds rate_cache_ttl) w).1 in
      cache_all rates
        (append results
          (provider_rate_to_model fl rate rate.source_currency rate.target_currency ∷ []))
        w'

  abbrev fetch_uncached :
      List (ExchangeRate F) × List CurrencyPair → Run Error W (List (ExchangeRate F))
  fetch_uncached (results, []) = pure results
  fetch_uncached (results, pair ∷ pairs) = do
    rates ← wrapping (wrapped "failed to get rates") (provider.get_rates (pair ∷ pairs))
    total (cache_all rates results)

  unfoldable pub get_rates : List CurrencyPair → Run Error W (List (ExchangeRate F))
  unfolding look_up cache_all
  get_rates pairs = do found ← total (look_up pairs ([], [])); fetch_uncached found

  -- The duration that a request is given.
  unfoldable pub capped_duration : ℤ → ℤ
  capped_duration requested =
      let chosen = if leb_ℤ requested (pos 0) then lock_duration else requested in
      if ltb_ℤ (pos 120) chosen then pos 120 else chosen

  unfoldable pub new_lock : ExchangeRate F → ℤ → String → Time → LockedRate F
  new_lock rate duration lock_id locked_at = record {
    lock_id = lock_id;
    rate = rate;
    locked_at = locked_at;
    expires_at = add locked_at (seconds duration);
    expired = false;
  }

  -- `LockRate` once it has the rate and the duration.
  unfoldable pub store_lock : ExchangeRate F → ℤ → Run Error W (LockedRate F)
  store_lock rate duration = do
    lock_id ← total host.new_uuid
    locked_at ← now
    let locked = new_lock rate duration lock_id locked_at
    wrapping (wrapped "failed to lock rate") (repository.save_locked_rate locked)
    pure locked

  unfoldable pub lock_rate : String → String → ℤ → Run Error W (LockedRate F)
  lock_rate from to duration_seconds = do
    rate ← get_rate from to
    store_lock rate (capped_duration duration_seconds)

  -- An expired lock and a missing one are answered alike.
  abbrev pub answer_lock :
      String → Fallible Error (Option (LockedRate F)) → Fallible Error (LockedRate F)
  answer_lock lock_id (ok (some locked)) = ok locked
  answer_lock lock_id (ok none) = ok (expired_lock fl lock_id)
  answer_lock lock_id (err (expired _)) = ok (expired_lock fl lock_id)
  answer_lock lock_id (err (unsupported_pair source target)) = err (unsupported_pair source target)
  answer_lock lock_id (err (provider_unavailable p r)) = err (provider_unavailable p r)
  answer_lock lock_id (err (not_found k)) = err (not_found k)
  answer_lock lock_id (err (plain t)) = err (plain t)
  answer_lock lock_id (err (wrapped t e)) = err (wrapped t e)

  unfoldable pub get_locked_rate : String → Run Error W (LockedRate F)
  get_locked_rate lock_id w =
      let (r, w') = repository.get_locked_rate lock_id w in (answer_lock lock_id r, w')

  abbrev forgive : Fallible Error (Unit {0}) → Fallible Error (Unit {0})
  forgive (ok u) = ok u
  forgive (err (not_found k)) = ok tt
  forgive (err (expired l)) = err (expired l)
  forgive (err (unsupported_pair source target)) = err (unsupported_pair source target)
  forgive (err (provider_unavailable p r)) = err (provider_unavailable p r)
  forgive (err (plain t)) = err (plain t)
  forgive (err (wrapped t e)) = err (wrapped t e)

  unfoldable pub delete_locked_rate : String → Run Error W (Unit {0})
  delete_locked_rate lock_id w =
      let (r, w') = repository.delete_locked_rate lock_id w in (forgive r, w')

  unfoldable pub new_quote : String → String → ExchangeRate F → Corridor → F → String → RateQuote F
  unfolding fee_of
  new_quote from to rate c amount quote_id =
      let buy_rate = parsed fl rate.buy_rate in
      record {
        source_currency = from;
        target_currency = to;
        source_amount = amount;
        target_amount = fl.times amount buy_rate;
        exchange_rate = buy_rate;
        mid_market_rate = rate.mid_rate;
        fee = fee_of fl c amount;
        total_cost = fl.plus amount (fee_of fl c amount);
        valid_until = rate.expires_at;
        quote_id = quote_id;
      }

  abbrev quote_for :
      String → String → F → ExchangeRate F → Option Corridor → Run Error W (RateQuote F)
  quote_for from to amount rate none =
      fail (plain ("corridor not found: " ++ (from ++ ("/" ++ to))))
  quote_for from to amount rate (some c) = do
    quote_id ← total host.new_uuid
    pure (new_quote from to rate c amount quote_id)

  unfoldable pub get_quote : String → String → F → Run Error W (RateQuote F)
  unfolding get_rate get_corridor new_quote
  get_quote from to amount = do
    rate ← get_rate from to
    quote_for from to amount rate (get_corridor from to)

  unfoldable pub health : Run Error W (Unit {0})
  health = repository.health
