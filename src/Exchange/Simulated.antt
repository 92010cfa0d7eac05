-- ===== src/Exchange/Simulated.antt =====
-- internal/provider/simulated.go: the simulated provider of exchange rates. Its drift, which the
-- mutex guards, is a cell of the world; the random generator stands in the host. A map's range
-- visits the base rates in the order of the list here.
pub mod Mid
pub mod Spread
pub mod Pairs
use Prim.Native.String.{◌++◌}
use movra.Prelude.{
  ℕ, zero, suc, ◌*◌, String, Bool, true, false, Option, none, some, List, [], ◌∷◌, not, ◌&&◌, ◌==◌,
  if◌then◌else◌,
}
use movra.Prelude.Int.{ℤ, pos, ◌-ℤ◌, ltb_ℤ}
use movra.Prelude.Action.{Fallible, ok, err, Run, pure, fail, total, catch, ◌>>=◌}
use movra.Platform.Time.{Time, second, add, zero_time}
use movra.Platform.Float.{Floats, zero_float, one, two, hundred}
use movra.Exchange.Interfaces.{
  CurrencyPair, Rate, Error, unsupported_pair, provider_unavailable, not_found, expired, plain,
  wrapped, RateProvider, Host,
}

pub record SimulatedProviderConfig (F : Type 0) : Type 0 where
  pub base_spread : F
  pub max_drift : F
  pub rate_validity_duration : ℤ
  pub drift_interval : ℤ
  pub seed : ℤ

-- What the provider keeps between its calls.
pub record DriftState (F : Type 0) : Type 0 where
  pub current_drift : List (String × F)
  pub last_drift : Time

-- A variable of the program in the world.
pub record Cell (W S : Type 0) : Type 0 where
  pub read : W → S
  pub write : S → W → W

abbrev pub entry {ℓ} : {A : Type ℓ} → String → List (String × A) → Option A
entry key [] = none
entry key ((k, v) ∷ m) = let rest = entry key m in if k == key then some v else rest

-- A key of `baseRates`.
abbrev pub pair_key : String → String → String
pair_key source target = source ++ ("/" ++ target)

module _ {F : Type 0} (fl : Floats F) where
  unfoldable pub default_simulated_config : SimulatedProviderConfig F
  default_simulated_config = record {
    base_spread = fl.literal 5 3;
    max_drift = fl.literal 2 2;
    rate_validity_duration = pos (30 * second);
    drift_interval = pos (5 * second);
    seed = pos 0;
  }

  unfoldable pub base_rates : List (String × F)
  base_rates =
      ("SGD/USD", fl.literal 7450 4)
      ∷ ("SGD/PHP", fl.literal 4250 2)
      ∷ ("SGD/INR", fl.literal 6230 2)
      ∷ ("SGD/IDR", fl.literal 1165000 2)
      ∷ ("SGD/MYR", fl.literal 348 2)
      ∷ ("SGD/THB", fl.literal 2650 2)
      ∷ ("SGD/VND", fl.literal 1820000 2)
      ∷ ("USD/SGD", fl.literal 13423 4)
      ∷ ("USD/PHP", fl.literal 5705 2)
      ∷ ("USD/INR", fl.literal 8360 2)
      ∷ ("USD/IDR", fl.literal 1563000 2)
      ∷ ("USD/MYR", fl.literal 467 2)
      ∷ ("USD/THB", fl.literal 3555 2)
      ∷ ("USD/VND", fl.literal 2443000 2)
      ∷ ("USD/EUR", fl.literal 9250 4)
      ∷ ("USD/GBP", fl.literal 7920 4)
      ∷ ("EUR/USD", fl.literal 10810 4)
      ∷ ("EUR/SGD", fl.literal 14510 4)
      ∷ ("EUR/GBP", fl.literal 8560 4)
      ∷ ("GBP/USD", fl.literal 12630 4)
      ∷ ("GBP/SGD", fl.literal 16950 4)
      ∷ ("GBP/EUR", fl.literal 11680 4)
      ∷ []

  -- A key that a map of floats does not have reads as 0.
  abbrev or_zero : Option F → F
  or_zero none = zero_float fl
  or_zero (some x) = x

  abbrev pub drift_of : DriftState F → String → F
  drift_of d key = or_zero (entry key d.current_drift)

  abbrev pub both : Error → Fallible Error F → Fallible Error F → Fallible Error F
  both e (ok a) (ok b) = ok (fl.times a b)
  both e _ _ = err e

  abbrev pub direct_rate : DriftState F → String → F → F
  direct_rate d key base = fl.times base (fl.plus (one fl) (drift_of d key))

  -- The choice of `getMidRate` between the pair's own base rate, the inverse one and the rest.
  abbrev pub by_entry :
      DriftState F → String → String → Option F → Option F → Fallible Error F → Fallible Error F
  by_entry d source target (some base) inverse rest =
      ok (direct_rate d (pair_key source target) base)
  by_entry d source target none (some base) rest =
      ok (fl.over (one fl) (direct_rate d (pair_key target source) base))
  by_entry d source target none none rest = rest

  -- `getMidRate`, whose calls of itself are counted down by the fuel.
  unfoldable pub get_mid_rate : ℕ → DriftState F → String → String → Fallible Error F
  get_mid_rate zero d source target = err (plain "out of fuel")
  get_mid_rate (suc fuel) d source target =
      let via =
        both (unsupported_pair source target) (get_mid_rate fuel d source "USD")
          (get_mid_rate fuel d "USD" target) in
      by_entry d source target (entry (pair_key source target) base_rates)
        (entry (pair_key target source) base_rates)
        (if not (source == "USD") && not (target == "USD")
          then via
          else err (unsupported_pair source target))

  module _ {W : Type 0} (host : Host F W) (cell : Cell W (DriftState F))
      (c : SimulatedProviderConfig F) where
    abbrev now : Run Error W Time
    now = total host.now

    -- One drift for each pair, from `rng.Float64()`.
    unfoldable pub draw_drifts : List (String × F) → List (String × F) → W → List (String × F) × W
    draw_drifts [] drifts w = (drifts, w)
    draw_drifts ((pair, _) ∷ pairs) drifts w =
        let (x, w') = host.random_float w in
        let drift = fl.times (fl.minus (fl.times x (two fl)) (one fl)) c.max_drift in
        draw_drifts pairs ((pair, drift) ∷ drifts) w'

    -- `time.Since`, whose bound of 292 years is more than any interval, compares as the exact one.
    unfoldable pub update_drift_if_needed : Run Error W (Unit {0})
    unfolding draw_drifts
    update_drift_if_needed = do
      t ← now
      state ← total (λ w. (cell.read w, w))
      if ltb_ℤ (pos t -ℤ pos state.last_drift) c.drift_interval then pure tt else (do
        drifts ← total (draw_drifts base_rates state.current_drift)
        u ← now
        total (λ w. (tt, cell.write (record { current_drift = drifts; last_drift = u }) w)))

    unfoldable pub priced : String → String → F → Time → Rate F
    priced source target mid t =
        let half = fl.over c.base_spread (two fl) in
        record {
          source_currency = source;
          target_currency = target;
          mid_rate = mid;
          bid_rate = fl.times mid (fl.minus (one fl) half);
          ask_rate = fl.times mid (fl.plus (one fl) half);
          spread = fl.times c.base_spread (hundred fl);
          source = "simulated";
          fetched_at = t;
          valid_until = add t c.rate_validity_duration;
        }

    -- The state of `getMidRate`; two calls are as deep as it goes.
    abbrev mid_rate : String → String → W → Fallible Error F × W
    mid_rate source target w = (get_mid_rate 2 (cell.read w) source target, w)

    -- `GetRate` behind the test of the context.
    unfoldable pub quote_rate : String → String → Run Error W (Rate F)
    unfolding update_drift_if_needed priced
    quote_rate source target = do
      _ ← update_drift_if_needed
      mid ← mid_rate source target
      t ← now
      pure (priced source target mid t)

    abbrev unless_ended : {A : Type 0} → Run Error W A → Option String → Run Error W A
    unless_ended run none = run
    unless_ended run (some e) = fail (plain e)

    unfoldable pub get_rate : String → String → Run Error W (Rate F)
    unfolding quote_rate
    get_rate source target = do
      ended ← total host.context_error
      unless_ended (quote_rate source target) ended

    abbrev collect :
        Fallible Error (Rate F) → Run Error W (List (Rate F)) → Run Error W (List (Rate F))
    collect (ok rate) rest = do rates ← rest; pure (rate ∷ rates)
    collect (err (unsupported_pair source target)) rest = rest
    collect (err (provider_unavailable p r)) rest = fail (provider_unavailable p r)
    collect (err (not_found k)) rest = fail (not_found k)
    collect (err (expired l)) rest = fail (expired l)
    collect (err (plain t)) rest = fail (plain t)
    collect (err (wrapped t e)) rest = fail (wrapped t e)

    -- The loop of `GetRates`: pairs that are not supported are skipped.
    unfoldable pub get_each : List CurrencyPair → Run Error W (List (Rate F))
    unfolding get_rate
    get_each [] = pure []
    get_each (pair ∷ pairs) = do
      r ← catch (get_rate pair.source pair.target)
      collect r (get_each pairs)

    unfoldable pub get_rates : List CurrencyPair → Run Error W (List (Rate F))
    unfolding get_each
    get_rates pairs = do ended ← total host.context_error; unless_ended (get_each pairs) ended

    unfoldable pub set_drift : String → String → F → W → W
    set_drift source target drift w =
        let state = cell.read w in
        cell.write
          (record state { current_drift = (pair_key source target, drift) ∷ state.current_drift }) w

    unfoldable pub reset_drift : W → W
    reset_drift = cell.write (record { current_drift = []; last_drift = zero_time })

    unfoldable pub simulated_provider : RateProvider F W
    unfolding get_rate get_rates
    simulated_provider = record {
      get_rate = get_rate;
      get_rates = get_rates;
      name = "simulated";
      supports_inverse = true;
    }
