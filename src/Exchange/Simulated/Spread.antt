-- ===== src/Exchange/Simulated/Spread.antt =====
-- The rates of internal/provider/simulated.go: what `GetRate` returns around its mid rate.
use mathlib.Core.Path.{subst}
use movra.Prelude.{String, ◌≡◌, refl, sym, Option, none, some}
use movra.Prelude.Action.{
  Fallible, ok, err, Returned, Ensures, Keeps-of, Ensures-pure, Ensures-fail, Ensures-bind,
  Keeps-total,
}
use movra.Platform.Time.{Time, add}
use movra.Platform.Float.{Floats, FloatLaws, one, two, zero_float, ◌≼◌, Finite}
use movra.Exchange.Interfaces.{Rate, Error, plain, Host}
use movra.Exchange.Simulated.{
  DriftState, SimulatedProviderConfig, Cell, update_drift_if_needed, priced, mid_rate, quote_rate,
  get_rate, unless_ended,
}

module _ {F : Type 0} (fl : Floats F) (c : SimulatedProviderConfig F) where
  -- Half of the spread.
  abbrev half : F
  half = fl.over c.base_spread (two fl)

  -- A spread that leaves the factors of the bid and the ask finite.
  pub record IsSpread : Type 0 where
    pub half_finite : Finite fl half
    pub half_nonneg : ◌≼◌ fl (zero_float fl) half
    pub below_finite : Finite fl (fl.minus (one fl) half)
    pub above_finite : Finite fl (fl.plus (one fl) half)

  -- A rate for a pair, with the bid below the mid rate and the ask above it.
  pub record IsQuoted (source target : String) (r : Rate F) : Type 0 where
    pub source_currency : r.source_currency ≡ source
    pub target_currency : r.target_currency ≡ target
    pub valid_until : r.valid_until ≡ add r.fetched_at c.rate_validity_duration
    pub bid : ◌≼◌ fl r.bid_rate r.mid_rate
    pub ask : ◌≼◌ fl r.mid_rate r.ask_rate

  module _ {W : Type 0} (host : Host F W) (cell : Cell W (DriftState F)) where
    abbrev priced_rate : String → String → F → Time → Rate F
    priced_rate = priced fl host cell c

    priced-IsQuoted :
        FloatLaws fl
        → IsSpread
        → (source target : String) (mid : F) (t : Time) → Finite fl mid
        → ◌≼◌ fl (zero_float fl) mid
        → IsQuoted source target (priced_rate source target mid t)
    unfolding priced
    priced-IsQuoted laws spread source target mid t finite nonneg = record {
      source_currency = refl;
      target_currency = refl;
      valid_until = refl;
      bid =
          subst (λ x. ◌≼◌ fl (fl.times mid (fl.minus (one fl) half)) x) (laws.times_one mid)
            (laws.times_mono mid (fl.minus (one fl) half) (one fl) finite spread.below_finite
              laws.one_finite nonneg
              (laws.minus-le (one fl) half laws.one_finite spread.half_finite spread.half_nonneg));
      ask =
          subst (λ x. ◌≼◌ fl x (fl.times mid (fl.plus (one fl) half))) (laws.times_one mid)
            (laws.times_mono mid (one fl) (fl.plus (one fl) half) finite laws.one_finite
              spread.above_finite nonneg
              (laws.le-plus (one fl) half laws.one_finite spread.half_finite spread.half_nonneg));
    }

    -- A rate of the shape that `GetRate` builds.
    abbrev IsPriced : String → String → Rate F → Type 0
    IsPriced source target r = (mid : F) × (t : Time) × (r ≡ priced_rate source target mid t)

    abbrev Anywhere : W → Type 0
    Anywhere w = Unit

    quote-IsPriced :
        (source target : String)
        → Ensures Anywhere (IsPriced source target) (quote_rate fl host cell c source target)
    unfolding quote_rate
    quote-IsPriced source target =
        Ensures-bind (Keeps-of (update_drift_if_needed fl host cell c) λ _ _. tt) λ _ _.
          Ensures-bind (Keeps-of (mid_rate fl host cell c source target) λ _ _. tt) λ mid _.
            Ensures-bind (Keeps-total {E = Error} host.now λ _ _. tt)
              λ t _. Ensures-pure _ (mid, t, refl)

    get_rate-IsPriced :
        (source target : String)
        → Ensures Anywhere (IsPriced source target) (get_rate fl host cell c source target)
    unfolding get_rate
    get_rate-IsPriced source target =
        Ensures-bind (Keeps-total {E = Error} host.context_error λ _ _. tt) λ ended _. unless ended
      where
        unless :
            (o : Option String)
            → Ensures Anywhere
                (IsPriced source target)
                (unless_ended fl host cell c (quote_rate fl host cell c source target) o)
        unless none = quote-IsPriced source target
        unless (some e) = Ensures-fail (plain e)

    returned :
        {A : Type 0} (Q : A → Type 0) (r : Fallible Error A) (a : A) → r ≡ ok a → Returned Q r → Q a
    returned Q (ok b) a e q = subst Q (same b a e) q
      where
        same : {A : Type 0} (b a : A) → ◌≡◌ {A = Fallible Error A} (ok b) (ok a) → b ≡ a
        same b a e = cc
    returned Q (err x) a e q = cc

    -- For numbers that keep `FloatLaws`, a spread whose half is not negative and leaves finite
    -- factors, and a mid rate that is finite and not negative: a rate that `GetRate` returns is
    -- for the pair that was asked for, valid for the configured time from its fetching on, and its
    -- bid is at most its mid rate, which is at most its ask.
    pub get_rate-IsQuoted :
        FloatLaws fl
        → IsSpread
        → (source target : String) (w : W) (r : Rate F)
        → (get_rate fl host cell c source target w).0 ≡ ok r
        → Finite fl r.mid_rate
        → ◌≼◌ fl (zero_float fl) r.mid_rate
        → IsQuoted source target r
    get_rate-IsQuoted laws spread source target w r e finite nonneg =
        let (mid, t, built) =
          returned (IsPriced source target) _ r e
            ((get_rate-IsPriced source target).returns w tt) in
        quoted mid t built finite nonneg
      where
        quoted :
            (mid : F) (t : Time)
            → r ≡ priced_rate source target mid t
            → Finite fl r.mid_rate
            → ◌≼◌ fl (zero_float fl) r.mid_rate
            → IsQuoted source target r
        quoted mid t built =
            subst
              (λ x.
                Finite fl x.mid_rate → ◌≼◌ fl (zero_float fl) x.mid_rate → IsQuoted source target x)
              (sym built)
              (unfold priced in λ f n. priced-IsQuoted laws spread source target mid t f n)
