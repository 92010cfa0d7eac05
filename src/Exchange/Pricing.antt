-- ===== src/Exchange/Pricing.antt =====
-- The prices of internal/service/rate_service.go: a provider's rate as the service gives it, with the
-- margin of its corridor, and the fee of a quote.
use movra.Prelude.{String, true, Option, none, some, if◌then◌else◌}
use movra.Platform.Time.{zero_time}
use movra.Platform.Float.{Floats, zero_float, one, hundred}
use movra.Exchange.Model.{ExchangeRate, LockedRate, Corridor, corridors}
use movra.Exchange.Corridors.{first_between}
use movra.Exchange.Interfaces.{Rate}

module _ {F : Type 0} (fl : Floats F) where
  -- `v, _ := strconv.ParseFloat(s, 64)`
  abbrev pub parsed : String → F
  parsed s = (fl.parse_float s).0

  abbrev pub margin_of : Option Corridor → F
  margin_of (some c) = fl.over (parsed c.margin_percentage) (hundred fl)
  margin_of none = fl.literal 3 3

  unfoldable pub get_margin : String → String → F
  unfolding corridors
  get_margin from to = margin_of (first_between from to corridors)

  unfoldable pub provider_rate_to_model : Rate F → String → String → ExchangeRate F
  unfolding get_margin
  provider_rate_to_model rate from to =
      let margin = get_margin from to in
      let buy_rate = fl.times rate.mid_rate (fl.minus (one fl) margin) in
      record {
        source_currency = from;
        target_currency = to;
        mid_rate = rate.mid_rate;
        rate = fl.fixed 6 rate.mid_rate;
        buy_rate = fl.fixed 6 buy_rate;
        bid_rate = rate.bid_rate;
        ask_rate = rate.ask_rate;
        spread = rate.spread;
        margin_percentage = fl.fixed 2 (fl.times margin (hundred fl));
        source = rate.source;
        fetched_at = rate.fetched_at;
        expires_at = rate.valid_until;
      }

  abbrev pub zero_exchange_rate : ExchangeRate F
  zero_exchange_rate = record {
    source_currency = "";
    target_currency = "";
    mid_rate = zero_float fl;
    rate = "";
    buy_rate = "";
    bid_rate = zero_float fl;
    ask_rate = zero_float fl;
    spread = zero_float fl;
    margin_percentage = "";
    source = "";
    fetched_at = zero_time;
    expires_at = zero_time;
  }

  -- `&model.LockedRate{LockID: lockID, Expired: true}`
  abbrev pub expired_lock : String → LockedRate F
  expired_lock lock_id = record {
    lock_id = lock_id;
    rate = zero_exchange_rate;
    locked_at = zero_time;
    expires_at = zero_time;
    expired = true;
  }

  -- The fee of a quote: a share of the amount, and no less than the corridor's minimum.
  unfoldable pub fee_of : Corridor → F → F
  fee_of c amount =
      let fee = fl.times amount (fl.over (parsed c.fee_percentage) (hundred fl)) in
      let least = parsed c.fee_minimum.amount in if fl.less fee least then least else fee
