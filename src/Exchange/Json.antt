-- ===== src/Exchange/Json.antt =====
-- The JSON forms of a rate (internal/provider/provider.go, which has no tags) and of a locked rate
-- (the tags of internal/model/rate.go). The number of a float64 field is a `float`, also if it is
-- whole. `encoding/json` refuses NaN and the infinities.
pub mod Roundtrip
use movra.Prelude.{String, Bool, true, false, Option, none, some, ◌&&◌, if◌then◌else◌}
use movra.Prelude.Action.{Result, ok, err}
use movra.Platform.Time.{Time}
use movra.Platform.Float.{Floats, zero_float}
use movra.Platform.Json.{
  Json, Fields, null, end, field, str, float, bool, time, object, find, mismatch, to_text, to_bool,
  to_time, to_object,
}
use movra.Settlement.Json.{◌>>=◌}
use movra.Exchange.Model.{ExchangeRate, LockedRate}
use movra.Exchange.Interfaces.{Rate}

module _ {F : Type 0} (fl : Floats F) where
  abbrev pub to_float : Json F → Result F
  to_float null = ok (zero_float fl)
  to_float (float x) = ok x
  to_float _ = mismatch

  unfoldable pub rate_fields : Rate F → Fields F
  rate_fields r = field "SourceCurrency" (str r.source_currency) (
      field "TargetCurrency" (str r.target_currency) (
        field "MidRate" (float r.mid_rate) (
          field "BidRate" (float r.bid_rate) (
            field "AskRate" (float r.ask_rate) (
              field "Spread" (float r.spread) (
                field "Source" (str r.source) (
                  field "FetchedAt" (time r.fetched_at)
                    (field "ValidUntil" (time r.valid_until) end))))))))

  unfoldable pub rate_encodes : Rate F → Bool
  rate_encodes r =
      fl.is_finite r.mid_rate
      && (fl.is_finite r.bid_rate && (fl.is_finite r.ask_rate && fl.is_finite r.spread))

  unfoldable pub marshal_rate : Rate F → Result (Json F)
  unfolding rate_encodes rate_fields
  marshal_rate r =
      if rate_encodes r then ok (object (rate_fields r)) else err "json: unsupported value"

  unfoldable pub unmarshal_rate : Json F → Result (Rate F)
  unfolding find
  unmarshal_rate j = do
    o ← to_object j
    source_currency ← to_text (find "SourceCurrency" o)
    target_currency ← to_text (find "TargetCurrency" o)
    mid_rate ← to_float (find "MidRate" o)
    bid_rate ← to_float (find "BidRate" o)
    ask_rate ← to_float (find "AskRate" o)
    spread ← to_float (find "Spread" o)
    source ← to_text (find "Source" o)
    fetched_at ← to_time (find "FetchedAt" o)
    valid_until ← to_time (find "ValidUntil" o)
    ok (record {
      source_currency = source_currency;
      target_currency = target_currency;
      mid_rate = mid_rate;
      bid_rate = bid_rate;
      ask_rate = ask_rate;
      spread = spread;
      source = source;
      fetched_at = fetched_at;
      valid_until = valid_until;
    })

  unfoldable pub exchange_rate_fields : ExchangeRate F → Fields F
  exchange_rate_fields r = field "sourceCurrency" (str r.source_currency) (
      field "targetCurrency" (str r.target_currency) (
        field "midRate" (float r.mid_rate) (
          field "rate" (str r.rate) (
            field "buyRate" (str r.buy_rate) (
              field "bidRate" (float r.bid_rate) (
                field "askRate" (float r.ask_rate) (
                  field "spread" (float r.spread) (
                    field "marginPercentage" (str r.margin_percentage) (
                      field "source" (str r.source) (
                        field "fetchedAt" (time r.fetched_at)
                          (field "expiresAt" (time r.expires_at) end)))))))))))

  unfoldable pub exchange_rate_encodes : ExchangeRate F → Bool
  exchange_rate_encodes r =
      fl.is_finite r.mid_rate
      && (fl.is_finite r.bid_rate && (fl.is_finite r.ask_rate && fl.is_finite r.spread))

  unfoldable pub unmarshal_exchange_rate : Json F → Result (ExchangeRate F)
  unfolding find
  unmarshal_exchange_rate j = do
    o ← to_object j
    source_currency ← to_text (find "sourceCurrency" o)
    target_currency ← to_text (find "targetCurrency" o)
    mid_rate ← to_float (find "midRate" o)
    rate ← to_text (find "rate" o)
    buy_rate ← to_text (find "buyRate" o)
    bid_rate ← to_float (find "bidRate" o)
    ask_rate ← to_float (find "askRate" o)
    spread ← to_float (find "spread" o)
    margin_percentage ← to_text (find "marginPercentage" o)
    source ← to_text (find "source" o)
    fetched_at ← to_time (find "fetchedAt" o)
    expires_at ← to_time (find "expiresAt" o)
    ok (record {
      source_currency = source_currency;
      target_currency = target_currency;
      mid_rate = mid_rate;
      rate = rate;
      buy_rate = buy_rate;
      bid_rate = bid_rate;
      ask_rate = ask_rate;
      spread = spread;
      margin_percentage = margin_percentage;
      source = source;
      fetched_at = fetched_at;
      expires_at = expires_at;
    })

  unfoldable pub locked_fields : LockedRate F → Fields F
  unfolding exchange_rate_fields
  locked_fields l = field "lockId" (str l.lock_id) (
      field "rate" (object (exchange_rate_fields l.rate)) (
        field "lockedAt" (time l.locked_at)
          (field "expiresAt" (time l.expires_at) (field "expired" (bool l.expired) end))))

  unfoldable pub marshal_locked : LockedRate F → Result (Json F)
  unfolding exchange_rate_encodes locked_fields
  marshal_locked l =
      if exchange_rate_encodes l.rate
      then ok (object (locked_fields l))
      else err "json: unsupported value"

  unfoldable pub unmarshal_locked : Json F → Result (LockedRate F)
  unfolding find unmarshal_exchange_rate
  unmarshal_locked j = do
    o ← to_object j
    lock_id ← to_text (find "lockId" o)
    rate ← unmarshal_exchange_rate (find "rate" o)
    locked_at ← to_time (find "lockedAt" o)
    expires_at ← to_time (find "expiresAt" o)
    expired ← to_bool (find "expired" o)
    ok (record {
      lock_id = lock_id;
      rate = rate;
      locked_at = locked_at;
      expires_at = expires_at;
      expired = expired;
    })
