-- ===== src/Exchange/Grpc.antt =====
-- internal/grpc/server.go of the exchange-rate service: its gRPC handlers. The messages stand in
-- `Messages`, the streaming of rates in `Stream`. The handlers here never return an error.
pub mod Messages
pub mod Stream
use movra.Prelude.{ℕ, String, ◌||◌, Option, none, some, List, map, if◌then◌else◌, ◌==◌}
use movra.Prelude.Int.{ℤ, pos, leb_ℤ}
use movra.Prelude.Action.{Fallible, ok, err}
use movra.Platform.Time.{Time, unix, nanosecond}
use movra.Platform.Float.{Floats}
use movra.Exchange.Model.{ExchangeRate, LockedRate, Corridor}
use movra.Exchange.Corridors.{get_corridors}
use movra.Exchange.Interfaces.{Error, error_text}
use movra.Exchange.Service.{RateService}
use movra.Exchange.Service
use Messages

unfoldable pub time_to_proto_timestamp : Time → Messages.Timestamp
time_to_proto_timestamp t = record { seconds = unix t; nanos = pos (nanosecond t) }

unfoldable pub model_corridor_to_proto : Corridor → Messages.Corridor
model_corridor_to_proto c = record {
  source_currency = c.source_currency;
  target_currency = c.target_currency;
  enabled = c.enabled;
  fee_percentage = c.fee_percentage;
  fee_minimum = some (record { currency = c.fee_minimum.currency; amount = c.fee_minimum.amount });
  margin_percentage = c.margin_percentage;
  payout_methods = c.payout_methods;
}

abbrev pub refusal : String → String → Option Messages.Error
refusal code message = some (record { code = code; message = message })

-- A call of the service, whose result becomes a response.
abbrev pub respond : {W A B : Type 0} → (A → B) → A × W → B × W
respond f (r, w) = (f r, w)

unfoldable pub get_corridors_of : String → Messages.GetCorridorsResponse
unfolding model_corridor_to_proto
get_corridors_of source = record {
  corridors = map model_corridor_to_proto (get_corridors source);
  error = none;
}

-- The duration of a request, or 30 seconds.
unfoldable pub lock_seconds : ℤ → ℤ
lock_seconds requested = if leb_ℤ requested (pos 0) then pos 30 else requested

module _ {F : Type 0} where
  unfoldable pub model_rate_to_proto : ExchangeRate F → Messages.ExchangeRate
  unfolding time_to_proto_timestamp
  model_rate_to_proto r = record {
    source_currency = r.source_currency;
    target_currency = r.target_currency;
    rate = r.rate;
    buy_rate = r.buy_rate;
    margin_percentage = r.margin_percentage;
    fetched_at = some (time_to_proto_timestamp r.fetched_at);
    expires_at = some (time_to_proto_timestamp r.expires_at);
  }

  unfoldable pub model_locked_rate_to_proto : LockedRate F → Messages.LockedRate
  unfolding model_rate_to_proto time_to_proto_timestamp
  model_locked_rate_to_proto l = record {
    lock_id = l.lock_id;
    rate = some (model_rate_to_proto l.rate);
    locked_at = some (time_to_proto_timestamp l.locked_at);
    expires_at = some (time_to_proto_timestamp l.expires_at);
    expired = l.expired;
  }

  abbrev pub rate_response : Fallible Error (ExchangeRate F) → Messages.GetRateResponse
  rate_response (ok r) = record { rate = some (model_rate_to_proto r); error = none }
  rate_response (err e) = record {
    rate = none;
    error = refusal "RATE_NOT_AVAILABLE" (error_text e);
  }

  abbrev pub lock_response : String → Fallible Error (LockedRate F) → Messages.LockRateResponse
  lock_response code (ok l) = record {
    locked_rate = some (model_locked_rate_to_proto l);
    error = none;
  }
  lock_response code (err e) = record { locked_rate = none; error = refusal code (error_text e) }

abbrev no_rate : Messages.GetRateResponse
no_rate = record {
  rate = none;
  error = refusal "INVALID_ARGUMENT" "source_currency and target_currency are required";
}

abbrev no_lock : String → Messages.LockRateResponse
no_lock message = record { locked_rate = none; error = refusal "INVALID_ARGUMENT" message }

module _ {F W : Type 0} (fl : Floats F) (s : RateService F W) where
  unfoldable pub get_rate : Messages.GetRateRequest → W → Messages.GetRateResponse × W
  unfolding model_rate_to_proto
  get_rate req w =
      if (req.source_currency == "") || (req.target_currency == "")
      then (no_rate, w)
      else respond rate_response (Service.get_rate fl s req.source_currency req.target_currency w)

  unfoldable pub lock_rate : Messages.LockRateRequest → W → Messages.LockRateResponse × W
  unfolding lock_seconds model_locked_rate_to_proto
  lock_rate req w =
      if (req.source_currency == "") || (req.target_currency == "")
      then (no_lock "source_currency and target_currency are required", w)
      else respond (lock_response "LOCK_FAILED") (
          Service.lock_rate fl s req.source_currency req.target_currency
            (lock_seconds req.lock_duration_seconds) w)

  unfoldable pub get_locked_rate : String → W → Messages.LockRateResponse × W
  unfolding model_locked_rate_to_proto
  get_locked_rate lock_id w =
      if lock_id == ""
      then (no_lock "lock_id is required", w)
      else respond (lock_response "LOCK_NOT_FOUND") (Service.get_locked_rate fl s lock_id w)
