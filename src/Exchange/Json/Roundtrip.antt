-- ===== src/Exchange/Json/Roundtrip.antt =====
-- Reading the JSON of rates and locked rates, field by field.
use movra.Prelude.{◌≡◌, refl}
use movra.Prelude.Action.{ok}
use movra.Platform.Float.{Floats}
use movra.Platform.Json.{object, find}
use movra.Exchange.Model.{ExchangeRate, LockedRate}
use movra.Exchange.Interfaces.{Rate}
use movra.Exchange.Json.{
  rate_fields, unmarshal_rate, exchange_rate_fields, unmarshal_exchange_rate, locked_fields,
  unmarshal_locked,
}

module _ {F : Type 0} (fl : Floats F) where
  -- Reading the JSON that is written for a rate gives the rate back.
  pub unmarshal_rate-rate_fields :
      (r : Rate F) → unmarshal_rate fl (object (rate_fields fl r)) ≡ ok r
  unfolding unmarshal_rate rate_fields find
  unmarshal_rate-rate_fields r = refl

  exchange_rate_roundtrip :
      (r : ExchangeRate F) → unmarshal_exchange_rate fl (object (exchange_rate_fields fl r)) ≡ ok r
  unfolding unmarshal_exchange_rate exchange_rate_fields find
  exchange_rate_roundtrip r = refl

  -- Reading the JSON that is written for a locked rate gives the locked rate back.
  pub unmarshal_locked-locked_fields :
      (l : LockedRate F) → unmarshal_locked fl (object (locked_fields fl l)) ≡ ok l
  unfolding unmarshal_locked locked_fields unmarshal_exchange_rate exchange_rate_fields find
  unmarshal_locked-locked_fields l = refl
