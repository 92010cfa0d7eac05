-- ===== src/Exchange/Model.antt =====
-- internal/model/rate.go: rates, locks, quotes and the corridors that are served. `F` is the type of
-- the floating-point numbers.
use movra.Prelude.{String, Bool, true, List, [], ◌∷◌}
use movra.Prelude.Int.{ℤ}
use movra.Platform.Time.{Time}

pub record ExchangeRate (F : Type 0) : Type 0 where
  pub source_currency : String
  pub target_currency : String
  pub mid_rate : F
  pub rate : String
  pub buy_rate : String
  pub bid_rate : F
  pub ask_rate : F
  pub spread : F
  pub margin_percentage : String
  pub source : String
  pub fetched_at : Time
  pub expires_at : Time

pub record LockedRate (F : Type 0) : Type 0 where
  pub lock_id : String
  pub rate : ExchangeRate F
  pub locked_at : Time
  pub expires_at : Time
  pub expired : Bool

pub record Money : Type 0 where
  pub currency : String
  pub amount : String

pub record Corridor : Type 0 where
  pub source_currency : String
  pub target_currency : String
  pub enabled : Bool
  pub fee_percentage : String
  pub fee_minimum : Money
  pub margin_percentage : String
  pub payout_methods : List String

pub record RateLockRequest : Type 0 where
  pub source_currency : String
  pub target_currency : String
  pub duration_seconds : ℤ

pub record RateQuote (F : Type 0) : Type 0 where
  pub source_currency : String
  pub target_currency : String
  pub source_amount : F
  pub target_amount : F
  pub exchange_rate : F
  pub mid_market_rate : F
  pub fee : F
  pub total_cost : F
  pub valid_until : Time
  pub quote_id : String

-- The variable `Corridors`.
unfoldable pub corridors : List Corridor
corridors =
    record {
      source_currency = "SGD";
      target_currency = "PHP";
      enabled = true;
      fee_percentage = "0.5";
      fee_minimum = record { currency = "SGD"; amount = "3.00" };
      margin_percentage = "0.3";
      payout_methods = "BANK_ACCOUNT" ∷ "MOBILE_WALLET" ∷ "CASH_PICKUP" ∷ [];
    }
    ∷ record {
      source_currency = "SGD";
      target_currency = "INR";
      enabled = true;
      fee_percentage = "0.5";
      fee_minimum = record { currency = "SGD"; amount = "3.00" };
      margin_percentage = "0.35";
      payout_methods = "BANK_ACCOUNT" ∷ "MOBILE_WALLET" ∷ [];
    }
    ∷ record {
      source_currency = "SGD";
      target_currency = "IDR";
      enabled = true;
      fee_percentage = "0.5";
      fee_minimum = record { currency = "SGD"; amount = "3.00" };
      margin_percentage = "0.3";
      payout_methods = "BANK_ACCOUNT" ∷ "MOBILE_WALLET" ∷ [];
    }
    ∷ record {
      source_currency = "USD";
      target_currency = "PHP";
      enabled = true;
      fee_percentage = "0.4";
      fee_minimum = record { currency = "USD"; amount = "2.00" };
      margin_percentage = "0.25";
      payout_methods = "BANK_ACCOUNT" ∷ "MOBILE_WALLET" ∷ "CASH_PICKUP" ∷ [];
    }
    ∷ record {
      source_currency = "SGD";
      target_currency = "USD";
      enabled = true;
      fee_percentage = "0.3";
      fee_minimum = record { currency = "SGD"; amount = "2.00" };
      margin_percentage = "0.2";
      payout_methods = "BANK_ACCOUNT" ∷ [];
    }
    ∷ []
