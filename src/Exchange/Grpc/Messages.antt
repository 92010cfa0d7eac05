-- ===== src/Exchange/Grpc/Messages.antt =====
-- The message types of internal/grpc/server.go of the exchange-rate service. A pointer that may be
-- nil is an option, and the requests that hold one text alone are that text. `Error.Details` is
-- never set.
use movra.Prelude.{String, Bool, Option, List}
use movra.Prelude.Int.{ℤ}

pub record Timestamp : Type 0 where
  pub seconds : ℤ
  pub nanos : ℤ

pub record Money : Type 0 where
  pub currency : String
  pub amount : String

pub record Error : Type 0 where
  pub code : String
  pub message : String

pub record ExchangeRate : Type 0 where
  pub source_currency : String
  pub target_currency : String
  pub rate : String
  pub buy_rate : String
  pub margin_percentage : String
  pub fetched_at : Option Timestamp
  pub expires_at : Option Timestamp

pub record LockedRate : Type 0 where
  pub lock_id : String
  pub rate : Option ExchangeRate
  pub locked_at : Option Timestamp
  pub expires_at : Option Timestamp
  pub expired : Bool

pub record Corridor : Type 0 where
  pub source_currency : String
  pub target_currency : String
  pub enabled : Bool
  pub fee_percentage : String
  pub fee_minimum : Option Money
  pub margin_percentage : String
  pub payout_methods : List String

pub record GetRateRequest : Type 0 where
  pub source_currency : String
  pub target_currency : String

pub record GetRateResponse : Type 0 where
  pub rate : Option ExchangeRate
  pub error : Option Error

pub record LockRateRequest : Type 0 where
  pub source_currency : String
  pub target_currency : String
  pub lock_duration_seconds : ℤ

-- Also the response of `GetLockedRate`.
pub record LockRateResponse : Type 0 where
  pub locked_rate : Option LockedRate
  pub error : Option Error

pub record GetCorridorsResponse : Type 0 where
  pub corridors : List Corridor
  pub error : Option Error

pub record RateUpdate : Type 0 where
  pub rate : Option ExchangeRate
