-- ===== src/Settlement/Model.antt =====
-- internal/model/payout.go: payouts, their recipients and their states.
use movra.Prelude.{String, Option, none}
use movra.Prelude.Int.{ℤ, pos}
use movra.Platform.Time.{Time, zero_time}

-- `PayoutStatus` is a string type: any text is a status, and `unspecified` is its zero value.
abbrev pub PayoutStatus : Type 0
PayoutStatus = String

abbrev pub unspecified : PayoutStatus
unspecified = ""

abbrev pub pending : PayoutStatus
pending = "PENDING"

abbrev pub processing : PayoutStatus
processing = "PROCESSING"

abbrev pub completed : PayoutStatus
completed = "COMPLETED"

abbrev pub failed : PayoutStatus
failed = "FAILED"

abbrev pub cancelled : PayoutStatus
cancelled = "CANCELLED"

abbrev pub ready_for_pickup : PayoutStatus
ready_for_pickup = "READY_FOR_PICKUP"

abbrev pub picked_up : PayoutStatus
picked_up = "PICKED_UP"

-- `PayoutMethod` is a string type too.
abbrev pub PayoutMethod : Type 0
PayoutMethod = String

abbrev pub unspecified_method : PayoutMethod
unspecified_method = ""

abbrev pub bank_account : PayoutMethod
bank_account = "BANK_ACCOUNT"

abbrev pub mobile_wallet : PayoutMethod
mobile_wallet = "MOBILE_WALLET"

abbrev pub cash_pickup : PayoutMethod
cash_pickup = "CASH_PICKUP"

pub record Recipient : Type 0 where
  pub type : PayoutMethod
  pub bank_name : String
  pub bank_code : String
  pub account_number : String
  pub account_name : String
  pub wallet_provider : String
  pub mobile_number : String
  pub first_name : String
  pub last_name : String
  pub country : String

pub record Payout : Type 0 where
  pub id : String
  pub transfer_id : String
  pub status : PayoutStatus
  pub method : PayoutMethod
  pub amount : String
  pub currency : String
  pub recipient : Recipient
  pub provider_reference : String
  pub batch_id : String
  pub pickup_code : String
  pub pickup_expires_at : Option Time
  pub failure_reason : String
  pub retry_count : ℤ
  pub created_at : Time
  pub updated_at : Time
  pub completed_at : Option Time

pub record PayoutBatch : Type 0 where
  pub id : String
  pub method : PayoutMethod
  pub currency : String
  pub total_payouts : ℤ
  pub completed_payouts : ℤ
  pub failed_payouts : ℤ
  pub total_amount : String
  pub created_at : Time
  pub completed_at : Option Time

-- The zero values of the types.
abbrev pub zero_recipient : Recipient
zero_recipient = record {
  type = unspecified_method;
  bank_name = "";
  bank_code = "";
  account_number = "";
  account_name = "";
  wallet_provider = "";
  mobile_number = "";
  first_name = "";
  last_name = "";
  country = "";
}

abbrev pub zero_payout : Payout
zero_payout = record {
  id = "";
  transfer_id = "";
  status = unspecified;
  method = unspecified_method;
  amount = "";
  currency = "";
  recipient = zero_recipient;
  provider_reference = "";
  batch_id = "";
  pickup_code = "";
  pickup_expires_at = none;
  failure_reason = "";
  retry_count = pos 0;
  created_at = zero_time;
  updated_at = zero_time;
  completed_at = none;
}
