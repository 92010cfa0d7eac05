-- ===== src/Settlement/Grpc/Messages.antt =====
-- The message types of internal/grpc/server.go. A pointer that may be nil is an option, and the
-- requests that hold one id alone are that id. `Error.Details` is never set.
use movra.Prelude.{String, Option, none, some, List}
use movra.Prelude.Int.{ℤ, pos}

-- What a handler ends with.
pub data Reply (A : Type 0) : Type 0 where
  reply : A → Reply A
  panic : Reply A

-- The enumerations are of type `int32`.
abbrev pub PayoutStatus : Type 0
PayoutStatus = ℤ

abbrev pub PayoutMethod : Type 0
PayoutMethod = ℤ

pub record Money : Type 0 where
  pub currency : String
  pub amount : String

pub record Timestamp : Type 0 where
  pub seconds : ℤ
  pub nanos : ℤ

pub record Error : Type 0 where
  pub code : String
  pub message : String

pub record RecipientDetails : Type 0 where
  pub type : PayoutMethod
  pub bank_name : String
  pub bank_code : String
  pub account_number : String
  pub account_name : String
  pub wallet_provider : String
  pub mobile_number : String
  pub first_name : String
  pub last_name : String
  pub country : String

pub record Payout : Type 0 where
  pub id : String
  pub transfer_id : String
  pub status : PayoutStatus
  pub method : PayoutMethod
  pub amount : Option Money
  pub currency : String
  pub recipient : Option RecipientDetails
  pub provider_reference : String
  pub batch_id : String
  pub pickup_code : String
  pub pickup_expires_at : Option Timestamp
  pub failure_reason : String
  pub retry_count : ℤ
  pub created_at : Option Timestamp
  pub updated_at : Option Timestamp
  pub completed_at : Option Timestamp

pub record PaginationRequest : Type 0 where
  pub limit : ℤ
  pub offset : ℤ

-- `GetLimit` and `GetOffset` of a pointer that may be nil.
abbrev pub get_limit : Option PaginationRequest → ℤ
get_limit none = pos 0
get_limit (some p) = p.limit

abbrev pub get_offset : Option PaginationRequest → ℤ
get_offset none = pos 0
get_offset (some p) = p.offset

pub record PaginationResponse : Type 0 where
  pub total : ℤ
  pub limit : ℤ
  pub offset : ℤ

pub record InitiatePayoutRequest : Type 0 where
  pub transfer_id : String
  pub amount : Option Money
  pub method : PayoutMethod
  pub recipient : Option RecipientDetails

-- The responses of `InitiatePayout`, `GetPayout`, `RetryPayout` and `CancelPayout`.
pub record PayoutResponse : Type 0 where
  pub payout : Option Payout
  pub error : Option Error

pub record ListPayoutsRequest : Type 0 where
  pub pagination : Option PaginationRequest
  pub status_filter : PayoutStatus
  pub method_filter : PayoutMethod
  pub batch_id : String

pub record ListPayoutsResponse : Type 0 where
  pub payouts : List Payout
  pub pagination : Option PaginationResponse
  pub error : Option Error

pub record GetPickupCodeResponse : Type 0 where
  pub pickup_code : String
  pub expires_at : Option Timestamp
  pub pickup_location_info : String
  pub error : Option Error
