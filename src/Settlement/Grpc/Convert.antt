-- ===== src/Settlement/Grpc/Convert.antt =====
-- The helper functions of internal/grpc/server.go between the model and the messages.
use movra.Prelude.{Option, none, some, if◌then◌else◌, ◌==◌}
use movra.Prelude.Int.{pos, eqb_ℤ, to_int32}
use movra.Platform.Time.{Time, unix, nanosecond}
use movra.Settlement.Model.{
  Payout, Recipient, PayoutStatus, PayoutMethod, unspecified, pending, processing, completed,
  failed, cancelled, ready_for_pickup, picked_up, unspecified_method, bank_account, mobile_wallet,
  cash_pickup, zero_recipient,
}
use movra.Settlement.Grpc.Messages
use movra.Settlement.Grpc.Messages.{Timestamp, RecipientDetails}

unfoldable pub model_status_to_proto : PayoutStatus → Messages.PayoutStatus
model_status_to_proto s =
    if s == pending
    then pos 1
    else if s == processing
    then pos 2
    else if s == completed
    then pos 3
    else if s == failed
    then pos 4
    else if s == cancelled
    then pos 5
    else if s == ready_for_pickup
    then pos 6
    else if s == picked_up
    then pos 7
    else pos 0

unfoldable pub proto_status_to_model : Messages.PayoutStatus → PayoutStatus
proto_status_to_model s =
    if eqb_ℤ s (pos 1)
    then pending
    else if eqb_ℤ s (pos 2)
    then processing
    else if eqb_ℤ s (pos 3)
    then completed
    else if eqb_ℤ s (pos 4)
    then failed
    else if eqb_ℤ s (pos 5)
    then cancelled
    else if eqb_ℤ s (pos 6)
    then ready_for_pickup
    else if eqb_ℤ s (pos 7)
    then picked_up
    else unspecified

unfoldable pub model_method_to_proto : PayoutMethod → Messages.PayoutMethod
model_method_to_proto m =
    if m == bank_account
    then pos 1
    else if m == mobile_wallet
    then pos 2
    else if m == cash_pickup
    then pos 3
    else pos 0

unfoldable pub proto_method_to_model : Messages.PayoutMethod → PayoutMethod
proto_method_to_model m =
    if eqb_ℤ m (pos 1)
    then bank_account
    else if eqb_ℤ m (pos 2)
    then mobile_wallet
    else if eqb_ℤ m (pos 3)
    then cash_pickup
    else unspecified_method

unfoldable pub time_to_proto_timestamp : Time → Timestamp
time_to_proto_timestamp t = record { seconds = unix t; nanos = pos (nanosecond t) }

abbrev optional_timestamp : Option Time → Option Timestamp
optional_timestamp none = none
optional_timestamp (some t) = some (time_to_proto_timestamp t)

unfoldable pub model_recipient_to_proto : Recipient → RecipientDetails
model_recipient_to_proto r = record {
  type = model_method_to_proto r.type;
  bank_name = r.bank_name;
  bank_code = r.bank_code;
  account_number = r.account_number;
  account_name = r.account_name;
  wallet_provider = r.wallet_provider;
  mobile_number = r.mobile_number;
  first_name = r.first_name;
  last_name = r.last_name;
  country = r.country;
}

unfoldable pub proto_recipient_to_model : Option RecipientDetails → Recipient
proto_recipient_to_model none = zero_recipient
proto_recipient_to_model (some r) = record {
  type = proto_method_to_model r.type;
  bank_name = r.bank_name;
  bank_code = r.bank_code;
  account_number = r.account_number;
  account_name = r.account_name;
  wallet_provider = r.wallet_provider;
  mobile_number = r.mobile_number;
  first_name = r.first_name;
  last_name = r.last_name;
  country = r.country;
}

unfoldable pub model_payout_to_proto : Payout → Messages.Payout
model_payout_to_proto p = record {
  id = p.id;
  transfer_id = p.transfer_id;
  status = model_status_to_proto p.status;
  method = model_method_to_proto p.method;
  amount = some (record { currency = p.currency; amount = p.amount });
  currency = p.currency;
  recipient = some (model_recipient_to_proto p.recipient);
  provider_reference = p.provider_reference;
  batch_id = p.batch_id;
  pickup_code = p.pickup_code;
  pickup_expires_at = optional_timestamp p.pickup_expires_at;
  failure_reason = p.failure_reason;
  retry_count = to_int32 p.retry_count;
  created_at = some (time_to_proto_timestamp p.created_at);
  updated_at = some (time_to_proto_timestamp p.updated_at);
  completed_at = optional_timestamp p.completed_at;
}
