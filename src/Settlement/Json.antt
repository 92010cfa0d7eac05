-- ===== src/Settlement/Json.antt =====
-- The JSON form of a payout, by the tags of internal/model/payout.go, as `SavePayout` writes it and
-- `GetPayout` reads it.
pub mod Roundtrip
use movra.Prelude.{String, Bool, Option, none, some}
use movra.Prelude.Int.{ℤ}
use movra.Prelude.Action.{Result, ok, err}
use movra.Platform.Time.{Time}
use movra.Platform.Json.{
  Json, Fields, end, field, str, int, time, object, omit_text, omit_time, find, to_text, to_int,
  to_time, to_time_pointer, to_object,
}
use movra.Settlement.Model.{Payout, Recipient}

-- No number of a payout is a fraction.
abbrev pub PayoutJson : Type 0
PayoutJson = Json (Unit {0})

abbrev pub PayoutFields : Type 0
PayoutFields = Fields (Unit {0})

-- `do` over results.
infixl 5 ◌>>=◌
abbrev pub ◌>>=◌ {ℓ κ} : {A : Type ℓ} {B : Type κ} → Result A → (A → Result B) → Result B
ok a >>= f = f a
err e >>= f = err e

unfoldable pub recipient_fields : Recipient → PayoutFields
recipient_fields r = field "type" (str r.type) (
    omit_text "bankName" r.bank_name (
      omit_text "bankCode" r.bank_code (
        omit_text "accountNumber" r.account_number (
          omit_text "accountName" r.account_name (
            omit_text "walletProvider" r.wallet_provider (
              omit_text "mobileNumber" r.mobile_number (
                omit_text "firstName" r.first_name
                  (omit_text "lastName" r.last_name (omit_text "country" r.country end)))))))))

abbrev pub marshal_recipient : Recipient → PayoutJson
marshal_recipient r = object (recipient_fields r)

unfoldable pub unmarshal_recipient : PayoutJson → Result Recipient
unfolding find
unmarshal_recipient j = do
  o ← to_object j
  type ← to_text (find "type" o)
  bank_name ← to_text (find "bankName" o)
  bank_code ← to_text (find "bankCode" o)
  account_number ← to_text (find "accountNumber" o)
  account_name ← to_text (find "accountName" o)
  wallet_provider ← to_text (find "walletProvider" o)
  mobile_number ← to_text (find "mobileNumber" o)
  first_name ← to_text (find "firstName" o)
  last_name ← to_text (find "lastName" o)
  country ← to_text (find "country" o)
  ok (record {
    type = type;
    bank_name = bank_name;
    bank_code = bank_code;
    account_number = account_number;
    account_name = account_name;
    wallet_provider = wallet_provider;
    mobile_number = mobile_number;
    first_name = first_name;
    last_name = last_name;
    country = country;
  })

unfoldable pub payout_fields : Payout → PayoutFields
unfolding recipient_fields
payout_fields p = field "id" (str p.id) (
    field "transferId" (str p.transfer_id) (
      field "status" (str p.status) (
        field "method" (str p.method) (
          field "amount" (str p.amount) (
            field "currency" (str p.currency) (
              field "recipient" (marshal_recipient p.recipient) (
                omit_text "providerReference" p.provider_reference (
                  omit_text "batchId" p.batch_id (
                    omit_text "pickupCode" p.pickup_code (
                      omit_time "pickupExpiresAt" p.pickup_expires_at (
                        omit_text "failureReason" p.failure_reason (
                          field "retryCount" (int p.retry_count) (
                            field "createdAt" (time p.created_at) (
                              field "updatedAt" (time p.updated_at)
                                (omit_time "completedAt" p.completed_at end)))))))))))))))

abbrev pub marshal_payout : Payout → PayoutJson
marshal_payout p = object (payout_fields p)

unfoldable pub unmarshal_payout : PayoutJson → Result Payout
unfolding find unmarshal_recipient
unmarshal_payout j = do
  o ← to_object j
  id ← to_text (find "id" o)
  transfer_id ← to_text (find "transferId" o)
  status ← to_text (find "status" o)
  method ← to_text (find "method" o)
  amount ← to_text (find "amount" o)
  currency ← to_text (find "currency" o)
  recipient ← unmarshal_recipient (find "recipient" o)
  provider_reference ← to_text (find "providerReference" o)
  batch_id ← to_text (find "batchId" o)
  pickup_code ← to_text (find "pickupCode" o)
  pickup_expires_at ← to_time_pointer (find "pickupExpiresAt" o)
  failure_reason ← to_text (find "failureReason" o)
  retry_count ← to_int (find "retryCount" o)
  created_at ← to_time (find "createdAt" o)
  updated_at ← to_time (find "updatedAt" o)
  completed_at ← to_time_pointer (find "completedAt" o)
  ok (record {
    id = id;
    transfer_id = transfer_id;
    status = status;
    method = method;
    amount = amount;
    currency = currency;
    recipient = recipient;
    provider_reference = provider_reference;
    batch_id = batch_id;
    pickup_code = pickup_code;
    pickup_expires_at = pickup_expires_at;
    failure_reason = failure_reason;
    retry_count = retry_count;
    created_at = created_at;
    updated_at = updated_at;
    completed_at = completed_at;
  })
