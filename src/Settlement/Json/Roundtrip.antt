-- ===== src/Settlement/Json/Roundtrip.antt =====
-- Reading the JSON of a payout (the tags of internal/model/payout.go), field by field.
use movra.Prelude.{◌≡◌}
use movra.Prelude.Action.{ok}
use movra.Platform.Json.{
  object, find, to_int, to_time, find_rules, to_text, to_text-omitted, to_time_pointer,
  to_time_pointer-omitted,
}
use movra.Settlement.Model.{Payout, Recipient}
use movra.Settlement.Json.{
  recipient_fields, unmarshal_recipient, payout_fields, marshal_payout, unmarshal_payout,
}

module _ (r : Recipient) where
  type_read : to_text (find "type" (recipient_fields r)) ≡ ok r.type
  unfolding recipient_fields
  type_read = simp find_rules

  bank_name_read : to_text (find "bankName" (recipient_fields r)) ≡ ok r.bank_name
  unfolding recipient_fields
  bank_name_read = simp find_rules (to_text-omitted (Unit {0}) r.bank_name)

  bank_code_read : to_text (find "bankCode" (recipient_fields r)) ≡ ok r.bank_code
  unfolding recipient_fields
  bank_code_read = simp find_rules (to_text-omitted (Unit {0}) r.bank_code)

  account_number_read : to_text (find "accountNumber" (recipient_fields r)) ≡ ok r.account_number
  unfolding recipient_fields
  account_number_read = simp find_rules (to_text-omitted (Unit {0}) r.account_number)

  account_name_read : to_text (find "accountName" (recipient_fields r)) ≡ ok r.account_name
  unfolding recipient_fields
  account_name_read = simp find_rules (to_text-omitted (Unit {0}) r.account_name)

  wallet_provider_read : to_text (find "walletProvider" (recipient_fields r)) ≡ ok r.wallet_provider
  unfolding recipient_fields
  wallet_provider_read = simp find_rules (to_text-omitted (Unit {0}) r.wallet_provider)

  mobile_number_read : to_text (find "mobileNumber" (recipient_fields r)) ≡ ok r.mobile_number
  unfolding recipient_fields
  mobile_number_read = simp find_rules (to_text-omitted (Unit {0}) r.mobile_number)

  first_name_read : to_text (find "firstName" (recipient_fields r)) ≡ ok r.first_name
  unfolding recipient_fields
  first_name_read = simp find_rules (to_text-omitted (Unit {0}) r.first_name)

  last_name_read : to_text (find "lastName" (recipient_fields r)) ≡ ok r.last_name
  unfolding recipient_fields
  last_name_read = simp find_rules (to_text-omitted (Unit {0}) r.last_name)

  country_read : to_text (find "country" (recipient_fields r)) ≡ ok r.country
  unfolding recipient_fields
  country_read = simp find_rules (to_text-omitted (Unit {0}) r.country)

  recipient_roundtrip : unmarshal_recipient (object (recipient_fields r)) ≡ ok r
  unfolding unmarshal_recipient
  recipient_roundtrip = rw (
    type_read, bank_name_read, bank_code_read, account_number_read, account_name_read,
    wallet_provider_read, mobile_number_read, first_name_read, last_name_read, country_read,
  )

module _ (p : Payout) where
  id_field : to_text (find "id" (payout_fields p)) ≡ ok p.id
  unfolding payout_fields
  id_field = simp find_rules

  transfer_id_field : to_text (find "transferId" (payout_fields p)) ≡ ok p.transfer_id
  unfolding payout_fields
  transfer_id_field = simp find_rules

  status_field : to_text (find "status" (payout_fields p)) ≡ ok p.status
  unfolding payout_fields
  status_field = simp find_rules

  method_field : to_text (find "method" (payout_fields p)) ≡ ok p.method
  unfolding payout_fields
  method_field = simp find_rules

  amount_field : to_text (find "amount" (payout_fields p)) ≡ ok p.amount
  unfolding payout_fields
  amount_field = simp find_rules

  currency_field : to_text (find "currency" (payout_fields p)) ≡ ok p.currency
  unfolding payout_fields
  currency_field = simp find_rules

  recipient_field : find "recipient" (payout_fields p) ≡ object (recipient_fields p.recipient)
  unfolding payout_fields
  recipient_field = simp find_rules

  provider_reference_field :
      to_text (find "providerReference" (payout_fields p)) ≡ ok p.provider_reference
  unfolding payout_fields
  provider_reference_field = simp find_rules (to_text-omitted (Unit {0}) p.provider_reference)

  batch_id_field : to_text (find "batchId" (payout_fields p)) ≡ ok p.batch_id
  unfolding payout_fields
  batch_id_field = simp find_rules (to_text-omitted (Unit {0}) p.batch_id)

  pickup_code_field : to_text (find "pickupCode" (payout_fields p)) ≡ ok p.pickup_code
  unfolding payout_fields
  pickup_code_field = simp find_rules (to_text-omitted (Unit {0}) p.pickup_code)

  pickup_expires_at_field :
      to_time_pointer (find "pickupExpiresAt" (payout_fields p)) ≡ ok p.pickup_expires_at
  unfolding payout_fields
  pickup_expires_at_field = simp find_rules (to_time_pointer-omitted (Unit {0}) p.pickup_expires_at)

  failure_reason_field : to_text (find "failureReason" (payout_fields p)) ≡ ok p.failure_reason
  unfolding payout_fields
  failure_reason_field = simp find_rules (to_text-omitted (Unit {0}) p.failure_reason)

  retry_count_field : to_int (find "retryCount" (payout_fields p)) ≡ ok p.retry_count
  unfolding payout_fields
  retry_count_field = simp find_rules

  created_at_field : to_time (find "createdAt" (payout_fields p)) ≡ ok p.created_at
  unfolding payout_fields
  created_at_field = simp find_rules

  updated_at_field : to_time (find "updatedAt" (payout_fields p)) ≡ ok p.updated_at
  unfolding payout_fields
  updated_at_field = simp find_rules

  completed_at_field : to_time_pointer (find "completedAt" (payout_fields p)) ≡ ok p.completed_at
  unfolding payout_fields
  completed_at_field = simp find_rules (to_time_pointer-omitted (Unit {0}) p.completed_at)

  -- Reading the JSON that is written for a payout gives the payout back, whichever of its optional
  -- fields are empty.
  pub unmarshal-marshal_payout : unmarshal_payout (marshal_payout p) ≡ ok p
  unfolding unmarshal_payout
  unmarshal-marshal_payout = rw (
    id_field,
    transfer_id_field,
    status_field,
    method_field,
    amount_field,
    currency_field,
    recipient_field,
    provider_reference_field,
    batch_id_field,
    pickup_code_field,
    pickup_expires_at_field,
    failure_reason_field,
    retry_count_field,
    created_at_field,
    updated_at_field,
    completed_at_field,
    recipient_roundtrip p.recipient,
  )
