-- ===== src/Settlement/Kafka/Reading.antt =====
-- Reading the events of internal/kafka/consumer.go from objects that name fields more than once.
use movra.Prelude.{String, ◌≡◌, refl, ap, ◌∙◌, Option, none, some}
use movra.Prelude.Action.{ok}
use movra.Platform.Json.{str, object, end, field}
use movra.Settlement.Json.{PayoutFields}
use movra.Settlement.Kafka.Events.{
  TransferFundedEvent, Folding, Reading, read_fields, zero_event, outcome, unmarshal_event,
}

abbrev pub append_fields : PayoutFields → PayoutFields → PayoutFields
append_fields end gs = gs
append_fields (field k v fs) gs = field k v (append_fields fs gs)

-- The fields of an event, by their tags.
abbrev pub event_fields : TransferFundedEvent → PayoutFields
event_fields e =
    let r = e.recipient in
    field "transferId" (str e.transfer_id) (
      field "amount" (str e.amount) (
        field "currency" (str e.currency) (
          field "payoutMethod" (str e.payout_method) (
            field "recipient"
              (object (
                field "type" (str r.type) (
                  field "bankName" (str r.bank_name) (
                    field "bankCode" (str r.bank_code) (
                      field "accountNumber" (str r.account_number) (
                        field "accountName" (str r.account_name) (
                          field "walletProvider" (str r.wallet_provider) (
                            field "mobileNumber" (str r.mobile_number) (
                              field "firstName" (str r.first_name) (
                                field "lastName" (str r.last_name)
                                  (field "country" (str r.country) end)))))))))))
              end))))

module _ (same : Folding) where
  read_fields-append :
      (fs gs : PayoutFields) (d : Reading TransferFundedEvent)
      → read_fields same (append_fields fs gs) d ≡ read_fields same gs (read_fields same fs d)
  read_fields-append end gs d = refl
  read_fields-append (field k v fs) gs d = read_fields-append fs gs _

  read_fields-event_fields :
      (e : TransferFundedEvent) (d : Reading TransferFundedEvent)
      → read_fields same (event_fields e) d ≡ record { value = e; error = d.error }
  read_fields-event_fields e d = refl

  no_error : (o : Option String) (e e' : TransferFundedEvent) → outcome same o e ≡ ok e' → o ≡ none
  no_error none e e' h = refl
  no_error (some x) e e' h = cc

  -- Whatever names `encoding/json` takes for the same in another case: an object whose first
  -- fields read as some event, in any spelling and number, and whose last fields give each field
  -- of an event `e` under its tag, reads as `e`.
  pub unmarshal_event-event_fields :
      (before : PayoutFields) (e₀ e : TransferFundedEvent)
      → unmarshal_event same (object before) ≡ ok e₀
      → unmarshal_event same (object (append_fields before (event_fields e))) ≡ ok e
  unfolding unmarshal_event
  unmarshal_event-event_fields before e₀ e h =
      let d = read_fields same before (record { value = zero_event; error = none }) in
      ap (λ x. outcome same x.error x.value)
        (read_fields-append before (event_fields e) _ ∙ read_fields-event_fields e d)
      ∙ ap (λ o. outcome same o e) (no_error d.error d.value e₀ h)
