-- ===== src/Settlement/Kafka/Events.antt =====
-- The events of internal/kafka/consumer.go, and how `encoding/json` reads them. Another program writes
-- the events, so a field is known by its name in any case, a later field overwrites an earlier one,
-- and a field with a value of another type is left as it is, while the rest is read.
use movra.Prelude.{String, Bool, Option, none, some, List, [], ◌∷◌, if◌then◌else◌, ◌==◌}
use movra.Prelude.Action.{Result, ok, err}
use movra.Platform.Json.{null, str, object, end, field, mismatch}
use movra.Settlement.Json.{PayoutJson, PayoutFields}

pub record RecipientEvent : Type 0 where
  pub type : String
  pub bank_name : String
  pub bank_code : String
  pub account_number : String
  pub account_name : String
  pub wallet_provider : String
  pub mobile_number : String
  pub first_name : String
  pub last_name : String
  pub country : String

pub record TransferFundedEvent : Type 0 where
  pub transfer_id : String
  pub amount : String
  pub currency : String
  pub payout_method : String
  pub recipient : RecipientEvent

abbrev zero_recipient : RecipientEvent
zero_recipient = record {
  type = "";
  bank_name = "";
  bank_code = "";
  account_number = "";
  account_name = "";
  wallet_provider = "";
  mobile_number = "";
  first_name = "";
  last_name = "";
  country = "";
}

abbrev pub zero_event : TransferFundedEvent
zero_event = record {
  transfer_id = "";
  amount = "";
  currency = "";
  payout_method = "";
  recipient = zero_recipient;
}

-- The names that `encoding/json` takes for the same, but for their case.
abbrev pub Folding : Type 0
Folding = String → String → Bool

-- What has been read, and the first error.
pub record Reading (A : Type 0) : Type 0 where
  pub value : A
  pub error : Option String

abbrev first_error : Option String → Option String
first_error none = some "json: cannot unmarshal"
first_error (some e) = some e

abbrev refused : {A : Type 0} → Reading A → Reading A
refused d = record d { error = first_error d.error }

-- A text for a field; `null` leaves the field as it is.
abbrev read_text : {A : Type 0} → (String → A → A) → PayoutJson → Reading A → Reading A
read_text set null d = d
read_text set (str s) d = record d { value = set s d.value }
read_text set _ d = refused d

abbrev exact : String → List String → Option String
exact key [] = none
exact key (n ∷ ns) = if n == key then some n else exact key ns

abbrev folded : Folding → String → List String → Option String
folded same key [] = none
folded same key (n ∷ ns) = if same n key then some n else folded same key ns

abbrev or_folded : Option String → Option String → Option String
or_folded none o = o
or_folded (some n) o = some n

-- The field that a key stands for: the one of that name, or else the first that differs in case.
abbrev field_name : Folding → String → List String → Option String
field_name same key names = or_folded (exact key names) (folded same key names)

abbrev recipient_names : List String
recipient_names =
    "type" ∷ "bankName" ∷ "bankCode" ∷ "accountNumber" ∷ "accountName" ∷ "walletProvider"
    ∷ "mobileNumber" ∷ "firstName" ∷ "lastName" ∷ "country" ∷ []

abbrev read_recipient_field :
    Option String → PayoutJson → Reading RecipientEvent → Reading RecipientEvent
read_recipient_field none v d = d
read_recipient_field (some n) v d =
    if n == "type"
    then read_text (λ s r. record r { type = s }) v d
    else if n == "bankName"
    then read_text (λ s r. record r { bank_name = s }) v d
    else if n == "bankCode"
    then read_text (λ s r. record r { bank_code = s }) v d
    else if n == "accountNumber"
    then read_text (λ s r. record r { account_number = s }) v d
    else if n == "accountName"
    then read_text (λ s r. record r { account_name = s }) v d
    else if n == "walletProvider"
    then read_text (λ s r. record r { wallet_provider = s }) v d
    else if n == "mobileNumber"
    then read_text (λ s r. record r { mobile_number = s }) v d
    else if n == "firstName"
    then read_text (λ s r. record r { first_name = s }) v d
    else if n == "lastName"
    then read_text (λ s r. record r { last_name = s }) v d
    else read_text (λ s r. record r { country = s }) v d

abbrev event_names : List String
event_names = "transferId" ∷ "amount" ∷ "currency" ∷ "payoutMethod" ∷ "recipient" ∷ []

module _ (same : Folding) where
  abbrev read_recipient_fields : PayoutFields → Reading RecipientEvent → Reading RecipientEvent
  read_recipient_fields end d = d
  read_recipient_fields (field k v rest) d =
      read_recipient_fields rest (read_recipient_field (field_name same k recipient_names) v d)

  -- An object is read into the recipient that is there.
  abbrev read_recipient : PayoutJson → Reading TransferFundedEvent → Reading TransferFundedEvent
  read_recipient null d = d
  read_recipient (object o) d =
      let r = read_recipient_fields o (record { value = d.value.recipient; error = d.error }) in
      record { value = record (d.value) { recipient = r.value }; error = r.error }
  read_recipient _ d = refused d

  abbrev read_field :
      Option String → PayoutJson → Reading TransferFundedEvent → Reading TransferFundedEvent
  read_field none v d = d
  read_field (some n) v d =
      if n == "transferId"
      then read_text (λ s e. record e { transfer_id = s }) v d
      else if n == "amount"
      then read_text (λ s e. record e { amount = s }) v d
      else if n == "currency"
      then read_text (λ s e. record e { currency = s }) v d
      else if n == "payoutMethod"
      then read_text (λ s e. record e { payout_method = s }) v d
      else read_recipient v d

  abbrev pub read_fields : PayoutFields → Reading TransferFundedEvent → Reading TransferFundedEvent
  read_fields end d = d
  read_fields (field k v rest) d = read_fields rest (read_field (field_name same k event_names) v d)

  abbrev pub outcome : Option String → TransferFundedEvent → Result TransferFundedEvent
  outcome none e = ok e
  outcome (some x) e = err x

  -- `json.Unmarshal(msg.Value, &event)`, after the text has been parsed.
  unfoldable pub unmarshal_event : PayoutJson → Result TransferFundedEvent
  unmarshal_event null = ok zero_event
  unmarshal_event (object o) =
      let d = read_fields o (record { value = zero_event; error = none }) in outcome d.error d.value
  unmarshal_event _ = mismatch
