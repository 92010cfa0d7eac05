-- ===== src/Settlement/Kafka.antt =====
-- internal/kafka/consumer.go: the consumer of the events of funded transfers. The reader of the
-- kafka library is a sequence of rounds, what the context and `ReadMessage` say in each; what the
-- consumer logs is left out.
pub mod Events
pub mod Reading
pub mod Delivery
use Prim.Native.String.{◌++◌}
use movra.Prelude.{
  String, Bool, true, false, Option, none, some, List, [], ◌∷◌, if◌then◌else◌, ◌==◌,
}
use movra.Prelude.Action.{Result, ok, err, Action, wrapping, pure, fail, map_error, ◌>>=◌}
use movra.Settlement.Json.{PayoutJson}
use movra.Settlement.Kafka.Events.{RecipientEvent, TransferFundedEvent, Folding, unmarshal_event}
use movra.Settlement.Model.{
  Payout, Recipient, PayoutMethod, bank_account, mobile_wallet, cash_pickup,
}
use movra.Settlement.Service.{PayoutService, InitiatePayoutRequest, initiate_payout}

unfoldable pub parse_payout_method : String → PayoutMethod
parse_payout_method s =
    if s == "BANK_ACCOUNT"
    then bank_account
    else if s == "MOBILE_WALLET"
    then mobile_wallet
    else if s == "CASH_PICKUP"
    then cash_pickup
    else bank_account

unfoldable pub event_recipient_to_model : RecipientEvent → Recipient
unfolding parse_payout_method
event_recipient_to_model r = record {
  type = parse_payout_method r.type;
  bank_name = r.bank_name;
  bank_code = r.bank_code;
  account_number = r.account_number;
  account_name = r.account_name;
  wallet_provider = r.wallet_provider;
  mobile_number = r.mobile_number;
  first_name = r.first_name;
  last_name = r.last_name;
  country = r.country;
}

-- The request to the service for an event.
unfoldable pub event_request : TransferFundedEvent → InitiatePayoutRequest
unfolding parse_payout_method event_recipient_to_model
event_request event = record {
  transfer_id = event.transfer_id;
  method = parse_payout_method event.payout_method;
  amount = event.amount;
  currency = event.currency;
  recipient = event_recipient_to_model event.recipient;
}

-- The value of a message: a tree, or text that is no JSON, with the parser's error.
abbrev pub Message : Type 0
Message = Result PayoutJson

abbrev pub decoded_event : Folding → Message → Result TransferFundedEvent
decoded_event same (ok j) = unmarshal_event same j
decoded_event same (err e) = err e

-- What a round of the loop finds: the context is done; `ReadMessage` fails, with the context ended
-- or not; or a message.
pub data Round : Type 0 where
  done : Round
  read_failed : (context_ended : Bool) → String → Round
  message : Message → Round

module _ {W : Type 0} (s : PayoutService W) (same : Folding) (close : Result (Unit {0})) where
  abbrev handle_event : Result TransferFundedEvent → Action W (Unit {0})
  handle_event (err e) = fail ("unmarshal event: " ++ e)
  handle_event (ok event) = do
    _ ← wrapping (λ e. "initiate payout: " ++ e) (initiate_payout s (event_request event))
    pure tt

  unfoldable pub handle_message : Message → Action W (Unit {0})
  unfolding unmarshal_event event_request
  handle_message m = handle_event (decoded_event same m)

  -- The loop over the rounds: what it returns, or `none` while it is still running. An error of
  -- `handle_message` is logged and dropped.
  unfoldable pub start : List Round → W → Option (Result (Unit {0})) × W
  unfolding handle_message
  start [] w = (none, w)
  start (done ∷ rounds) w = (some close, w)
  start (read_failed true e ∷ rounds) w = (some (ok tt), w)
  start (read_failed false e ∷ rounds) w = start rounds w
  start (message m ∷ rounds) w = start rounds (handle_message m w).1
