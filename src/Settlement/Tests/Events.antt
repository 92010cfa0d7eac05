-- ===== src/Settlement/Tests/Events.antt =====
-- Events of funded transfers, as another program may write them.
use movra.Prelude.{◌≡◌, refl, ◌==◌, ◌&&◌, ◌||◌, false, List, [], ◌∷◌}
use movra.Prelude.Action.{ok, err}
use movra.Platform.Json.{str, object, field, end}
use movra.Settlement.Json.{PayoutFields}
use movra.Settlement.Kafka.{Round, done, read_failed, message, start}
use movra.Settlement.Kafka.Events.{Folding, TransferFundedEvent, unmarshal_event}
use movra.Settlement.Kafka.Reading.{append_fields, event_fields, unmarshal_event-event_fields}
use movra.Settlement.Kafka.Delivery.{delivered, AllProper, start-serve, delivered-AllProper}
use movra.Settlement.Service.Requests.{serve}
use movra.Settlement.Tests.{deployment, empty_world}

-- One name in capitals, besides the names themselves.
abbrev capitals : Folding
capitals name key = (name == key) || ((name == "transferId") && (key == "TRANSFERID"))

abbrev short_fields : PayoutFields
short_fields = field "TRANSFERID" (str "t9") (field "payoutMethod" (str "CHEQUE") end)

abbrev rounds : List Round
rounds =
    message (err "unexpected end of JSON input")
    ∷ read_failed false "timeout"
    ∷ message (ok (object short_fields))
    ∷ done
    ∷ message (ok (object short_fields))
    ∷ []

start-serve_example :
    (start deployment.service capitals (ok tt) rounds empty_world).1
    ≡ serve deployment.service (delivered capitals rounds) empty_world
start-serve_example = start-serve deployment.service capitals (ok tt) rounds empty_world

delivered-AllProper_example : AllProper (delivered capitals rounds)
delivered-AllProper_example = delivered-AllProper capitals rounds

abbrev funded : TransferFundedEvent
funded = record {
  transfer_id = "t1";
  amount = "25.00";
  currency = "PHP";
  payout_method = "CASH_PICKUP";
  recipient = record {
    type = "CASH_PICKUP";
    bank_name = "";
    bank_code = "";
    account_number = "";
    account_name = "";
    wallet_provider = "";
    mobile_number = "";
    first_name = "Ana";
    last_name = "Cruz";
    country = "PH";
  };
}

abbrev short_event : TransferFundedEvent
short_event = record {
  transfer_id = "t9";
  amount = "";
  currency = "";
  payout_method = "CHEQUE";
  recipient = record {
    type = "";
    bank_name = "";
    bank_code = "";
    account_number = "";
    account_name = "";
    wallet_provider = "";
    mobile_number = "";
    first_name = "";
    last_name = "";
    country = "";
  };
}

short_read : unmarshal_event capitals (object short_fields) ≡ ok short_event
unfolding unmarshal_event
short_read = refl

unmarshal_event-event_fields_example :
    unmarshal_event capitals (object (append_fields short_fields (event_fields funded))) ≡ ok funded
unmarshal_event-event_fields_example =
    unmarshal_event-event_fields capitals short_fields short_event funded short_read
