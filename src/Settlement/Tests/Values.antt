-- ===== src/Settlement/Tests/Values.antt =====
-- Instances of the theorems on payouts, on the store, on the provider and on messages.
use movra.Prelude.{◌≡◌, refl, ◌⊎◌, inl, inr, ◌≢◌, some, none, ◌*◌, if◌then◌else◌, ◌==◌}
use movra.Prelude.Int.{pos}
use movra.Prelude.Action.{ok, err}
use movra.Redis.Memory.{memory, ticking, peek, memory-Laws, ticking-RandomLaws}
use movra.Settlement.Model.{
  Payout, Recipient, zero_recipient, pending, processing, completed, failed, bank_account,
  unspecified, cancelled, ready_for_pickup, picked_up,
}
use movra.Settlement.Interfaces.{Laws}
use movra.Settlement.Json.{marshal_payout, unmarshal_payout}
use movra.Settlement.Json.Roundtrip.{unmarshal-marshal_payout}
use movra.Settlement.Repository.{Bytes}
use movra.Settlement.Repository.Stored.{stored, IsPayoutId}
use movra.Settlement.Simulated.{SimulatedProvider, process_payout}
use movra.Settlement.Simulated.Answers.{Answer, process_payout-Answer}
use movra.Platform.Time.{second}
use movra.Settlement.Config.{Environment, load}
use movra.Settlement.Wiring.{configured_provider}
use movra.Settlement.Wiring.Defaults.{configured_provider-load}
use movra.Settlement.Wiring.{new_service, service-Laws}
use movra.Settlement.Grpc
use movra.Settlement.Grpc.Messages
use movra.Settlement.Grpc.Convert.{
  model_status_to_proto, proto_status_to_model, model_recipient_to_proto, proto_recipient_to_model,
}
use movra.Settlement.Grpc.Conversions.{
  Returns, status_roundtrip, model_status_roundtrip, recipient_roundtrip,
}
use movra.Settlement.Grpc.Handlers.{Answers, initiate_payout-panics}
use movra.Settlement.Tests.{
  deployment, empty_world, refused_payout, stuck_payout, settings, memory-Apart,
}

abbrev finished : Payout
finished = record refused_payout { status = completed; completed_at = some 8 }

unmarshal-marshal_payout_example : unmarshal_payout (marshal_payout finished) ≡ ok finished
unmarshal-marshal_payout_example = unmarshal-marshal_payout finished

abbrev provider : SimulatedProvider
provider = record { failure_rate = pos 10; processing_time = pos 2 }

process_payout-Answer_example :
    Answer
      (ticking {V = Bytes} none)
      provider
      stuck_payout
      none
      (process_payout (ticking {V = Bytes} none) provider stuck_payout empty_world).0
process_payout-Answer_example =
    process_payout-Answer (ticking {V = Bytes} none) provider stuck_payout empty_world
      (ticking-RandomLaws none)

service-Laws_example :
    let s = new_service memory (ticking none) 3 settings in
    Laws s.repo s.provider s.runtime IsPayoutId (stored memory (ticking none) peek memory-Laws)
service-Laws_example =
    service-Laws memory (ticking none) peek memory-Laws (memory-Apart none) 3 settings

status_roundtrip_example : Returns (pos 8) (model_status_to_proto (proto_status_to_model (pos 8)))
status_roundtrip_example = status_roundtrip (pos 8)

abbrev ana : Recipient
ana = record zero_recipient { type = bank_account; first_name = "Ana" }

recipient_roundtrip_example : proto_recipient_to_model (some (model_recipient_to_proto ana)) ≡ ana
recipient_roundtrip_example = recipient_roundtrip ana (inr (inl refl))

model_status_roundtrip_example :
    (proto_status_to_model (model_status_to_proto "REVERSED") ≡ "REVERSED")
    ⊎ ((proto_status_to_model (model_status_to_proto "REVERSED") ≡ unspecified)
        × ("REVERSED" ≢ pending)
        × ("REVERSED" ≢ processing)
        × ("REVERSED" ≢ completed)
        × ("REVERSED" ≢ failed)
        × ("REVERSED" ≢ cancelled)
        × ("REVERSED" ≢ ready_for_pickup)
        × ("REVERSED" ≢ picked_up))
model_status_roundtrip_example = model_status_roundtrip "REVERSED"

abbrev no_amount : Messages.InitiatePayoutRequest
no_amount = record { transfer_id = "t1"; method = pos 1; amount = none; recipient = none }

initiate_payout-panics_example :
    ((no_amount.transfer_id ≢ "")
      × (no_amount.amount ≡ none)
      × (Grpc.initiate_payout deployment.service no_amount empty_world
          ≡ (Messages.panic, empty_world)))
    ⊎ (((no_amount.transfer_id ≡ "") ⊎ (no_amount.amount ≢ none))
        × Answers (Grpc.initiate_payout deployment.service no_amount empty_world))
initiate_payout-panics_example = initiate_payout-panics deployment.service no_amount empty_world

abbrev bare : Environment
bare = record {
  getenv = λ key. if key == "PROVIDER_FAILURE_RATE" then "many" else "";
  atoi = λ s. err "invalid syntax";
  parse_duration = λ s. err "invalid duration";
}

configured_provider-load_example :
    configured_provider (load bare)
    ≡ record { failure_rate = pos 10; processing_time = pos (2 * second) }
configured_provider-load_example =
    configured_provider-load bare (inr (inr ("invalid syntax", refl), inl refl))
