-- ===== src/Settlement/Kafka/Delivery.antt =====
-- What a sequence of messages does, for the consumer of internal/kafka/consumer.go.
use Prim.Native.String.{◌++◌}
use movra.Prelude.{String, ◌≡◌, refl, ap, ◌∙◌, ◌⊎◌, true, false, List, [], ◌∷◌, arith, eq_iff}
use movra.Prelude.Action.{Result, ok, err, wrapping, pure, fail, bind_result, map_error, ◌>>=◌}
use movra.Settlement.Model.{PayoutMethod, bank_account, mobile_wallet, cash_pickup}
use movra.Settlement.Service.{PayoutService, initiate_payout}
use movra.Settlement.Service.Requests.{Request, initiate, handle, serve}
use movra.Settlement.Kafka.Events.{TransferFundedEvent, Folding}
use movra.Settlement.Kafka.{
  Round, done, read_failed, message, decoded_event, event_request, parse_payout_method,
  event_recipient_to_model, handle_message, handle_event, start,
}

abbrev request_of : Result TransferFundedEvent → List Request → List Request
request_of (ok event) rest = initiate (event_request event) ∷ rest
request_of (err e) rest = rest

-- The requests that the rounds deliver until the consumer stops: one for each message that is an
-- event, in their order.
abbrev pub delivered : Folding → List Round → List Request
delivered same [] = []
delivered same (done ∷ rounds) = []
delivered same (read_failed true e ∷ rounds) = []
delivered same (read_failed false e ∷ rounds) = delivered same rounds
delivered same (message m ∷ rounds) = request_of (decoded_event same m) (delivered same rounds)

-- The three methods of the service.
abbrev pub IsKnown : PayoutMethod → Type 0
IsKnown m = (m ≡ bank_account) ⊎ ((m ≡ mobile_wallet) ⊎ (m ≡ cash_pickup))

-- A request to start a payout, with known methods.
abbrev pub IsProper : Request → Type 0
IsProper (initiate req) = IsKnown req.method × IsKnown req.recipient.type
IsProper (Request.retry id) = ⊥
IsProper (Request.cancel id reason) = ⊥

abbrev pub AllProper : List Request → Type 0
AllProper [] = Unit
AllProper (r ∷ rs) = IsProper r × AllProper rs

parse-IsKnown : (s : String) → IsKnown (parse_payout_method s)
unfolding parse_payout_method
parse-IsKnown s =
    ground (arith, eq_iff s "BANK_ACCOUNT", eq_iff s "MOBILE_WALLET", eq_iff s "CASH_PICKUP")

-- Every request that the consumer makes names one of the three methods, for the payout and for its
-- recipient, whatever the events say.
pub delivered-AllProper : (same : Folding) (rounds : List Round) → AllProper (delivered same rounds)
delivered-AllProper same [] = tt
delivered-AllProper same (done ∷ rounds) = tt
delivered-AllProper same (read_failed true e ∷ rounds) = tt
delivered-AllProper same (read_failed false e ∷ rounds) = delivered-AllProper same rounds
delivered-AllProper same (message m ∷ rounds) =
    proper (decoded_event same m) (delivered-AllProper same rounds)
  where
    proper :
        (r : Result TransferFundedEvent)
        → AllProper (delivered same rounds)
        → AllProper (request_of r (delivered same rounds))
    proper (err e) h = h
    proper (ok event) h = (
      unfold event_request event_recipient_to_model in
          (parse-IsKnown event.payout_method, parse-IsKnown event.recipient.type),
      h,
    )

dropped-world :
    {W A : Type 0} (f : String → String) (r : Result A) (w : W)
    → (bind_result (map_error f r) w (λ _. pure tt)).1 ≡ w
unfolding pure
dropped-world f (ok a) w = refl
dropped-world f (err e) w = refl

module _ {W : Type 0} (s : PayoutService W) (same : Folding) (close : Result (Unit {0})) where
  -- The consumer leaves the world that the service leaves when it serves the payouts of the
  -- delivered events, one after the other and no other, up to the round in which the consumer
  -- ends; a message that is no event, a payout that fails or a failed read does not keep it from
  -- the messages behind.
  pub start-serve :
      (rounds : List Round) (w : W)
      → (start s same close rounds w).1 ≡ serve s (delivered same rounds) w
  unfolding start serve handle_message handle ◌>>=◌ wrapping fail
  start-serve [] w = refl
  start-serve (done ∷ rounds) w = refl
  start-serve (read_failed true e ∷ rounds) w = refl
  start-serve (read_failed false e ∷ rounds) w = start-serve rounds w
  start-serve (message m ∷ rounds) w =
      start-serve rounds (handle_message s same close m w).1 ∙ served (decoded_event same m)
    where
      served :
          (r : Result TransferFundedEvent)
          → serve s (delivered same rounds) (handle_event s same close r w).1
            ≡ serve s (request_of r (delivered same rounds)) w
      served (err e) = refl
      served (ok event) =
          let (r, w') = initiate_payout s (event_request event) w in
          ap (serve s (delivered same rounds)) (dropped-world (λ e. "initiate payout: " ++ e) r w')
