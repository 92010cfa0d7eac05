-- ===== src/Settlement/Grpc.antt =====
-- internal/grpc/server.go: the gRPC server of the settlement service. The message types stand in
-- `Messages`; a handler returns a response and no error, or panics on a nil pointer.
pub mod Messages
pub mod Convert
pub mod Conversions
pub mod Handlers
pub mod Reported
use movra.Prelude.{String, Option, none, some, List, [], ◌∷◌, if◌then◌else◌, ◌==◌, length, map}
use movra.Prelude.Int.{ℤ, pos, eqb_ℤ, to_int32}
use movra.Prelude.Action.{Result, ok, err}
use movra.Platform.Time.{Time}
use movra.Settlement.Model.{Payout}
use movra.Settlement.Interfaces.{PayoutFilter}
use movra.Settlement.Service.{PayoutService, InitiatePayoutRequest}
use movra.Settlement.Service
use Messages
use Messages.{Reply, reply, panic, Error, Money, PaginationRequest, PaginationResponse, Timestamp}
use Convert.{
  model_payout_to_proto, proto_method_to_model, proto_status_to_model, proto_recipient_to_model,
  time_to_proto_timestamp,
}

abbrev invalid_argument : String → Error
invalid_argument message = record { code = "INVALID_ARGUMENT"; message = message }

-- The response of the handlers that return a payout.
abbrev payout_response : String → Result Payout → Messages.PayoutResponse
payout_response code (ok p) = record { payout = some (model_payout_to_proto p); error = none }
payout_response code (err e) = record {
  payout = none;
  error = some (record { code = code; message = e });
}

abbrev refusal : String → Messages.PayoutResponse
refusal message = record { payout = none; error = some (invalid_argument message) }

-- A call of the service, whose result becomes a response.
abbrev respond : {W A B : Type 0} → (Result A → B) → Result A × W → Reply B × W
respond f (r, w) = (reply (f r), w)

-- The request to the service.
abbrev pub to_request : Messages.InitiatePayoutRequest → Money → InitiatePayoutRequest
to_request req m = record {
  transfer_id = req.transfer_id;
  method = proto_method_to_model req.method;
  amount = m.amount;
  currency = m.currency;
  recipient = proto_recipient_to_model req.recipient;
}

module _ {W : Type 0} (s : PayoutService W) where
  -- `req.Amount.Amount` panics if there is no amount.
  abbrev initiate_with :
      Messages.InitiatePayoutRequest → Option Money → W → Reply Messages.PayoutResponse × W
  initiate_with req none w = (panic, w)
  initiate_with req (some m) w =
      respond (payout_response "INITIATE_FAILED") (Service.initiate_payout s (to_request req m) w)

  unfoldable pub initiate_payout :
      Messages.InitiatePayoutRequest → W → Reply Messages.PayoutResponse × W
  initiate_payout req w =
      if req.transfer_id == ""
      then (reply (refusal "transfer_id is required"), w)
      else initiate_with req req.amount w

  unfoldable pub get_payout : String → W → Reply Messages.PayoutResponse × W
  get_payout payout_id w =
      if payout_id == ""
      then (reply (refusal "payout_id is required"), w)
      else respond (payout_response "NOT_FOUND") (Service.get_payout s payout_id w)

  -- The filter of a request, with the limit that stands for none.
  unfoldable pub list_filter : Messages.ListPayoutsRequest → PayoutFilter
  list_filter req =
      let limit = Messages.get_limit req.pagination in
      record {
        status = proto_status_to_model req.status_filter;
        method = proto_method_to_model req.method_filter;
        batch_id = req.batch_id;
        limit = if eqb_ℤ limit (pos 0) then pos 20 else limit;
        offset = Messages.get_offset req.pagination;
      }

  abbrev list_response : PayoutFilter → Result (List Payout) → Messages.ListPayoutsResponse
  list_response f (ok ps) = record {
    payouts = map model_payout_to_proto ps;
    pagination = some (record {
      total = to_int32 (pos (length ps));
      limit = to_int32 f.limit;
      offset = to_int32 f.offset;
    });
    error = none;
  }
  list_response f (err e) = record {
    payouts = [];
    pagination = none;
    error = some (record { code = "LIST_FAILED"; message = e });
  }

  unfoldable pub list_payouts :
      Messages.ListPayoutsRequest → W → Reply Messages.ListPayoutsResponse × W
  unfolding list_filter
  list_payouts req w =
      let f = list_filter req in respond (list_response f) (Service.list_payouts s f w)

  unfoldable pub retry_payout : String → W → Reply Messages.PayoutResponse × W
  retry_payout payout_id w =
      if payout_id == ""
      then (reply (refusal "payout_id is required"), w)
      else respond (payout_response "RETRY_FAILED") (Service.retry_payout s payout_id w)

  unfoldable pub cancel_payout : String → String → W → Reply Messages.PayoutResponse × W
  cancel_payout payout_id reason w =
      if payout_id == ""
      then (reply (refusal "payout_id is required"), w)
      else respond (payout_response "CANCEL_FAILED") (Service.cancel_payout s payout_id reason w)

  abbrev expires_to_proto : Option Time → Option Timestamp
  expires_to_proto none = none
  expires_to_proto (some t) = some (time_to_proto_timestamp t)

  abbrev pickup_response : Result (String × Option Time) → Messages.GetPickupCodeResponse
  pickup_response (ok (code, expires_at)) = record {
    pickup_code = code;
    expires_at = expires_to_proto expires_at;
    pickup_location_info = "Present this code at any authorized pickup location";
    error = none;
  }
  pickup_response (err e) = record {
    pickup_code = "";
    expires_at = none;
    pickup_location_info = "";
    error = some (record { code = "PICKUP_CODE_UNAVAILABLE"; message = e });
  }

  abbrev no_pickup : Messages.GetPickupCodeResponse
  no_pickup = record {
    pickup_code = "";
    expires_at = none;
    pickup_location_info = "";
    error = some (invalid_argument "payout_id is required");
  }

  unfoldable pub get_pickup_code : String → W → Reply Messages.GetPickupCodeResponse × W
  get_pickup_code payout_id w =
      if payout_id == ""
      then (reply no_pickup, w)
      else respond pickup_response (Service.get_pickup_code s payout_id w)
