-- ===== src/Exchange/Http.antt =====
-- internal/handler/http_handler.go: the HTTP handlers of the exchange-rate service. A handler takes
-- what gin has read of the request, and answers a status and a body, before gin writes the body as
-- JSON.
pub mod Locks
use Prim.Native.String.{len}
use movra.Prelude.{
  ℕ, String, Bool, true, false, not, ◌||◌, Option, none, some, List, if◌then◌else◌, ◌==◌, eqb,
}
use movra.Prelude.Action.{Result, Fallible, ok, err}
use movra.Platform.Float.{Floats, zero_float}
use movra.Exchange.Model.{ExchangeRate, LockedRate, RateQuote, Corridor, RateLockRequest}
use movra.Exchange.Corridors.{get_corridors}
use movra.Exchange.Interfaces.{Error, error_text}
use movra.Exchange.Service.{RateService}
use movra.Exchange.Service

-- A status body also names the service, which is always the same.
pub data Body (F : Type 0) : Type 0 where
  status_body : (status : String) (error : Option String) → Body F
  error_body : String → Body F
  -- the error with the field `expired`
  expired_body : String → Body F
  rate_body : ExchangeRate F → Body F
  lock_body : LockedRate F → Body F
  corridors_body : List Corridor → Body F
  quote_body : RateQuote F → Body F

pub record Response (F : Type 0) : Type 0 where
  pub code : ℕ
  pub body : Body F

module _ {F : Type 0} where
  abbrev pub answer : ℕ → Body F → Response F
  answer code body = record { code = code; body = body }

  -- The answer to a request that the service has refused, or not.
  abbrev pub reply_with : {A : Type 0} → ℕ → (A → Body F) → Fallible Error A → Response F
  reply_with refused body (ok a) = answer 200 (body a)
  reply_with refused body (err e) = answer refused (error_body (error_text e))

  abbrev pub locked_reply : Fallible Error (LockedRate F) → Response F
  locked_reply (ok l) =
      if l.expired then answer 410 (expired_body "Rate lock expired") else answer 200 (lock_body l)
  locked_reply (err e) = answer 500 (error_body (error_text e))

  abbrev pub ready_reply : Fallible Error (Unit {0}) → Response F
  ready_reply (ok u) = answer 200 (status_body "ready" none)
  ready_reply (err e) = answer 503 (status_body "not ready" (some (error_text e)))

  unfoldable pub health : Response F
  health = answer 200 (status_body "healthy" none)

-- `len(code) != 3`, in bytes.
abbrev bad_code : String → Bool
bad_code code = not (eqb (len code) 3)

module _ {F W : Type 0} (fl : Floats F) (s : RateService F W) where
  -- A call of the service, whose result becomes a response.
  abbrev pub respond :
      {A : Type 0} → (Fallible Error A → Response F) → Fallible Error A × W → Response F × W
  respond f (r, w) = (f r, w)

  unfoldable pub ready : W → Response F × W
  ready w = respond ready_reply (Service.health fl s w)

  unfoldable pub get_rate : String → String → W → Response F × W
  get_rate from to w =
      if bad_code from || bad_code to
      then (answer 400 (error_body "Invalid currency code format"), w)
      else respond (reply_with 404 rate_body) (Service.get_rate fl s from to w)

  -- The argument is what `ShouldBindJSON` makes of the body.
  unfoldable pub lock_rate : Result RateLockRequest → W → Response F × W
  lock_rate (err e) w = (answer 400 (error_body "Invalid request body"), w)
  lock_rate (ok req) w =
      respond (reply_with 500 lock_body)
        (Service.lock_rate fl s req.source_currency req.target_currency req.duration_seconds w)

  unfoldable pub get_locked_rate : String → W → Response F × W
  get_locked_rate lock_id w = respond locked_reply (Service.get_locked_rate fl s lock_id w)

  unfoldable pub get_corridors_of : String → Response F
  get_corridors_of source = answer 200 (corridors_body (get_corridors source))

  abbrev bad_amount : F × Option String → Bool
  bad_amount (amount, none) = fl.at_most amount (zero_float fl)
  bad_amount (amount, some e) = true

  unfoldable pub get_quote : String → String → String → W → Response F × W
  get_quote from to amount w =
      if (from == "") || (to == "") || (amount == "")
      then (answer 400 (error_body "from, to, and amount query parameters are required"), w)
      else if bad_code from || bad_code to
      then (answer 400 (error_body "Invalid currency code format"), w)
      else if bad_amount (fl.parse_float amount)
      then (answer 400 (error_body "Invalid amount"), w)
      else respond (reply_with 400 quote_body)
          (Service.get_quote fl s from to (fl.parse_float amount).0 w)
