-- ===== src/Exchange/Routes/Served.antt =====
-- Which method of internal/handler/http_handler.go answers a request.
use Prim.Native.String.{len}
use movra.Prelude.{String, ◌≡◌, ◌≢◌, ap, Option, some, List, [], ◌∷◌}
use movra.Prelude.Action.{Result}
use movra.Exchange.Model.{RateLockRequest}
use movra.Platform.Float.{Floats}
use movra.Exchange.Service.{RateService}
use movra.Exchange.Http
use movra.Exchange.Http.{Response}
use movra.Exchange.Routes.{setup_routes, Router, RouterLaws, HttpRequest, dispatch, serve, handle}
use movra.Exchange.Routes.Choices.{
  router-rate, router-locked, router-lock, router-health, router-ready, router-corridors,
  router-quote,
}

abbrev pub request : String → List String → (String → String) → Result RateLockRequest → HttpRequest
request m path q b = record { method = m; path = path; query = q; body = b }

-- The requests to the program, with the method that is to answer each.
pub data Addressed {F W : Type 0} (fl : Floats F) (s : RateService F W)
    : HttpRequest → (W → Response F × W) → Type 0 where
  rate :
      (from to : String) (q : String → String) (b : Result RateLockRequest)
      → len from ≡ 3
      → len to ≡ 3
      → Addressed fl s
          (request "GET" ("api" ∷ "rates" ∷ from ∷ to ∷ []) q b)
          (Http.get_rate fl s from to)
  locked :
      (id : String) (q : String → String) (b : Result RateLockRequest)
      → id ≢ ""
      → Addressed fl s
          (request "GET" ("api" ∷ "rates" ∷ "locked" ∷ id ∷ []) q b)
          (Http.get_locked_rate fl s id)
  lock :
      (q : String → String) (b : Result RateLockRequest)
      → Addressed fl s (request "POST" ("api" ∷ "rates" ∷ "lock" ∷ []) q b) (Http.lock_rate fl s b)
  health :
      (q : String → String) (b : Result RateLockRequest)
      → Addressed fl s (request "GET" ("health" ∷ []) q b) (λ w. (Http.health, w))
  ready :
      (q : String → String) (b : Result RateLockRequest)
      → Addressed fl s (request "GET" ("ready" ∷ []) q b) (Http.ready fl s)
  corridors :
      (q : String → String) (b : Result RateLockRequest)
      → Addressed fl s
          (request "GET" ("api" ∷ "corridors" ∷ []) q b)
          (λ w. (Http.get_corridors_of fl s (q "source"), w))
  quote :
      (q : String → String) (b : Result RateLockRequest)
      → Addressed fl s
          (request "GET" ("api" ∷ "quote" ∷ []) q b)
          (Http.get_quote fl s (q "from") (q "to") (q "amount"))

-- A reply of the program.
abbrev pub replied : {F W : Type 0} → Response F × W → Option (Response F) × W
replied (r, w) = (some r, w)

-- For a router that keeps its laws: a GET of /api/rates/<from>/<to> with two codes of three bytes
-- is answered by `GetRate` of these codes, a GET of /api/rates/locked/<id> with an id that is not
-- empty by `GetLockedRate` of the id, although the pattern of the rates fits that path too, and a
-- POST of /api/rates/lock by `LockRate` of its body; a GET of /health, /ready, /api/corridors and
-- /api/quote is answered by the method of that name.
pub serve-Addressed :
    {F W : Type 0} (fl : Floats F) (s : RateService F W) (router : Router)
    → RouterLaws router setup_routes
    → (req : HttpRequest) (f : W → Response F × W) → Addressed fl s req f
    → (w : W) → serve fl s router req w ≡ replied (f w)
unfolding serve handle
serve-Addressed fl s router laws _ _ (rate from to q b e e') w =
    ap (λ o. dispatch fl s o (request "GET" ("api" ∷ "rates" ∷ from ∷ to ∷ []) q b) w)
      (router-rate router laws from to e e')
serve-Addressed fl s router laws _ _ (locked id q b n) w =
    ap (λ o. dispatch fl s o (request "GET" ("api" ∷ "rates" ∷ "locked" ∷ id ∷ []) q b) w)
      (router-locked router laws id n)
serve-Addressed fl s router laws _ _ (lock q b) w =
    ap (λ o. dispatch fl s o (request "POST" ("api" ∷ "rates" ∷ "lock" ∷ []) q b) w)
      (router-lock router laws)
serve-Addressed fl s router laws _ _ (health q b) w =
    ap (λ o. dispatch fl s o (request "GET" ("health" ∷ []) q b) w) (router-health router laws)
serve-Addressed fl s router laws _ _ (ready q b) w =
    ap (λ o. dispatch fl s o (request "GET" ("ready" ∷ []) q b) w) (router-ready router laws)
serve-Addressed fl s router laws _ _ (corridors q b) w =
    ap (λ o. dispatch fl s o (request "GET" ("api" ∷ "corridors" ∷ []) q b) w)
      (router-corridors router laws)
serve-Addressed fl s router laws _ _ (quote q b) w =
    ap (λ o. dispatch fl s o (request "GET" ("api" ∷ "quote" ∷ []) q b) w)
      (router-quote router laws)
