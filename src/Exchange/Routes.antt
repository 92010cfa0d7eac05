-- ===== src/Exchange/Routes.antt =====
-- The routes of internal/handler/http_handler.go. Which route a request takes is decided by gin, whose
-- router is a parameter with the behaviour that it documents.
pub mod Choices
pub mod Served
pub mod FirstFit
use movra.Prelude.{
  String, ◌≡◌, Bool, true, false, ◌&&◌, not, Option, none, some, List, [], ◌∷◌, append, map, IsIn,
  if◌then◌else◌, ◌==◌,
}
use movra.Prelude.Action.{Result}
use movra.Platform.Float.{Floats}
use movra.Exchange.Model.{RateLockRequest}
use movra.Exchange.Service.{RateService}
use movra.Exchange.Http
use movra.Exchange.Http.{Response}

-- A part of a path: a text, or a parameter with a name.
pub data Segment : Type 0 where
  static : String → Segment
  param : String → Segment

-- The methods of `HTTPHandler` that requests are routed to.
pub data Handler : Type 0 where
  health : Handler
  ready : Handler
  get_rate : Handler
  lock_rate : Handler
  get_locked_rate : Handler
  get_corridors : Handler
  get_quote : Handler

pub record Route : Type 0 where
  pub method : String
  pub pattern : List Segment
  pub handler : Handler

abbrev get : List Segment → Handler → Route
get pattern handler = record { method = "GET"; pattern = pattern; handler = handler }

abbrev post : List Segment → Handler → Route
post pattern handler = record { method = "POST"; pattern = pattern; handler = handler }

-- `r.Group(...)`: the routes below a prefix.
abbrev group : List Segment → List Route → List Route
group prefix = map {A = Route} (λ r. record r { pattern = append prefix r.pattern })

abbrev pub setup_routes : List Route
setup_routes = append (get (static "health" ∷ []) health ∷ get (static "ready" ∷ []) ready ∷ []) (
    group (static "api" ∷ []) (
      append
        (group (static "rates" ∷ []) (
          get (param "from" ∷ param "to" ∷ []) get_rate
          ∷ post (static "lock" ∷ []) lock_rate
          ∷ get (static "locked" ∷ param "lockId" ∷ []) get_locked_rate
          ∷ []))
        (get (static "corridors" ∷ []) get_corridors ∷ get (static "quote" ∷ []) get_quote ∷ [])))

-- What the parameters of a path are bound to.
abbrev pub Bindings : Type 0
Bindings = List (String × String)

-- `c.Param(name)`
abbrev pub bound : String → Bindings → String
bound name [] = ""
bound name ((n, v) ∷ bs) = if n == name then v else bound name bs

abbrev bind : String → String → Option Bindings → Option Bindings
bind n v none = none
bind n v (some bs) = some ((n, v) ∷ bs)

-- The bindings with which a pattern fits the segments of a path; a parameter stands for one segment
-- that is not empty.
abbrev pub fit : List Segment → List String → Option Bindings
fit [] [] = some []
fit [] (x ∷ xs) = none
fit (s ∷ ss) [] = none
fit (static t ∷ ss) (x ∷ xs) = let rest = fit ss xs in if x == t then rest else none
fit (param n ∷ ss) (x ∷ xs) = let rest = bind n x (fit ss xs) in if x == "" then none else rest

-- At the first segment where two patterns differ in kind, the first one has a text.
abbrev pub more_specific : List Segment → List Segment → Bool
more_specific [] ys = false
more_specific (x ∷ xs) [] = false
more_specific (static t ∷ xs) (param n ∷ ys) = true
more_specific (param n ∷ xs) (static t ∷ ys) = false
more_specific (static t ∷ xs) (static u ∷ ys) = more_specific xs ys
more_specific (param n ∷ xs) (param m ∷ ys) = more_specific xs ys

-- gin, when routes are registered: the route and the bindings for a method and a path.
abbrev pub Router : Type 0
Router = String → List String → Option (Route × Bindings)

-- A request takes a route that fits it, if there is one, and none that has a parameter where another
-- that fits has a text.
pub record RouterLaws (router : Router) (routes : List Route) : Type 0 where
  pub takes :
      (m : String) (path : List String) (r : Route) (bs : Bindings)
      → router m path ≡ some (r, bs)
      → IsIn r routes × ((r.method ≡ m) × (fit r.pattern path ≡ some bs))
  pub misses :
      (m : String) (path : List String) (r : Route)
      → router m path ≡ none
      → IsIn r routes
      → r.method ≡ m
      → fit r.pattern path ≡ none
  pub static_first :
      (m : String) (path : List String) (r r' : Route) (bs bs' : Bindings)
      → router m path ≡ some (r, bs)
      → IsIn r' routes
      → r'.method ≡ m
      → fit r'.pattern path ≡ some bs'
      → more_specific r'.pattern r.pattern ≡ false

-- A request, with what gin reads of its query and its body.
pub record HttpRequest : Type 0 where
  pub method : String
  pub path : List String
  pub query : String → String
  pub body : Result RateLockRequest

module _ {F W : Type 0} (fl : Floats F) (s : RateService F W) where
  unfoldable pub handle : Handler → Bindings → HttpRequest → W → Response F × W
  handle health bs req w = (Http.health, w)
  handle ready bs req w = Http.ready fl s w
  handle get_rate bs req w = Http.get_rate fl s (bound "from" bs) (bound "to" bs) w
  handle lock_rate bs req w = Http.lock_rate fl s req.body w
  handle get_locked_rate bs req w = Http.get_locked_rate fl s (bound "lockId" bs) w
  handle get_corridors bs req w = (Http.get_corridors_of fl s (req.query "source"), w)
  handle get_quote bs req w =
      Http.get_quote fl s (req.query "from") (req.query "to") (req.query "amount") w

  -- Nothing of the program answers a request without a route.
  abbrev pub dispatch : Option (Route × Bindings) → HttpRequest → W → Option (Response F) × W
  dispatch none req w = (none, w)
  dispatch (some (r, bs)) req w = let (reply, w') = handle r.handler bs req w in (some reply, w')

  unfoldable pub serve : Router → HttpRequest → W → Option (Response F) × W
  unfolding handle
  serve router req w = dispatch (router req.method req.path) req w
