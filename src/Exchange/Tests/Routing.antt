-- ===== src/Exchange/Tests/Routing.antt =====
-- A request through a router.
use movra.Prelude.{◌≡◌, refl, inl, inr, List, [], ◌∷◌, IsIn}
use movra.Prelude.Action.{Result, err}
use movra.Exchange.Http
use movra.Exchange.Routes.{Route, RouterLaws, HttpRequest, Handler, serve, setup_routes}
use movra.Exchange.Routes.FirstFit.{first_fit, first_fit-RouterLaws}
use movra.Exchange.Routes.Choices.{rate_route, lock_route, locked_route, text_route}
use movra.Exchange.Routes.Served.{request, replied, rate, serve-Addressed}
use movra.Exchange.Model.{RateLockRequest}
use movra.Exchange.Tests.Fixed.{fixed_point}
use movra.Exchange.Tests.Setup.{memory_service}

-- The routes, with texts before parameters.
abbrev ordered : List Route
ordered =
    locked_route
    ∷ lock_route
    ∷ text_route ("health" ∷ []) Handler.health
    ∷ text_route ("ready" ∷ []) Handler.ready
    ∷ text_route ("api" ∷ "corridors" ∷ []) Handler.get_corridors
    ∷ text_route ("api" ∷ "quote" ∷ []) Handler.get_quote
    ∷ rate_route
    ∷ []

to_setup : (r : Route) → IsIn r ordered → IsIn r setup_routes
to_setup r i = elim i [
  | inl s ↦ inr (inr (inr (inr (inl s))))
  | inr (inl s) ↦ inr (inr (inr (inl s)))
  | inr (inr (inl s)) ↦ inl s
  | inr (inr (inr (inl s))) ↦ inr (inl s)
  | inr (inr (inr (inr (inl s)))) ↦ inr (inr (inr (inr (inr (inl s)))))
  | inr (inr (inr (inr (inr (inl s))))) ↦ inr (inr (inr (inr (inr (inr (inl s))))))
  | inr (inr (inr (inr (inr (inr (inl s)))))) ↦ inr (inr (inl s))
  | inr (inr (inr (inr (inr (inr (inr b)))))) ↦ absurd b
]

to_ordered : (r : Route) → IsIn r setup_routes → IsIn r ordered
to_ordered r i = elim i [
  | inl s ↦ inr (inr (inl s))
  | inr (inl s) ↦ inr (inr (inr (inl s)))
  | inr (inr (inl s)) ↦ inr (inr (inr (inr (inr (inr (inl s))))))
  | inr (inr (inr (inl s))) ↦ inr (inl s)
  | inr (inr (inr (inr (inl s)))) ↦ inl s
  | inr (inr (inr (inr (inr (inl s))))) ↦ inr (inr (inr (inr (inl s))))
  | inr (inr (inr (inr (inr (inr (inl s)))))) ↦ inr (inr (inr (inr (inr (inl s)))))
  | inr (inr (inr (inr (inr (inr (inr b)))))) ↦ absurd b
]

ordered-RouterLaws : RouterLaws (first_fit ordered) setup_routes
ordered-RouterLaws = first_fit-RouterLaws ordered setup_routes refl to_setup to_ordered

abbrev unread : Result RateLockRequest
unread = err "EOF"

abbrev sgd_php : HttpRequest
sgd_php = request "GET" ("api" ∷ "rates" ∷ "SGD" ∷ "PHP" ∷ []) (λ key. "") unread

serve-Addressed_example :
    serve fixed_point memory_service
      (first_fit ordered)
      sgd_php
      (record { entries = []; clock = 7; faults = [] })
    ≡ replied (
        Http.get_rate fixed_point memory_service "SGD" "PHP"
          (record { entries = []; clock = 7; faults = [] }))
serve-Addressed_example =
    serve-Addressed fixed_point memory_service (first_fit ordered) ordered-RouterLaws sgd_php
      (Http.get_rate fixed_point memory_service "SGD" "PHP")
      (rate "SGD" "PHP" (λ key. "") unread refl refl)
      (record { entries = []; clock = 7; faults = [] })
