-- ===== src/Exchange/Routes/Choices.antt =====
-- The route that a request takes, among those of internal/handler/http_handler.go.
use Prim.Native.String.{len}
use mathlib.Core.Path.{subst}
use mathlib.Core.Bool.{true≢false}
use movra.Prelude.{
  map, String, ◌≡◌, ◌≢◌, refl, sym, ap, ◌∙◌, ◌⊎◌, inl, inr, Option, none, some, List, [], ◌∷◌, IsIn,
  ◌==◌, false, ne_of_test, test_of_ne, arith,
}
use movra.Exchange.Routes.{
  Segment, static, param, Handler, Route, setup_routes, Bindings, fit, Router, RouterLaws,
  more_specific,
}

none_ne : {A : Type 0} {a : A} → none ≡ some a → ⊥
none_ne e = cc

same_some : {A : Type 0} (a b : A) → some a ≡ some b → a ≡ b
same_some a b e = cc

-- The three routes of rates, as they are registered.
abbrev pub rate_route : Route
rate_route = record {
  method = "GET";
  pattern = static "api" ∷ static "rates" ∷ param "from" ∷ param "to" ∷ [];
  handler = Handler.get_rate;
}

abbrev pub lock_route : Route
lock_route = record {
  method = "POST";
  pattern = static "api" ∷ static "rates" ∷ static "lock" ∷ [];
  handler = Handler.lock_rate;
}

abbrev pub locked_route : Route
locked_route = record {
  method = "GET";
  pattern = static "api" ∷ static "rates" ∷ static "locked" ∷ param "lockId" ∷ [];
  handler = Handler.get_locked_rate;
}

-- A route that is registered, for a method and a path of four segments below /api/rates: those of
-- other methods or lengths do not fit.
four_segments :
    (a b : String) (r : Route) (bs : Bindings)
    → IsIn r setup_routes
    → r.method ≡ "GET"
    → fit r.pattern ("api" ∷ "rates" ∷ a ∷ b ∷ []) ≡ some bs
    → (r ≡ rate_route) ⊎ (r ≡ locked_route)
four_segments a b r bs i m e = elim i [
  | inl s ↦ absurd (none_ne (subst Fits s e))
  | inr (inl s) ↦ absurd (none_ne (subst Fits s e))
  | inr (inr (inl s)) ↦ inl s
  | inr (inr (inr (inl s))) ↦
      absurd (ne_of_test "POST" "GET" refl (subst (λ x. x.method ≡ "GET") s m))
  | inr (inr (inr (inr (inl s)))) ↦ inr s
  | inr (inr (inr (inr (inr (inl s))))) ↦ absurd (none_ne (subst Fits s e))
  | inr (inr (inr (inr (inr (inr (inl s)))))) ↦ absurd (none_ne (subst Fits s e))
  | inr (inr (inr (inr (inr (inr (inr b)))))) ↦ absurd b
]
  where
    Fits : Route → Type 0
    Fits x = fit x.pattern ("api" ∷ "rates" ∷ a ∷ b ∷ []) ≡ some bs

-- The same for a POST.
posted : (r : Route) → IsIn r setup_routes → r.method ≡ "POST" → r ≡ lock_route
posted r i m = elim i [
  | inl s ↦ absurd (get_ne s)
  | inr (inl s) ↦ absurd (get_ne s)
  | inr (inr (inl s)) ↦ absurd (get_ne s)
  | inr (inr (inr (inl s))) ↦ s
  | inr (inr (inr (inr (inl s)))) ↦ absurd (get_ne s)
  | inr (inr (inr (inr (inr (inl s))))) ↦ absurd (get_ne s)
  | inr (inr (inr (inr (inr (inr (inl s)))))) ↦ absurd (get_ne s)
  | inr (inr (inr (inr (inr (inr (inr b)))))) ↦ absurd b
]
  where
    get_ne :
        {pattern : List Segment} {h : Handler}
        → r ≡ record { method = "GET"; pattern = pattern; handler = h }
        → ⊥
    get_ne s = ne_of_test "GET" "POST" refl (sym (ap (λ (x : Route). x.method) s) ∙ m)

fit-rate :
    (from to : String)
    → (from == "") ≡ false
    → (to == "") ≡ false
    → fit rate_route.pattern ("api" ∷ "rates" ∷ from ∷ to ∷ [])
      ≡ some (("from", from) ∷ ("to", to) ∷ [])
fit-rate from to e f = rw (e, f) refl

fit-locked :
    (id : String)
    → (id == "") ≡ false
    → fit locked_route.pattern ("api" ∷ "rates" ∷ "locked" ∷ id ∷ []) ≡ some (("lockId", id) ∷ [])
fit-locked id e = rw e refl

no_lock :
    (from to : String)
    → (from == "locked") ≡ false
    → fit locked_route.pattern ("api" ∷ "rates" ∷ from ∷ to ∷ []) ≡ none
no_lock from to e = rw e refl

-- The routes whose paths are texts only.
abbrev pub text_route : List String → Handler → Route
text_route path h = record { method = "GET"; pattern = map static path; handler = h }

health_only :
    (r : Route) (bs : Bindings)
    → IsIn r setup_routes
    → fit r.pattern ("health" ∷ []) ≡ some bs
    → r ≡ text_route ("health" ∷ []) Handler.health
health_only r bs i e = elim i [
  | inl s ↦ s
  | inr (inl s) ↦ absurd (none_ne (subst Fits s e))
  | inr (inr (inl s)) ↦ absurd (none_ne (subst Fits s e))
  | inr (inr (inr (inl s))) ↦ absurd (none_ne (subst Fits s e))
  | inr (inr (inr (inr (inl s)))) ↦ absurd (none_ne (subst Fits s e))
  | inr (inr (inr (inr (inr (inl s))))) ↦ absurd (none_ne (subst Fits s e))
  | inr (inr (inr (inr (inr (inr (inl s)))))) ↦ absurd (none_ne (subst Fits s e))
  | inr (inr (inr (inr (inr (inr (inr b)))))) ↦ absurd b
]
  where
    Fits : Route → Type 0
    Fits x = fit x.pattern ("health" ∷ []) ≡ some bs

ready_only :
    (r : Route) (bs : Bindings)
    → IsIn r setup_routes
    → fit r.pattern ("ready" ∷ []) ≡ some bs
    → r ≡ text_route ("ready" ∷ []) Handler.ready
ready_only r bs i e = elim i [
  | inl s ↦ absurd (none_ne (subst Fits s e))
  | inr (inl s) ↦ s
  | inr (inr (inl s)) ↦ absurd (none_ne (subst Fits s e))
  | inr (inr (inr (inl s))) ↦ absurd (none_ne (subst Fits s e))
  | inr (inr (inr (inr (inl s)))) ↦ absurd (none_ne (subst Fits s e))
  | inr (inr (inr (inr (inr (inl s))))) ↦ absurd (none_ne (subst Fits s e))
  | inr (inr (inr (inr (inr (inr (inl s)))))) ↦ absurd (none_ne (subst Fits s e))
  | inr (inr (inr (inr (inr (inr (inr b)))))) ↦ absurd b
]
  where
    Fits : Route → Type 0
    Fits x = fit x.pattern ("ready" ∷ []) ≡ some bs

corridors_only :
    (r : Route) (bs : Bindings)
    → IsIn r setup_routes
    → fit r.pattern ("api" ∷ "corridors" ∷ []) ≡ some bs
    → r ≡ text_route ("api" ∷ "corridors" ∷ []) Handler.get_corridors
corridors_only r bs i e = elim i [
  | inl s ↦ absurd (none_ne (subst Fits s e))
  | inr (inl s) ↦ absurd (none_ne (subst Fits s e))
  | inr (inr (inl s)) ↦ absurd (none_ne (subst Fits s e))
  | inr (inr (inr (inl s))) ↦ absurd (none_ne (subst Fits s e))
  | inr (inr (inr (inr (inl s)))) ↦ absurd (none_ne (subst Fits s e))
  | inr (inr (inr (inr (inr (inl s))))) ↦ s
  | inr (inr (inr (inr (inr (inr (inl s)))))) ↦ absurd (none_ne (subst Fits s e))
  | inr (inr (inr (inr (inr (inr (inr b)))))) ↦ absurd b
]
  where
    Fits : Route → Type 0
    Fits x = fit x.pattern ("api" ∷ "corridors" ∷ []) ≡ some bs

quote_only :
    (r : Route) (bs : Bindings)
    → IsIn r setup_routes
    → fit r.pattern ("api" ∷ "quote" ∷ []) ≡ some bs
    → r ≡ text_route ("api" ∷ "quote" ∷ []) Handler.get_quote
quote_only r bs i e = elim i [
  | inl s ↦ absurd (none_ne (subst Fits s e))
  | inr (inl s) ↦ absurd (none_ne (subst Fits s e))
  | inr (inr (inl s)) ↦ absurd (none_ne (subst Fits s e))
  | inr (inr (inr (inl s))) ↦ absurd (none_ne (subst Fits s e))
  | inr (inr (inr (inr (inl s)))) ↦ absurd (none_ne (subst Fits s e))
  | inr (inr (inr (inr (inr (inl s))))) ↦ absurd (none_ne (subst Fits s e))
  | inr (inr (inr (inr (inr (inr (inl s)))))) ↦ s
  | inr (inr (inr (inr (inr (inr (inr b)))))) ↦ absurd b
]
  where
    Fits : Route → Type 0
    Fits x = fit x.pattern ("api" ∷ "quote" ∷ []) ≡ some bs

-- A text of three bytes is another than one of another length.
other_length : (a b : String) → len a ≡ 3 → len b ≢ 3 → (a == b) ≡ false
other_length a b e n = test_of_ne a b (λ s. n (sym (ap len s) ∙ e))

module _ (router : Router) (laws : RouterLaws router setup_routes) where
  -- What is found for a path that one route fits.
  found_route :
      (m : String) (path : List String) (r : Route) (bs : Bindings)
      → IsIn r setup_routes
      → r.method ≡ m
      → fit r.pattern path ≡ some bs
      → ((r' : Route) (bs' : Bindings)
          → router m path ≡ some (r', bs')
          → IsIn r' setup_routes
          → r'.method ≡ m
          → fit r'.pattern path ≡ some bs'
          → r' ≡ r)
      → router m path ≡ some (r, bs)
  found_route m path r bs i k e only = by_found (router m path) refl
    where
      by_found : (o : Option (Route × Bindings)) → router m path ≡ o → router m path ≡ some (r, bs)
      by_found none h = absurd (none_ne (sym (laws.misses m path r h i k) ∙ e))
      by_found (some (r', bs')) h =
          let (j, (k', e')) = laws.takes m path r' bs' h in
          let same = only r' bs' h j k' e' in
          let own : bs' ≡ bs =
            same_some bs' bs (sym e' ∙ ap (λ (x : Route). fit x.pattern path) same ∙ e) in
          h ∙ ap (λ x. some (x, bs')) same ∙ ap (λ x. some (r, x)) own

  pub router-rate :
      (from to : String)
      → len from ≡ 3
      → len to ≡ 3
      → router "GET" ("api" ∷ "rates" ∷ from ∷ to ∷ [])
        ≡ some (rate_route, ("from", from) ∷ ("to", to) ∷ [])
  router-rate from to a b =
      found_route "GET" ("api" ∷ "rates" ∷ from ∷ to ∷ []) rate_route _ (inr (inr (inl refl))) refl
        (fit-rate from to (other_length from "" a (λ e. omega (arith, e)))
          (other_length to "" b (λ e. omega (arith, e))))
        (λ r bs h i m e. elim (four_segments from to r bs i m e) [
          | inl s ↦ s
          | inr s ↦ absurd (
              none_ne (
                sym (no_lock from to (other_length from "locked" a (λ e. omega (arith, e))))
                ∙ subst (λ (x : Route). fit x.pattern ("api" ∷ "rates" ∷ from ∷ to ∷ []) ≡ some bs)
                    s e))
        ])

  pub router-locked :
      (id : String)
      → id ≢ ""
      → router "GET" ("api" ∷ "rates" ∷ "locked" ∷ id ∷ [])
        ≡ some (locked_route, ("lockId", id) ∷ [])
  router-locked id n =
      let path = "api" ∷ "rates" ∷ "locked" ∷ id ∷ [] in
      let fits = fit-locked id (test_of_ne id "" n) in
      found_route "GET" path locked_route _ (inr (inr (inr (inr (inl refl))))) refl fits
        (λ r bs h i m e. elim (four_segments "locked" id r bs i m e) [
          | inl s ↦ absurd (
              true≢false (
                subst (λ (x : Route). more_specific locked_route.pattern x.pattern ≡ false) s
                  (laws.static_first "GET" path r locked_route bs _ h
                    (inr (inr (inr (inr (inl refl))))) refl fits)))
          | inr s ↦ s
        ])

  pub router-lock : router "POST" ("api" ∷ "rates" ∷ "lock" ∷ []) ≡ some (lock_route, [])
  router-lock =
      found_route "POST" ("api" ∷ "rates" ∷ "lock" ∷ []) lock_route [] (inr (inr (inr (inl refl))))
        refl refl (λ r bs h i m e. posted r i m)

  pub router-health :
      router "GET" ("health" ∷ []) ≡ some (text_route ("health" ∷ []) Handler.health, [])
  router-health =
      found_route "GET" ("health" ∷ []) (text_route ("health" ∷ []) Handler.health) [] (inl refl)
        refl refl (λ r bs g i m e. health_only r bs i e)

  pub router-ready :
      router "GET" ("ready" ∷ []) ≡ some (text_route ("ready" ∷ []) Handler.ready, [])
  router-ready =
      found_route "GET" ("ready" ∷ []) (text_route ("ready" ∷ []) Handler.ready) [] (inr (inl refl))
        refl refl (λ r bs g i m e. ready_only r bs i e)

  pub router-corridors :
      router "GET" ("api" ∷ "corridors" ∷ [])
      ≡ some (text_route ("api" ∷ "corridors" ∷ []) Handler.get_corridors, [])
  router-corridors =
      found_route "GET" ("api" ∷ "corridors" ∷ [])
        (text_route ("api" ∷ "corridors" ∷ []) Handler.get_corridors) []
        (inr (inr (inr (inr (inr (inl refl)))))) refl refl (λ r bs g i m e. corridors_only r bs i e)

  pub router-quote :
      router "GET" ("api" ∷ "quote" ∷ [])
      ≡ some (text_route ("api" ∷ "quote" ∷ []) Handler.get_quote, [])
  router-quote =
      found_route "GET" ("api" ∷ "quote" ∷ []) (text_route ("api" ∷ "quote" ∷ []) Handler.get_quote)
        [] (inr (inr (inr (inr (inr (inr (inl refl))))))) refl refl
        (λ r bs g i m e. quote_only r bs i e)
