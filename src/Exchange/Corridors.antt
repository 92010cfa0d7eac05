-- ===== src/Exchange/Corridors.antt =====
-- The corridors of internal/service/rate_service.go: listing and lookup.
use mathlib.Core.Path.{subst}
use movra.Prelude.{
  IsIn, sym, ap, ◌∙◌, ne_of_test, String, ◌≡◌, refl, ◌≢◌, ◌⊎◌, inl, inr, ◌↔◌, true, false,
  Bool-cases, Option, none, some, List, [], ◌∷◌, arith, ◌==◌, ◌&&◌, eq_iff, if◌then◌else◌,
}
use movra.Exchange.Model.{Corridor, corridors}

abbrev from_source : String → List Corridor → List Corridor
from_source currency [] = []
from_source currency (c ∷ cs) =
    let rest = from_source currency cs in if c.source_currency == currency then c ∷ rest else rest

unfoldable pub get_corridors : String → List Corridor
unfolding corridors
get_corridors source_currency =
    if source_currency == "" then corridors else from_source source_currency corridors

abbrev pub first_between : String → String → List Corridor → Option Corridor
first_between from to [] = none
first_between from to (c ∷ cs) =
    let rest = first_between from to cs in
    if c.source_currency == from && c.target_currency == to then some c else rest

unfoldable pub get_corridor : String → String → Option Corridor
unfolding corridors
get_corridor from to = first_between from to corridors

abbrev pub Between : String → String → Corridor → Type 0
Between from to c = (c.source_currency ≡ from) × (c.target_currency ≡ to)

abbrev source_of : Corridor → String
source_of c = c.source_currency

-- What a lookup among `cs` gives: a corridor between the two, or none if there is none.
pub data Lookup (from to : String) (cs : List Corridor) : Option Corridor → Type 0 where
  found : (c : Corridor) → IsIn c cs → Between from to c → Lookup from to cs (some c)
  absent : ((c : Corridor) → IsIn c cs → ¬ (Between from to c)) → Lookup from to cs none

first_between-Lookup :
    (from to : String) (cs : List Corridor) → Lookup from to cs (first_between from to cs)
first_between-Lookup from to [] = absent (λ c i b. i)
first_between-Lookup from to (d ∷ cs) =
    elim (Bool-cases (d.source_currency == from && d.target_currency == to)) [
      | inl t ↦ rw t (found d (inl refl) (between t))
      | inr n ↦ rw n (later n (first_between from to cs) (first_between-Lookup from to cs))
    ]
  where
    between : (d.source_currency == from && d.target_currency == to) ≡ true → Between from to d
    between t = ground (arith, eq_iff d.source_currency from, eq_iff d.target_currency to)

    not_between :
        (d.source_currency == from && d.target_currency == to) ≡ false → ¬ (Between from to d)
    not_between n b = ground (arith, eq_iff d.source_currency from, eq_iff d.target_currency to)

    later :
        (d.source_currency == from && d.target_currency == to) ≡ false
        → (o : Option Corridor) → Lookup from to cs o
        → Lookup from to (d ∷ cs) o
    later n _ (found c i b) = found c (inr i) b
    later n _ (absent none_of) = absent (λ c i b. elim i [
      | inl e ↦ not_between n (subst (Between from to) e b)
      | inr j ↦ none_of c j b
    ])

-- `getCorridor` gives a corridor of the list between the two currencies, or nil if the list has
-- none.
pub get_corridor-Lookup : (from to : String) → Lookup from to corridors (get_corridor from to)
unfolding get_corridor
get_corridor-Lookup from to = first_between-Lookup from to corridors

from_source-IsIn :
    (currency : String) (c : Corridor) (cs : List Corridor)
    → IsIn c (from_source currency cs) ↔ (IsIn c cs × (c.source_currency ≡ currency))
from_source-IsIn currency c [] = (λ i. absurd i, λ i. i.0)
from_source-IsIn currency c (d ∷ cs) =
    let h = from_source-IsIn currency c cs in
    elim (Bool-cases (d.source_currency == currency)) [
      | inl t ↦ rw t (
        λ i. elim i [
          | inl e ↦ (inl e, ap source_of e ∙ (eq_iff d.source_currency currency).0 t)
          | inr j ↦ (inr (h.0 j).0, (h.0 j).1)
        ],
        λ p. elim p.0 [ inl e ↦ inl e | inr j ↦ inr (h.1 (j, p.1)) ],
      )
      | inr n ↦ rw n (
        λ i. (inr (h.0 i).0, (h.0 i).1),
        λ p. elim p.0 [
          | inl e ↦ absurd (ne_of_test d.source_currency currency n (ap source_of (sym e) ∙ p.1))
          | inr j ↦ h.1 (j, p.1)
        ],
      )
    ]

-- `GetCorridors` returns the corridors of the list that start from the currency asked for, and all
-- of them if none is asked for.
pub get_corridors-IsIn :
    (source_currency : String) (c : Corridor)
    → IsIn c (get_corridors source_currency)
      ↔ (IsIn c corridors × ((source_currency ≡ "") ⊎ (c.source_currency ≡ source_currency)))
unfolding get_corridors
get_corridors-IsIn s c = elim (Bool-cases (s == "")) [
  | inl t ↦ rw t (λ i. (i, inl ((eq_iff s "").0 t)), λ p. p.0)
  | inr n ↦
      let h = from_source-IsIn s c corridors in
      rw n (
        λ i. ((h.0 i).0, inr (h.0 i).1),
        λ p. h.1 (p.0, elim p.1 [ inl e ↦ absurd (ne_of_test s "" n e) | inr e ↦ e ]),
      )
]

corridors-priced :
    (c : Corridor)
    → IsIn c corridors
    → (c.enabled ≡ true) × (c.fee_minimum.currency ≡ c.source_currency)
unfolding corridors
corridors-priced c (inl e) = rw e (refl, refl)
corridors-priced c (inr (inl e)) = rw e (refl, refl)
corridors-priced c (inr (inr (inl e))) = rw e (refl, refl)
corridors-priced c (inr (inr (inr (inl e)))) = rw e (refl, refl)
corridors-priced c (inr (inr (inr (inr (inl e))))) = rw e (refl, refl)
corridors-priced c (inr (inr (inr (inr (inr i))))) = absurd i

-- A corridor that a lookup finds is enabled, and its least fee is in the source currency that was
-- asked for.
pub get_corridor-priced :
    (from to : String) (c : Corridor)
    → get_corridor from to ≡ some c
    → (c.enabled ≡ true) × (c.fee_minimum.currency ≡ from)
get_corridor-priced from to c h = priced (get_corridor from to) (get_corridor-Lookup from to) h
  where
    same : (d : Corridor) → some d ≡ some c → d ≡ c
    same d e = cc

    none_ne : none ≢ some c
    none_ne e = cc

    priced :
        (o : Option Corridor)
        → Lookup from to corridors o
        → o ≡ some c
        → (c.enabled ≡ true) × (c.fee_minimum.currency ≡ from)
    priced _ (found d i b) e =
        subst (λ x. (x.enabled ≡ true) × (x.fee_minimum.currency ≡ from)) (same d e)
          (let p = corridors-priced d i in (p.0, p.1 ∙ b.0))
    priced _ (absent none_of) e = absurd (none_ne e)
