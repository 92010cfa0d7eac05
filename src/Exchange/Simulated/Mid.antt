-- ===== src/Exchange/Simulated/Mid.antt =====
-- `getMidRate` of internal/provider/simulated.go: its depth, and the pairs that it prices.
use mathlib.Core.Path.{subst, ap₂}
use movra.Prelude.{
  IsIn, ℕ, suc, String, ◌≡◌, ◌≢◌, refl, ◌∙◌, inl, inr, false, Bool-cases, Option, none, some, arith,
  not, ◌&&◌, ◌==◌, if◌then◌else◌,
}
use movra.Prelude.Action.{Fallible, ok, err}
use movra.Platform.Float.{Floats, one}
use movra.Exchange.Interfaces.{Error, unsupported_pair}
use movra.Exchange.Model.{Corridor, corridors}
use movra.Exchange.Corridors.{get_corridor, Lookup, found, absent, get_corridor-Lookup}
use movra.Exchange.Simulated.{
  DriftState, entry, pair_key, base_rates, direct_rate, by_entry, get_mid_rate, both,
}

module _ {F : Type 0} (fl : Floats F) (d : DriftState F) where
  abbrev listed : String → String → Option F → Option F → Option F
  listed source target (some base) inverse = some (direct_rate fl d (pair_key source target) base)
  listed source target none (some base) =
      some (fl.over (one fl) (direct_rate fl d (pair_key target source) base))
  listed source target none none = none

  -- The rate of a pair whose own key, or whose inverse one, has a base rate.
  abbrev pub listed_rate : String → String → Option F
  listed_rate source target =
      listed source target (entry (pair_key source target) (base_rates fl))
        (entry (pair_key target source) (base_rates fl))

  abbrev pub or_unsupported : String → String → Option F → Fallible Error F
  or_unsupported source target none = err (unsupported_pair source target)
  or_unsupported source target (some x) = ok x

  -- By way of the dollar, if both legs are listed.
  abbrev pub crossed : Option F → Option F → Option F
  crossed (some a) (some b) = some (fl.times a b)
  crossed _ _ = none

  abbrev first_of : Option F → Option F → Option F
  first_of (some x) o = some x
  first_of none o = o

  -- The reference: the listed rate, or the product over the dollar for a pair without it.
  abbrev pub mid_reference : String → String → Option F
  mid_reference source target = first_of (listed_rate source target) (
      if not (source == "USD") && not (target == "USD")
      then crossed (listed_rate source "USD") (listed_rate "USD" target)
      else none)

  abbrev or_else : Option F → Fallible Error F → Fallible Error F
  or_else (some x) rest = ok x
  or_else none rest = rest

  by_entry-listed :
      (source target : String) (o o' : Option F) (rest : Fallible Error F)
      → by_entry fl d source target o o' rest ≡ or_else (listed source target o o') rest
  by_entry-listed source target (some base) o' rest = refl
  by_entry-listed source target none (some base) rest = refl
  by_entry-listed source target none none rest = refl

  -- What is left for a pair without a base rate.
  abbrev rest_of : ℕ → String → String → Fallible Error F
  rest_of fuel source target =
      if not (source == "USD") && not (target == "USD")
      then both fl (unsupported_pair source target) (get_mid_rate fl fuel d source "USD")
          (get_mid_rate fl fuel d "USD" target)
      else err (unsupported_pair source target)

  call_lem :
      (fuel : ℕ) (source target : String)
      → get_mid_rate fl (suc fuel) d source target
        ≡ or_else (listed_rate source target) (rest_of fuel source target)
  unfolding get_mid_rate
  call_lem fuel source target =
      by_entry-listed source target (entry (pair_key source target) (base_rates fl))
        (entry (pair_key target source) (base_rates fl)) (rest_of fuel source target)

  -- A pair with the dollar needs no further call.
  leg_lem :
      (fuel : ℕ) (source target : String)
      → (not (source == "USD") && not (target == "USD")) ≡ false
      → get_mid_rate fl (suc fuel) d source target
        ≡ or_unsupported source target (listed_rate source target)
  leg_lem fuel source target n = call_lem fuel source target ∙ leg (listed_rate source target)
    where
      leg : (o : Option F) → or_else o (rest_of fuel source target) ≡ or_unsupported source target o
      leg (some x) = refl
      leg none = rw n

  both-crossed :
      (e : Error) (source target : String) (a b : Option F)
      → both fl e (or_unsupported source "USD" a) (or_unsupported "USD" target b)
        ≡ or_else (crossed a b) (err e)
  both-crossed e source target (some a) (some b) = refl
  both-crossed e source target (some a) none = refl
  both-crossed e source target none (some b) = refl
  both-crossed e source target none none = refl

  to_dollar : (source : String) → (not (source == "USD") && not ("USD" == "USD")) ≡ false
  to_dollar source = ground arith

  -- With two or more units of fuel, `getMidRate` returns the base rate of the pair with its drift,
  -- or one divided by that of the inverse pair, or, for a pair with neither and without the
  -- dollar, the product of such rates to and from the dollar if both are there; in every other
  -- case, the error that the pair is not supported.
  pub get_mid_rate-reference :
      (fuel : ℕ) (source target : String)
      → get_mid_rate fl (suc (suc fuel)) d source target
        ≡ or_unsupported source target (mid_reference source target)
  get_mid_rate-reference fuel source target =
      call_lem (suc fuel) source target ∙ whole (listed_rate source target)
    where
      same :
          (o : Option F)
          → or_else o (err (unsupported_pair source target)) ≡ or_unsupported source target o
      same (some x) = refl
      same none = refl

      legs :
          both fl
            (unsupported_pair source target)
            (get_mid_rate fl (suc fuel) d source "USD")
            (get_mid_rate fl (suc fuel) d "USD" target)
          ≡ or_unsupported source target
              (crossed (listed_rate source "USD") (listed_rate "USD" target))
      legs =
          ap₂ (both fl (unsupported_pair source target))
            (leg_lem fuel source "USD" (to_dollar source)) (leg_lem fuel "USD" target refl)
          ∙ both-crossed (unsupported_pair source target) source target (listed_rate source "USD")
              (listed_rate "USD" target)
          ∙ same (crossed (listed_rate source "USD") (listed_rate "USD" target))

      whole :
          (o : Option F)
          → or_else o (rest_of (suc fuel) source target)
            ≡ or_unsupported source target (
                first_of o (
                  if not (source == "USD") && not (target == "USD")
                  then crossed (listed_rate source "USD") (listed_rate "USD" target)
                  else none))
      whole (some x) = refl
      whole none = elim (Bool-cases (not (source == "USD") && not (target == "USD"))) [
        | inl y ↦ rw y legs
        | inr n ↦ rw n
      ]

-- Every corridor of the service has a rate of its own at the provider.
pub corridors-listed :
    {F : Type 0} (fl : Floats F) (d : DriftState F) (c : Corridor)
    → IsIn c corridors
    → (x : F) × (listed_rate fl d c.source_currency c.target_currency ≡ some x)
unfolding corridors base_rates
corridors-listed fl d c (inl e) = rw e (_, refl)
corridors-listed fl d c (inr (inl e)) = rw e (_, refl)
corridors-listed fl d c (inr (inr (inl e))) = rw e (_, refl)
corridors-listed fl d c (inr (inr (inr (inl e)))) = rw e (_, refl)
corridors-listed fl d c (inr (inr (inr (inr (inl e))))) = rw e (_, refl)
corridors-listed fl d c (inr (inr (inr (inr (inr i))))) = absurd i

-- For every corridor that `getCorridor` finds, and any drift, `getMidRate` returns a rate with two
-- or more units of fuel.
pub get_corridor-priced_mid :
    {F : Type 0} (fl : Floats F) (d : DriftState F) (fuel : ℕ) (from to : String) (c : Corridor)
    → get_corridor from to ≡ some c
    → (x : F) × (get_mid_rate fl (suc (suc fuel)) d from to ≡ ok x)
get_corridor-priced_mid {F} fl d fuel from to c h =
    looked_up (get_corridor from to) (get_corridor-Lookup from to) h
  where
    Priced : String → String → Type 0
    Priced s t = (x : F) × (get_mid_rate fl (suc (suc fuel)) d s t ≡ ok x)

    priced :
        (s t : String) (o : Option F) → listed_rate fl d s t ≡ o → (x : F) → o ≡ some x → Priced s t
    priced s t o e x e' = (x, call_lem fl d (suc fuel) s t ∙ rw (e ∙ e') refl)

    none_ne : none ≢ some c
    none_ne e = cc

    looked_up : (o : Option Corridor) → Lookup from to corridors o → o ≡ some c → Priced from to
    looked_up _ (absent none_of) e = absurd (none_ne e)
    looked_up _ (found b i p) e =
        let (x, listed) = corridors-listed fl d b i in
        subst (λ s. Priced s to) p.0
          (subst (λ t. Priced b.source_currency t) p.1
            (priced b.source_currency b.target_currency _ refl x listed))
