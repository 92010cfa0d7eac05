-- ===== src/Settlement/Service/Confined.antt =====
-- internal/service/payout_service.go: what it is for a run of the service to be confined to one
-- payout, and the calls of the store, the provider and the clock.
use mathlib.Core.Path.{subst}
use movra.Prelude.{String, ◌≡◌, sym, ◌∙◌, ◌⊎◌, inl, inr, ◌≢◌, Option, some}
use movra.Prelude.Int.{ℤ}
use movra.Prelude.Action.{total, Keeps, Keeps-of, Keeps-total}
use movra.Settlement.Model.{Payout}
use movra.Settlement.Interfaces.{Laws}
use movra.Settlement.Service.{PayoutService}
use movra.Settlement.Service.Lifecycle.{Evolves, Evolves-SameOrder}

-- From `w₀` to `w`, for a payout with an id that payouts may have: no other payout has changed, and the own one is as it was or has evolved
-- from `p₀`.
pub record Confined {W : Type 0} (m : ℤ) (IsPayoutId : String → Type 0)
    (stored : W → String → Option Payout) (w₀ : W) (p₀ : Payout) (w : W) : Type 0 where
  pub plain : IsPayoutId p₀.id
  pub others : (j : String) → IsPayoutId j → j ≢ p₀.id → stored w j ≡ stored w₀ j
  pub own :
      (stored w p₀.id ≡ stored w₀ p₀.id)
      ⊎ ((q : Payout) × (stored w p₀.id ≡ some q) × Evolves m p₀ q)

-- A service whose store, provider and runtime keep the laws of the interfaces.
pub record Deployment (W : Type 0) : Type 1 where
  pub service : PayoutService W
  pub IsPayoutId : String → Type 0
  pub stored : W → String → Option Payout
  pub laws : Laws service.repo service.provider service.runtime IsPayoutId stored

module _ {W : Type 0} (d : Deployment W) (w₀ : W) (p₀ : Payout) where
  open d use {service, IsPayoutId, stored, laws}
  open d.service use {repo, provider, runtime, max_retries}

  abbrev pub Inv : W → Type 0
  Inv = Confined max_retries IsPayoutId stored w₀ p₀

  pub Inv-same : (w w' : W) → ((j : String) → stored w' j ≡ stored w j) → Inv w → Inv w'
  Inv-same w w' same h = record {
    plain = h.plain;
    others = λ j i n. same j ∙ h.others j i n;
    own = elim h.own [ inl e ↦ inl (same p₀.id ∙ e) | inr t ↦ inr (t.0, same p₀.id ∙ t.1, t.2) ];
  }

  pub save-Inv :
      (p : Payout) (w : W) → Evolves max_retries p₀ p → Inv w → Inv (repo.save_payout p w).1
  save-Inv p w e h =
      let same_id : p.id ≡ p₀.id = (Evolves-SameOrder e).id in
      record {
        plain = h.plain;
        others = λ j i n. laws.save_others p w j i (λ x. n (x ∙ same_id)) ∙ h.others j i n;
        own = elim (written same_id) [
          | inl now_p ↦ inr (p, now_p, e)
          | inr as_before ↦ elim h.own [
            | inl o ↦ inl (as_before ∙ o)
            | inr t ↦ inr (t.0, as_before ∙ t.1, t.2)
          ]
        ];
      }
    where
      written :
          p.id ≡ p₀.id
          → (stored (repo.save_payout p w).1 p₀.id ≡ some p)
            ⊎ (stored (repo.save_payout p w).1 p₀.id ≡ stored w p₀.id)
      written x =
          let w' = (repo.save_payout p w).1 in
          subst (λ k. (stored w' k ≡ some p) ⊎ (stored w' k ≡ stored w k)) x
            (laws.save_written p w (subst IsPayoutId (sym x) h.plain))

  -- The clock, the store and the provider keep to it.
  pub now-Keeps : Keeps {E = String} Inv (total runtime.now)
  now-Keeps = Keeps-total runtime.now λ w h. Inv-same w (runtime.now w).1 (laws.now_keeps w) h

  pub save-Keeps : (p : Payout) → Evolves max_retries p₀ p → Keeps Inv (repo.save_payout p)
  save-Keeps p e = Keeps-of (repo.save_payout p) λ w h. save-Inv p w e h

  pub get-Keeps : (id : String) → Keeps Inv (repo.get_payout id)
  get-Keeps id = Keeps-of (repo.get_payout id) λ w h. Inv-same w _ (laws.get_keeps id w) h

  pub provider-Keeps : (p : Payout) → Keeps Inv (provider.process_payout p)
  provider-Keeps p =
      Keeps-of (provider.process_payout p) λ w h. Inv-same w _ (laws.process_keeps p w) h

  pub cancel-Keeps : (r : String) → Keeps Inv (provider.cancel_payout r)
  cancel-Keeps r = Keeps-of (provider.cancel_payout r) λ w h. Inv-same w _ (laws.cancel_keeps r w) h
