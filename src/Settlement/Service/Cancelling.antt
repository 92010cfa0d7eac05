-- ===== src/Settlement/Service/Cancelling.antt =====
-- internal/service/payout_service.go: the result of `CancelPayout`, and the stored payouts.
use mathlib.Core.Path.{subst}
use Prim.Native.String.{◌++◌}
use movra.Prelude.{
  if◌then◌else◌, String, ◌≡◌, refl, sym, ◌∙◌, ◌⊎◌, inl, inr, Bool-cases, some, ◌==◌, not, ◌&&◌,
}
use movra.Prelude.Action.{
  Result, ok, err, map_error, bind_result, ◌>>=◌, ◌>>◌, total, catch, wrapping, pure, fail,
}
use movra.Platform.Time.{Time}
use movra.Settlement.Model.{Payout, pending, failed, cancelled}
use movra.Settlement.Service.{cancel_payout, tell_provider, cancel_stored}
use movra.Settlement.Service.Confined.{Deployment}
use movra.Settlement.Service.Operations.{IsKeyed, open_to_cancel}

-- The payout after a cancellation at the time `t`.
abbrev pub cancelled_at : Payout → String → Time → Payout
cancelled_at p reason t = record p { status = cancelled; failure_reason = reason; updated_at = t }

module _ {W : Type 0} (d : Deployment W) where
  open d use {service, IsPayoutId, stored, laws}
  open d.service use {repo, provider, runtime, max_retries}

  -- A payout that was pending or failed is stored as cancelled.
  pub record IsCancelled (id reason : String) (w w' : W) (q : Payout) : Type 0 where
    pub before : Payout
    pub time : Time
    pub found : stored w id ≡ some before
    pub may : (before.status ≡ pending) ⊎ (before.status ≡ failed)
    pub cancels : q ≡ cancelled_at before reason time
    pub held : stored w' id ≡ some q

  -- A run of the service's `CancelPayout`.
  pub data Cancels (id reason : String) (w : W) : Result Payout × W → Type 0 where
    done : (q : Payout) (w' : W) → IsCancelled id reason w w' q → Cancels id reason w (ok q, w')
    undone :
        (e : String) (w' : W)
        → (stored w' id ≡ stored w id) ⊎ ((q : Payout) × IsCancelled id reason w w' q)
        → Cancels id reason w (err e, w')

  tell_provider-quiet :
      (p : Payout) (w : W)
      → ((tell_provider service p w).0 ≡ ok tt)
        × ((j : String) → stored (tell_provider service p w).1 j ≡ stored w j)
  unfolding tell_provider ◌>>=◌ catch pure
  tell_provider-quiet p w = elim (Bool-cases (p.provider_reference == "")) [
    | inl e ↦ rw e (refl, λ j. refl)
    | inr e ↦ rw e (refl, λ j. laws.cancel_keeps p.provider_reference w j)
  ]

  cancel_stored-Cancels :
      (id reason : String) (p : Payout) (w w₁ : W)
      → p.id ≡ id
      → IsPayoutId p.id
      → stored w id ≡ some p
      → ((j : String) → stored w₁ j ≡ stored w j)
      → (p.status ≡ pending) ⊎ (p.status ≡ failed)
      → Cancels id reason w (cancel_stored service p reason w₁)
  unfolding cancel_stored ◌>>=◌ ◌>>◌ total wrapping pure
  cancel_stored-Cancels id reason p w w₁ own plain found same may =
      rw (tell_provider-quiet p w₁).0 (saved (repo.save_payout q w₃).0 refl)
    where
      w₂ : W
      w₂ = (tell_provider service p w₁).1

      w₃ : W
      w₃ = (runtime.now w₂).1

      q : Payout
      q = cancelled_at p reason (runtime.now w₂).0

      w₄ : W
      w₄ = (repo.save_payout q w₃).1

      before : (j : String) → stored w₃ j ≡ stored w j
      before j = laws.now_keeps w₂ j ∙ (tell_provider-quiet p w₁).1 j ∙ same j

      is_cancelled : stored w₄ p.id ≡ some q → IsCancelled id reason w w₄ q
      is_cancelled h = record {
        before = p;
        time = (runtime.now w₂).0;
        found = found;
        may = may;
        cancels = refl;
        held = subst (λ j. stored w₄ j ≡ some q) own h;
      }

      saved :
          (r : Result (Unit {0}))
          → (repo.save_payout q w₃).0 ≡ r
          → Cancels id reason w (
              bind_result (map_error (λ e. "save cancelled payout: " ++ e) r) w₄ (λ _ u. (ok q, u)))
      saved (ok u) e = done q w₄ (is_cancelled (laws.save_ok q w₃ plain e))
      saved (err x) e = undone _ w₄ (elim (laws.save_written q w₃ plain) [
        | inl h ↦ inr (q, is_cancelled h)
        | inr h ↦ inl (subst (λ j. stored w₄ j ≡ stored w₃ j) own h ∙ before id)
      ])

  pub cancel_payout-Cancels :
      (id reason : String) (w : W)
      → IsKeyed d w
      → IsPayoutId id
      → Cancels id reason w (cancel_payout service id reason w)
  unfolding cancel_payout ◌>>=◌ fail
  cancel_payout-Cancels id reason w keyed i = go (repo.get_payout id w).0 refl
    where
      w₁ : W
      w₁ = (repo.get_payout id w).1

      go :
          (r : Result Payout)
          → (repo.get_payout id w).0 ≡ r
          → Cancels id reason w (
              bind_result r w₁ (λ p.
                if not (p.status == pending) && not (p.status == failed)
                then fail
                    ("can only cancel pending or failed payouts, current status: " ++ p.status)
                else cancel_stored service p reason))
      go (err e) x = undone e w₁ (inl (laws.get_keeps id w id))
      go (ok p) x =
          let found : stored w id ≡ some p = laws.get_found id w x in
          let own : p.id ≡ id = keyed id i p found in
          elim (Bool-cases (not (p.status == pending) && not (p.status == failed))) [
            | inl n ↦ rw n (undone _ w₁ (inl (laws.get_keeps id w id)))
            | inr o ↦ rw o (
                cancel_stored-Cancels id reason p w w₁ own (subst IsPayoutId (sym own) i) found
                  (laws.get_keeps id w) (open_to_cancel d p o))
          ]
