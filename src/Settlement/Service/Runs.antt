-- ===== src/Settlement/Service/Runs.antt =====
-- The parts of `processPayout`, each confined to its payout, and the whole operations.
use movra.Prelude.{String, ◌≡◌, refl, inl, inr, Bool-cases, ◌==◌, eq_iff, ne_of_test}
use movra.Prelude.Action.{
  Result, ok, err, Ensures, Keeps, Keeps-catch, Ensures-pure, Ensures-fail, Ensures-wrapping,
  Ensures-bind, Ensures-then,
}
use movra.Platform.Time.{Time}
use movra.Settlement.Model.{Payout, pending, processing, completed}
use movra.Settlement.Interfaces.{ProviderResult}
use movra.Settlement.Service.{
  with_result, stamp_completed, provider_failed, provider_answered, process_payout, after_provider,
}
use movra.Settlement.Service.Lifecycle.{begin, refuse, answer, complete, Evolves, next}
use movra.Settlement.Service.Confined.{Deployment, Inv, now-Keeps, save-Keeps, provider-Keeps}

module _ {W : Type 0} (d : Deployment W) (w₀ : W) (p₀ : Payout) where
  open d use {service, IsPayoutId, stored, laws}
  open d.service use {repo, provider, runtime, max_retries}

  abbrev I : W → Type 0
  I = Inv d w₀ p₀

  abbrev From : Payout → Type 0
  From = Evolves max_retries p₀

  provider_failed-Keeps :
      (p : Payout) (e : String)
      → p.status ≡ processing
      → From p
      → Keeps I (provider_failed service p e)
  unfolding provider_failed
  provider_failed-Keeps p e st ev = Ensures-bind (now-Keeps d w₀ p₀) λ t _.
      Ensures-bind (Keeps-catch (save-Keeps d w₀ p₀ _ (next ev (refuse p e t st))))
        λ _ _. Ensures-fail _

  stamp-From :
      (p : Payout) (r : ProviderResult) (t : Time)
      → p.status ≡ processing
      → From p
      → Ensures I From (stamp_completed service (with_result p r t))
  unfolding stamp_completed with_result
  stamp-From p r t st ev = elim (Bool-cases (r.status == completed)) [
    | inl c ↦ rw c (
        Ensures-bind (now-Keeps d w₀ p₀)
          λ u _. Ensures-pure _ (next ev (complete p r t u st ((eq_iff r.status completed).0 c))))
    | inr n ↦ rw n (Ensures-pure _ (next ev (answer p r t st (ne_of_test r.status completed n))))
  ]

  provider_answered-Keeps :
      (p : Payout) (r : ProviderResult)
      → p.status ≡ processing
      → From p
      → Keeps I (provider_answered service p r)
  unfolding provider_answered
  provider_answered-Keeps p r st ev = Ensures-bind (now-Keeps d w₀ p₀) λ t _.
      Ensures-bind (stamp-From p r t st ev) λ q ev'. Ensures-wrapping _ (save-Keeps d w₀ p₀ q ev')

  after_provider-Keeps :
      (p : Payout) (r : Result ProviderResult)
      → p.status ≡ processing
      → From p
      → Keeps I (after_provider service p r)
  after_provider-Keeps p (ok r) st ev = provider_answered-Keeps p r st ev
  after_provider-Keeps p (err e) st ev = provider_failed-Keeps p e st ev

  pub process_payout-Keeps :
      (p : Payout) → p.status ≡ pending → From p → Keeps I (process_payout service p)
  unfolding process_payout
  process_payout-Keeps p st ev = Ensures-bind (now-Keeps d w₀ p₀) λ t _.
      let p' = record p { status = processing; updated_at = t } in
      let ev' : From p' = next ev (begin p t st) in
      Ensures-then (Ensures-wrapping _ (save-Keeps d w₀ p₀ p' ev')) (
        Ensures-bind (Keeps-catch (provider-Keeps d w₀ p₀ p'))
          λ r _. after_provider-Keeps p' r refl ev')
