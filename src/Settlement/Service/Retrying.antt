-- ===== src/Settlement/Service/Retrying.antt =====
-- internal/service/payout_service.go: the result of `RetryPayout`, and the stored payouts.
use mathlib.Core.Path.{subst}
use Prim.Native.String.{◌++◌}
use movra.Prelude.{
  if◌then◌else◌, String, ◌≡◌, refl, sym, ◌∙◌, inl, inr, Bool-cases, some, ◌==◌, eq_iff, arith, not,
}
use movra.Prelude.Action.{
  Result, ok, err, map_error, bind_result, ◌>>=◌, ◌>>◌, total, catch, wrapping, fail,
}
use movra.Platform.Time.{Time}
use movra.Platform.Text.{int_text}
use movra.Prelude.Int.{pos, ◌+ℤ◌, ◌<ℤ◌, leb_ℤ}
use movra.Settlement.Model.{Payout, pending, failed}
use movra.Settlement.Service.{retry_payout, retry_failed, process_payout}
use movra.Settlement.Service.Confined.{Deployment, Inv}
use movra.Settlement.Service.Operations.{IsKeyed}
use movra.Settlement.Service.Lifecycle.{Evolves, here}
use movra.Settlement.Service.Runs.{process_payout-Keeps}

-- The payout that a retry at the time `t` starts with.
abbrev pub reset_at : Payout → Time → Payout
reset_at p t = record p {
  status = pending;
  retry_count = p.retry_count +ℤ pos 1;
  failure_reason = "";
  updated_at = t;
}

module _ {W : Type 0} (d : Deployment W) where
  open d use {service, IsPayoutId, stored, laws}
  open d.service use {repo, provider, runtime, max_retries}

  -- A payout that was failed, with retries left, has been reset and has evolved from there.
  pub record IsRetried (id : String) (w w' : W) (q : Payout) : Type 0 where
    pub before : Payout
    pub time : Time
    pub found : stored w id ≡ some before
    pub has_failed : before.status ≡ failed
    pub below : before.retry_count <ℤ max_retries
    pub runs : Evolves max_retries (reset_at before time) q
    pub held : stored w' id ≡ some q

  -- A run of the service's `RetryPayout`.
  pub data Retries (id : String) (w : W) : Result Payout × W → Type 0 where
    done : (q : Payout) (w' : W) → IsRetried id w w' q → Retries id w (ok q, w')
    undone : (e : String) (w' : W) → Retries id w (err e, w')

  same_some : (p q : Payout) → some p ≡ some q → p ≡ q
  same_some p q e = cc

  retry_failed-Retries :
      (id : String) (p : Payout) (w w₁ : W)
      → p.id ≡ id
      → IsPayoutId p.id
      → stored w id ≡ some p
      → p.status ≡ failed
      → p.retry_count <ℤ max_retries
      → Retries id w (retry_failed service p w₁)
  unfolding retry_failed ◌>>=◌ ◌>>◌ total catch wrapping
  retry_failed-Retries id p w w₁ own plain found st below = saved (repo.save_payout q₀ w₂).0 refl
    where
      w₂ : W
      w₂ = (runtime.now w₁).1

      q₀ : Payout
      q₀ = reset_at p (runtime.now w₁).0

      w₃ : W
      w₃ = (repo.save_payout q₀ w₂).1

      w₄ : W
      w₄ = (process_payout service q₀ w₃).1

      w₅ : W
      w₅ = (repo.get_payout p.id w₄).1

      evolved :
          (q : Payout)
          → stored w₃ p.id ≡ some q₀
          → stored w₄ p.id ≡ some q
          → Evolves max_retries q₀ q
      evolved q h k =
          let start : Inv d w₃ q₀ w₃ = record {
            plain = plain;
            others = λ j i n. refl;
            own = inl refl;
          } in
          let kept = (process_payout-Keeps d w₃ q₀ q₀ refl here).keeps w₃ start in
          elim kept.own [
            | inl e ↦ subst (Evolves max_retries q₀) (same_some q₀ q (sym h ∙ sym e ∙ k)) here
            | inr t ↦ subst (Evolves max_retries q₀) (same_some t.0 q (sym t.1 ∙ k)) t.2
          ]

      read :
          (r : Result Payout)
          → (repo.get_payout p.id w₄).0 ≡ r
          → stored w₃ p.id ≡ some q₀
          → Retries id w (r, w₅)
      read (err x) e h = undone x w₅
      read (ok q) e h =
          let held : stored w₄ p.id ≡ some q = laws.get_found p.id w₄ e in
          done q w₅ record {
            before = p;
            time = (runtime.now w₁).0;
            found = found;
            has_failed = st;
            below = below;
            runs = evolved q h held;
            held = subst (λ j. stored w₅ j ≡ some q) own (laws.get_keeps p.id w₄ p.id ∙ held);
          }

      saved :
          (r : Result (Unit {0}))
          → (repo.save_payout q₀ w₂).0 ≡ r
          → Retries id w (
              bind_result
                (map_error (λ e. "save payout for retry: " ++ e) r)
                w₃
                (λ _ u. repo.get_payout p.id (process_payout service q₀ u).1))
      saved (err x) e = undone _ w₃
      saved (ok u) e = read (repo.get_payout p.id w₄).0 refl (laws.save_ok q₀ w₂ plain e)

  pub retry_payout-Retries :
      (id : String) (w : W) → IsKeyed d w → IsPayoutId id → Retries id w (retry_payout service id w)
  unfolding retry_payout ◌>>=◌ fail
  retry_payout-Retries id w keyed i = go (repo.get_payout id w).0 refl
    where
      w₁ : W
      w₁ = (repo.get_payout id w).1

      go :
          (r : Result Payout)
          → (repo.get_payout id w).0 ≡ r
          → Retries id w (
              bind_result r w₁ (λ p.
                if not (p.status == failed)
                then fail ("can only retry failed payouts, current status: " ++ p.status)
                else if leb_ℤ max_retries p.retry_count
                then fail ("max retries (" ++ (int_text max_retries ++ ") exceeded"))
                else retry_failed service p))
      go (err e) x = undone e w₁
      go (ok p) x =
          let found : stored w id ≡ some p = laws.get_found id w x in
          let own : p.id ≡ id = keyed id i p found in
          elim (Bool-cases (p.status == failed)) [
            | inr n ↦ rw n (undone _ w₁)
            | inl f ↦ rw f (elim (Bool-cases (leb_ℤ max_retries p.retry_count)) [
              | inl b ↦ rw b (undone _ w₁)
              | inr b ↦ rw b (
                  retry_failed-Retries id p w w₁ own (subst IsPayoutId (sym own) i) found
                    ((eq_iff p.status failed).0 f) (ground arith))
            ])
          ]
