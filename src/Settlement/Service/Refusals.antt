-- ===== src/Settlement/Service/Refusals.antt =====
-- internal/service/payout_service.go: refused requests, and payouts that are neither pending nor
-- failed.
use mathlib.Core.Path.{subst}
use Prim.Native.String.{◌++◌}
use movra.Prelude.{
  String, ◌≡◌, refl, sym, ◌∙◌, ◌⊎◌, inl, inr, ◌≢◌, true, Bool-cases, some, arith, ◌==◌, test_of_ne,
  same_or_not, List, [], ◌∷◌,
}
use movra.Prelude.Int.{◌≤ℤ◌, leb_ℤ}
use movra.Prelude.Action.{Result, ok, err, bind_result, ◌>>=◌, fail}
use movra.Platform.Text.{int_text}
use movra.Settlement.Model.{Payout, pending, failed}
use movra.Settlement.Service.{retry_payout, cancel_payout}
use movra.Settlement.Service.Confined.{Deployment}
use movra.Settlement.Service.Operations.{retry_payout-Effect, cancel_payout-Effect}
use movra.Settlement.Service.Requests.{
  Request, retry, cancel, handle, serve, AllSound, handle-AllSound, AllFollowUp, IsFollowUp,
  IsAdmitted, AllSound-IsKeyed,
}

-- The call has failed.
pub data IsErr {A : Type 0} : Result A → Type 0 where
  is_err : (e : String) → IsErr (err e)

some_eq : (p q : Payout) → some p ≡ some q → p ≡ q
some_eq p q e = cc

-- The texts of the two refusals by status.
abbrev retry_text : Payout → String
retry_text p = "can only retry failed payouts, current status: " ++ p.status

abbrev cancel_text : Payout → String
cancel_text p = "can only cancel pending or failed payouts, current status: " ++ p.status

module _ {W : Type 0} (d : Deployment W) where
  open d use {service, IsPayoutId, stored, laws}
  open d.service use {repo, runtime, max_retries}

  -- The call has failed, and no stored payout has changed since `w`.
  abbrev pub Refused : {A : Type 0} → W → Result A × W → Type 0
  Refused w (r, w') = IsErr r × ((j : String) → stored w' j ≡ stored w j)

  -- A read of a stored payout fails, or hands that payout on to a refusal.
  read-Refused :
      {A : Type 0} (k : Payout → W → Result A × W) (id : String) (w : W) (p : Payout) (e : String)
      → stored w id ≡ some p
      → ((w₁ : W) → k p w₁ ≡ (err e, w₁))
      → Refused w ((repo.get_payout id >>= k) w)
  unfolding ◌>>=◌
  read-Refused {A} k id w p e found refuses = go (repo.get_payout id w).0 refl
    where
      go :
          (r : Result Payout)
          → (repo.get_payout id w).0 ≡ r
          → Refused w (bind_result r (repo.get_payout id w).1 k)
      go (err x) eq = (is_err x, laws.get_keeps id w)
      go (ok q) eq =
          let same : q ≡ p = some_eq q p (sym (laws.get_found id w eq) ∙ found) in
          rw same (rw (refuses (repo.get_payout id w).1) (is_err e, laws.get_keeps id w))

  -- `RetryPayout` of a stored payout that is not failed, or has been retried as often as
  -- configured, returns an error and changes no stored payout.
  pub retry_payout-Refused :
      (id : String) (w : W) (p : Payout)
      → stored w id ≡ some p
      → (p.status ≢ failed) ⊎ (max_retries ≤ℤ p.retry_count)
      → Refused w (retry_payout service id w)
  unfolding retry_payout fail
  retry_payout-Refused id w p found (inl n) =
      read-Refused _ id w p (retry_text p) found λ w₁. rw (test_of_ne p.status failed n)
  retry_payout-Refused id w p found (inr used) = elim (Bool-cases (p.status == failed)) [
    | inr n ↦ read-Refused _ id w p (retry_text p) found λ w₁. rw n
    | inl f ↦
        read-Refused _ id w p ("max retries (" ++ (int_text max_retries ++ ") exceeded")) found
          λ w₁. rw (f, used_up) refl
  ]
    where
      used_up : leb_ℤ max_retries p.retry_count ≡ true
      used_up = ground arith

  -- `CancelPayout` of a stored payout that is neither pending nor failed returns an error and
  -- changes no stored payout.
  pub cancel_payout-Refused :
      (id reason : String) (w : W) (p : Payout)
      → stored w id ≡ some p
      → p.status ≢ pending
      → p.status ≢ failed
      → Refused w (cancel_payout service id reason w)
  unfolding cancel_payout fail
  cancel_payout-Refused id reason w p found a b =
      read-Refused _ id w p (cancel_text p) found
        λ w₁. rw (test_of_ne p.status pending a, test_of_ne p.status failed b)

  -- Neither pending nor failed.
  abbrev pub IsClosed : Payout → Type 0
  IsClosed p = (p.status ≢ pending) × (p.status ≢ failed)

  handle-closed :
      (r : Request) (id : String) (w : W) (p : Payout)
      → IsFollowUp d r
      → IsPayoutId id
      → AllSound d w
      → IsClosed p
      → stored w id ≡ some p
      → stored (handle service r w) id ≡ some p
  unfolding handle
  handle-closed (retry j) id w p i own h c found = elim (same_or_not id j) [
    | inl x ↦
        (retry_payout-Refused j w p (subst (λ k. stored w k ≡ some p) x found) (inl c.1)).1 id
        ∙ found
    | inr n ↦ (retry_payout-Effect d j w (AllSound-IsKeyed d w h) i).others id own n ∙ found
  ]
  handle-closed (cancel j reason) id w p i own h c found = elim (same_or_not id j) [
    | inl x ↦
        (cancel_payout-Refused j reason w p (subst (λ k. stored w k ≡ some p) x found) c.0 c.1).1 id
        ∙ found
    | inr n ↦ (cancel_payout-Effect d j reason w (AllSound-IsKeyed d w h) i).others id own n ∙ found
  ]
  handle-closed (Request.initiate req) id w p i own h c found = absurd i

  IsFollowUp-IsAdmitted : (r : Request) → IsFollowUp d r → IsAdmitted d r
  IsFollowUp-IsAdmitted (retry j) i = i
  IsFollowUp-IsAdmitted (cancel j reason) i = i
  IsFollowUp-IsAdmitted (Request.initiate req) i = absurd i

  -- From a world in which every stored payout is sound, no sequence of retries and cancellations
  -- of ids that payouts may have changes a payout that is stored and is neither pending nor
  -- failed: one that is completed, cancelled, ready for pickup or picked up, and also one that was
  -- left as processing.
  pub serve-closed :
      (rs : List Request) (id : String) (w : W) (p : Payout)
      → AllFollowUp d rs
      → IsPayoutId id
      → AllSound d w
      → IsClosed p
      → stored w id ≡ some p
      → stored (serve service rs w) id ≡ some p
  unfolding serve
  serve-closed [] id w p a own h c found = found
  serve-closed (r ∷ rs) id w p a own h c found =
      serve-closed rs id (handle service r w) p a.1 own
        (handle-AllSound d r w (IsFollowUp-IsAdmitted r a.0) h) c
        (handle-closed r id w p a.0 own h c found)
