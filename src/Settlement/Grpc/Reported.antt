-- ===== src/Settlement/Grpc/Reported.antt =====
-- What the handlers of internal/grpc/server.go report of the stored payouts.
use movra.Prelude.{
  String, ◌≡◌, refl, ap, ◌⊎◌, inl, inr, ◌≢◌, Bool-cases, none, some, ◌==◌, eq_iff, ne_of_test,
}
use movra.Prelude.Action.{Result, ok, err}
use movra.Settlement.Model.{Payout}
use movra.Settlement.Service
use movra.Settlement.Service.{tell_provider, cancel_stored, retry_failed, process_payout}
use movra.Settlement.Service.Confined.{Deployment}
use movra.Settlement.Service.Operations.{IsKeyed, Effect, retry_payout-Effect}
use movra.Settlement.Grpc.{get_payout, retry_payout, cancel_payout, respond, payout_response}
use movra.Settlement.Grpc.Messages
use movra.Settlement.Grpc.Messages.{Reply, reply}
use movra.Settlement.Grpc.Convert.{model_payout_to_proto}
use movra.Settlement.Service.Retrying.{IsRetried, Retries, retry_payout-Retries}
use movra.Settlement.Service.Cancelling.{IsCancelled, Cancels, cancel_payout-Cancels}

-- A response with a payout, or with an error.
abbrev pub with_payout : Payout → Reply Messages.PayoutResponse
with_payout p = reply (record { payout = some (model_payout_to_proto p); error = none })

abbrev pub with_error : String → String → Reply Messages.PayoutResponse
with_error code e =
    reply (record { payout = none; error = some (record { code = code; message = e }) })

module _ {W : Type 0} (d : Deployment W) where
  open d use {service, IsPayoutId, stored, laws}
  open d.service use {repo}

  -- What `GetPayout` answers for an id that is not empty.
  pub data GetReply (id : String) (w : W) : Reply Messages.PayoutResponse × W → Type 0 where
    shown :
        (p : Payout) (w' : W)
        → stored w id ≡ some p
        → ((j : String) → stored w' j ≡ stored w j)
        → GetReply id w (with_payout p, w')
    not_shown :
        (e : String) (w' : W)
        → Service.get_payout service id w ≡ (err e, w')
        → ((j : String) → stored w' j ≡ stored w j)
        → GetReply id w (with_error "NOT_FOUND" e, w')

  pub data RetryReply (id : String) (w : W) : Reply Messages.PayoutResponse × W → Type 0 where
    retried : (q : Payout) (w' : W) → IsRetried d id w w' q → RetryReply id w (with_payout q, w')
    not_retried :
        (e : String) (w' : W)
        → Service.retry_payout service id w ≡ (err e, w')
        → Effect d id w w'
        → RetryReply id w (with_error "RETRY_FAILED" e, w')

  pub data CancelReply (id reason : String) (w : W)
      : Reply Messages.PayoutResponse × W → Type 0 where
    is_cancelled :
        (q : Payout) (w' : W)
        → IsCancelled d id reason w w' q
        → CancelReply id reason w (with_payout q, w')
    not_cancelled :
        (e : String) (w' : W)
        → Service.cancel_payout service id reason w ≡ (err e, w')
        → (stored w' id ≡ stored w id) ⊎ ((q : Payout) × IsCancelled d id reason w w' q)
        → CancelReply id reason w (with_error "CANCEL_FAILED" e, w')

  -- A request with an id that is empty is refused, and nothing is called; the others are answered.
  abbrev pub Named :
      String
      → W
      → (Reply Messages.PayoutResponse × W → Type 0)
      → Reply Messages.PayoutResponse × W
      → Type 0
  Named id w Answered r =
      ((id ≡ "") × (r ≡ (with_error "INVALID_ARGUMENT" "payout_id is required", w)))
      ⊎ ((id ≢ "") × Answered r)

  get-Reply :
      (id : String) (w : W)
      → GetReply id w (respond (payout_response "NOT_FOUND") (Service.get_payout service id w))
  unfolding Service.get_payout
  get-Reply id w = go (repo.get_payout id w).0 refl
    where
      w₁ : W
      w₁ = (repo.get_payout id w).1

      go :
          (r : Result Payout)
          → (repo.get_payout id w).0 ≡ r
          → GetReply id w (respond (payout_response "NOT_FOUND") (r, w₁))
      go (ok p) e = shown p w₁ (laws.get_found id w e) (laws.get_keeps id w)
      go (err x) e = not_shown x w₁ (ap (λ r. (r, w₁)) e) (laws.get_keeps id w)

  retry-Reply :
      (id : String) (w : W) (run : Result Payout × W)
      → Service.retry_payout service id w ≡ run
      → Retries d id w run
      → Effect d id w run.1
      → RetryReply id w (respond (payout_response "RETRY_FAILED") run)
  retry-Reply id w _ run (Retries.done q w' h) e = retried q w' h
  retry-Reply id w _ run (Retries.undone x w') e = not_retried x w' run e

  cancel-Reply :
      (id reason : String) (w : W) (run : Result Payout × W)
      → Service.cancel_payout service id reason w ≡ run
      → Cancels d id reason w run
      → CancelReply id reason w (respond (payout_response "CANCEL_FAILED") run)
  cancel-Reply id reason w _ run (Cancels.done q w' h) = is_cancelled q w' h
  cancel-Reply id reason w _ run (Cancels.undone x w' h) = not_cancelled x w' run h

  -- Over a store in which each payout stands under its own id, and whichever calls fail:
  -- `GetPayout`, `RetryPayout` and `CancelPayout` refuse the empty id and call nothing. For
  -- another id that payouts may have, `GetPayout` answers with the stored payout or NOT_FOUND, and
  -- changes none. `RetryPayout` answers with the payout that is then stored, which has evolved
  -- from a reset, with one retry more, of a failed payout that had retries left; or with
  -- RETRY_FAILED, and then no other payout has changed, and this one is as it was or has evolved.
  -- `CancelPayout` answers with the payout that is then stored, a pending or failed one cancelled
  -- for the reason, or with CANCEL_FAILED, and then the payout is as it was, or cancelled so by a
  -- save that failed. An error is reported only if the service has failed, with its message.
  pub requests-Reported :
      (id reason : String) (w : W)
      → IsKeyed d w
      → IsPayoutId id
      → Named id w (GetReply id w) (get_payout service id w)
        × (Named id w (RetryReply id w) (retry_payout service id w)
            × Named id w (CancelReply id reason w) (cancel_payout service id reason w))
  unfolding get_payout retry_payout cancel_payout
  requests-Reported id reason w keyed i = elim (Bool-cases (id == "")) [
    | inl e ↦
        let empty = (eq_iff id "").0 e in
        rw e (inl (empty, refl), (inl (empty, refl), inl (empty, refl)))
    | inr n ↦
        let named = ne_of_test id "" n in
        rw n (
          inr (named, get-Reply id w),
          (
            inr (
              named,
              retry-Reply id w _ refl (retry_payout-Retries d id w keyed i)
                  (retry_payout-Effect d id w keyed i),
            ),
            inr (
              named,
              cancel-Reply id reason w _ refl (cancel_payout-Cancels d id reason w keyed i),
            ),
          ),
        )
  ]
