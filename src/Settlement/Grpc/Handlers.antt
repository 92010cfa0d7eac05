-- ===== src/Settlement/Grpc/Handlers.antt =====
-- What the handlers of internal/grpc/server.go answer.
use movra.Prelude.{
  String, ◌≡◌, refl, sym, ◌∙◌, ◌⊎◌, inl, inr, ◌≢◌, Bool-cases, Option, none, some, ◌==◌, eq_iff,
  ne_of_test,
}
use movra.Prelude.Action.{Result, ok, err}
use movra.Settlement.Model.{Payout}
use movra.Settlement.Service
use movra.Settlement.Service.{PayoutService}
use movra.Settlement.Grpc.{
  initiate_payout, initiate_with, to_request, respond, payout_response, refusal,
}
use movra.Settlement.Grpc.Messages
use movra.Settlement.Grpc.Messages.{Reply, reply, panic, Error, Money, PayoutResponse}

-- A response holds a payout or an error, and not both.
abbrev pub IsEither : PayoutResponse → Type 0
IsEither r =
    ((p : Messages.Payout) × (r.payout ≡ some p) × (r.error ≡ none))
    ⊎ ((e : Error) × (r.payout ≡ none) × (r.error ≡ some e))

-- A handler has not panicked, and its response holds a payout or an error.
abbrev pub Answers : {W : Type 0} → Reply PayoutResponse × W → Type 0
Answers (r, w) = (a : PayoutResponse) × (r ≡ reply a) × IsEither a

respond-Answers :
    {W : Type 0} (code : String) (r : Result Payout × W)
    → Answers (respond (payout_response code) r)
respond-Answers code (ok p, w) = (_, refl, inl (_, refl, refl))
respond-Answers code (err e, w) = (_, refl, inr (_, refl, refl))

refusal-Answers : {W : Type 0} (m : String) (w : W) → Answers (reply (refusal m), w)
refusal-Answers m w = (_, refl, inr (_, refl, refl))

module _ {W : Type 0} (s : PayoutService W) where
  -- `InitiatePayout` panics exactly if the request names a transfer and has no amount, and then it
  -- has called nothing; every other request is answered with a payout or an error, and not both.
  pub initiate_payout-panics :
      (req : Messages.InitiatePayoutRequest) (w : W)
      → ((req.transfer_id ≢ "") × (req.amount ≡ none) × (initiate_payout s req w ≡ (panic, w)))
        ⊎ (((req.transfer_id ≡ "") ⊎ (req.amount ≢ none)) × Answers (initiate_payout s req w))
  unfolding initiate_payout
  initiate_payout-panics req w = elim (Bool-cases (req.transfer_id == "")) [
    | inl e ↦ rw e (inr (inl ((eq_iff req.transfer_id "").0 e), refusal-Answers _ w))
    | inr n ↦ rw n (split (ne_of_test req.transfer_id "" n) req.amount refl)
  ]
    where
      split :
          req.transfer_id ≢ ""
          → (o : Option Money) → req.amount ≡ o
          → ((req.transfer_id ≢ "") × (req.amount ≡ none) × (initiate_with s req o w ≡ (panic, w)))
            ⊎ (((req.transfer_id ≡ "") ⊎ (req.amount ≢ none)) × Answers (initiate_with s req o w))
      split named none e = inl (named, e, refl)
      split named (some m) e = inr (
        inr (λ x. absurd (some_ne m (sym e ∙ x))),
        respond-Answers "INITIATE_FAILED" (Service.initiate_payout s (to_request req m) w),
      )
        where
          some_ne : (m : Money) → some m ≢ none
          some_ne m x = cc
