-- ===== src/Settlement/Service/Settled.antt =====
-- internal/service/payout_service.go: the payout that a request ends with, for each answer of the
-- provider.
use movra.Prelude.{String, ◌≡◌, refl, Option, ◌≢◌, none}
use movra.Prelude.Action.{Result, ok, err}
use Prim.Native.String.{◌++◌}
use movra.Prelude.Int.{pos}
use movra.Platform.Text.{int_text}
use movra.Platform.Time.{Time, unix_nano}
use movra.Settlement.Model.{Payout, PayoutStatus, completed, failed}
use movra.Settlement.Interfaces.{ProviderResult}
use movra.Settlement.Service.{InitiatePayoutRequest, new_payout}
use movra.Settlement.Service.Lifecycle.{SameOrder}

-- The payout `q` that a run on `p` ends with, for the provider's answer.
pub record IsAnswered (p : Payout) (r : ProviderResult) (q : Payout) : Type 0 where
  pub order : SameOrder p q
  pub retry_count : q.retry_count ≡ p.retry_count
  pub status : q.status ≡ r.status
  pub failure_reason : q.failure_reason ≡ r.failure_reason
  pub provider_reference : q.provider_reference ≡ r.provider_reference
  pub pickup_code : q.pickup_code ≡ r.pickup_code
  pub pickup_expires_at : q.pickup_expires_at ≡ r.pickup_expires_at
  pub completed_at : r.status ≡ completed → q.completed_at ≢ none
  pub not_completed : r.status ≢ completed → q.completed_at ≡ p.completed_at

pub record IsRefused (p : Payout) (e : String) (q : Payout) : Type 0 where
  pub order : SameOrder p q
  pub retry_count : q.retry_count ≡ p.retry_count
  pub status : q.status ≡ failed
  pub failure_reason : q.failure_reason ≡ e
  pub provider_reference : q.provider_reference ≡ p.provider_reference
  pub pickup_code : q.pickup_code ≡ p.pickup_code
  pub pickup_expires_at : q.pickup_expires_at ≡ p.pickup_expires_at
  pub completed_at : q.completed_at ≡ p.completed_at

abbrev pub Ends : Payout → Result ProviderResult → Payout → Type 0
Ends p (ok r) q = IsAnswered p r q
Ends p (err e) q = IsRefused p e q

-- A payout with another state is for the same.
pub same :
    {p : Payout} {status : PayoutStatus} {e reference code : String} {expires : Option Time}
    {t : Time} {done : Option Time}
    → SameOrder p (record p {
      status = status;
      failure_reason = e;
      provider_reference = reference;
      pickup_code = code;
      pickup_expires_at = expires;
      updated_at = t;
      completed_at = done;
    })
same = record {
  id = refl;
  transfer_id = refl;
  method = refl;
  amount = refl;
  currency = refl;
  recipient = refl;
  batch_id = refl;
  created_at = refl;
}

-- A payout for what the request at the time `t` asks for.
pub record IsOrdered (req : InitiatePayoutRequest) (t : Time) (q : Payout) : Type 0 where
  pub id : q.id ≡ "payout_" ++ int_text (unix_nano t)
  pub transfer_id : q.transfer_id ≡ req.transfer_id
  pub method : q.method ≡ req.method
  pub amount : q.amount ≡ req.amount
  pub currency : q.currency ≡ req.currency
  pub recipient : q.recipient ≡ req.recipient
  pub batch_id : q.batch_id ≡ ""
  pub created_at : q.created_at ≡ t
  pub retry_count : q.retry_count ≡ pos 0

-- A payout with what the provider's result says.
pub record IsPaid (r : ProviderResult) (q : Payout) : Type 0 where
  pub status : q.status ≡ r.status
  pub failure_reason : q.failure_reason ≡ r.failure_reason
  pub provider_reference : q.provider_reference ≡ r.provider_reference
  pub pickup_code : q.pickup_code ≡ r.pickup_code
  pub pickup_expires_at : q.pickup_expires_at ≡ r.pickup_expires_at
  pub completed_at : r.status ≡ completed → q.completed_at ≢ none
  pub not_completed : r.status ≢ completed → q.completed_at ≡ none

-- A payout that the provider has failed on with the error `e`.
pub record IsUnpaid (e : String) (q : Payout) : Type 0 where
  pub status : q.status ≡ failed
  pub failure_reason : q.failure_reason ≡ e
  pub provider_reference : q.provider_reference ≡ ""
  pub pickup_code : q.pickup_code ≡ ""
  pub pickup_expires_at : q.pickup_expires_at ≡ none
  pub completed_at : q.completed_at ≡ none

abbrev pub Settles : Result ProviderResult → Payout → Type 0
Settles (ok r) q = IsPaid r q
Settles (err e) q = IsUnpaid e q

new_payout-IsOrdered :
    (req : InitiatePayoutRequest) (t : Time) (q : Payout)
    → SameOrder (new_payout req t) q
    → q.retry_count ≡ (new_payout req t).retry_count
    → IsOrdered req t q
unfolding new_payout
new_payout-IsOrdered req t q h c = record {
  id = h.id;
  transfer_id = h.transfer_id;
  method = h.method;
  amount = h.amount;
  currency = h.currency;
  recipient = h.recipient;
  batch_id = h.batch_id;
  created_at = h.created_at;
  retry_count = c;
}

-- What becomes of a request at the time `t`.
abbrev pub Fulfils : InitiatePayoutRequest → Time → Result ProviderResult → Payout → Type 0
Fulfils req t r q = IsOrdered req t q × Settles r q

pub Ends-Fulfils :
    (req : InitiatePayoutRequest) (t : Time) (r : Result ProviderResult) (q : Payout)
    → Ends (new_payout req t) r q
    → Fulfils req t r q
unfolding new_payout
Ends-Fulfils req t (ok r) q h = (
  new_payout-IsOrdered req t q h.order h.retry_count,
  record {
    status = h.status;
    failure_reason = h.failure_reason;
    provider_reference = h.provider_reference;
    pickup_code = h.pickup_code;
    pickup_expires_at = h.pickup_expires_at;
    completed_at = h.completed_at;
    not_completed = h.not_completed;
  },
)
Ends-Fulfils req t (err e) q h = (
  new_payout-IsOrdered req t q h.order h.retry_count,
  record {
    status = h.status;
    failure_reason = h.failure_reason;
    provider_reference = h.provider_reference;
    pickup_code = h.pickup_code;
    pickup_expires_at = h.pickup_expires_at;
    completed_at = h.completed_at;
  },
)
