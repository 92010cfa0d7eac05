-- ===== src/Settlement/Service.antt =====
-- internal/service/payout_service.go: the payout service, over the interfaces of its store and its
-- provider. A payout that `process_payout` changes through a pointer is not read again by its
-- callers, but for the id and the retry count, which it does not change.
pub mod Lifecycle
pub mod Confined
pub mod Runs
pub mod Operations
pub mod Requests
pub mod Refusals
pub mod Settled
pub mod Reliable
pub mod Retrying
pub mod Cancelling
use Prim.Native.String.{◌++◌}
use movra.Prelude.{String, Option, some, List, not, ◌&&◌, if◌then◌else◌, ◌==◌}
use movra.Prelude.Int.{ℤ, pos, ◌+ℤ◌, leb_ℤ}
use movra.Prelude.Action.{Result, ok, err, Action, pure, fail, total, catch, wrapping, ◌>>=◌, ◌>>◌}
use movra.Platform.Time.{Time, unix_nano}
use movra.Platform.Text.{int_text}
use movra.Platform.Runtime.{Runtime}
use movra.Settlement.Model.{
  Payout, PayoutMethod, Recipient, pending, processing, completed, failed, cancelled, cash_pickup,
  zero_payout,
}
use movra.Settlement.Interfaces.{PayoutRepository, PayoutProvider, PayoutFilter, ProviderResult}

pub record PayoutService (W : Type 0) : Type 0 where
  pub repo : PayoutRepository W
  pub provider : PayoutProvider W
  pub runtime : Runtime W
  pub max_retries : ℤ

pub record InitiatePayoutRequest : Type 0 where
  pub transfer_id : String
  pub method : PayoutMethod
  pub amount : String
  pub currency : String
  pub recipient : Recipient

-- The payout that a request starts with.
unfoldable pub new_payout : InitiatePayoutRequest → Time → Payout
new_payout req now = record zero_payout {
  id = "payout_" ++ int_text (unix_nano now);
  transfer_id = req.transfer_id;
  status = pending;
  method = req.method;
  amount = req.amount;
  currency = req.currency;
  recipient = req.recipient;
  created_at = now;
  updated_at = now;
}

-- The payout after the provider's answer, before `CompletedAt` is set.
unfoldable pub with_result : Payout → ProviderResult → Time → Payout
with_result p r now = record p {
  provider_reference = r.provider_reference;
  status = r.status;
  failure_reason = r.failure_reason;
  pickup_code = r.pickup_code;
  pickup_expires_at = r.pickup_expires_at;
  updated_at = now;
}

module _ {W : Type 0} (s : PayoutService W) where
  open s use {repo, provider, runtime, max_retries}

  -- `time.Now()`
  abbrev now : Action W Time
  now = total runtime.now

  -- `if result.Status == Completed { now := time.Now(); payout.CompletedAt = &now }`
  unfoldable pub stamp_completed : Payout → Action W Payout
  stamp_completed p =
      if p.status == completed
      then (do t ← now; pure (record p { completed_at = some t }))
      else pure p

  -- The branch of `processPayout` on the provider's error: the save's own error is dropped.
  unfoldable pub provider_failed : Payout → String → Action W (Unit {0})
  provider_failed p e = do
    t ← now
    _ ← catch (repo.save_payout (record p { status = failed; failure_reason = e; updated_at = t }))
    fail ("provider error: " ++ e)

  -- The branch on the provider's result.
  unfoldable pub provider_answered : Payout → ProviderResult → Action W (Unit {0})
  unfolding stamp_completed with_result
  provider_answered p r = do
    t ← now
    p' ← stamp_completed (with_result p r t)
    wrapping (λ e. "save result: " ++ e) (repo.save_payout p')

  abbrev pub after_provider : Payout → Result ProviderResult → Action W (Unit {0})
  after_provider p (ok r) = provider_answered p r
  after_provider p (err e) = provider_failed p e

  unfoldable pub process_payout : Payout → Action W (Unit {0})
  unfolding provider_failed provider_answered
  process_payout payout = do
    t ← now
    let p = record payout { status = processing; updated_at = t }
    wrapping (λ e. "update to processing: " ++ e) (repo.save_payout p)
    r ← catch (provider.process_payout p)
    after_provider p r

  -- `InitiatePayout` from its first save on.
  unfoldable pub start_payout : Payout → Action W Payout
  unfolding process_payout
  start_payout payout = do
    wrapping (λ e. "save payout: " ++ e) (repo.save_payout payout)
    _ ← catch (process_payout payout)
    repo.get_payout payout.id

  unfoldable pub initiate_payout : InitiatePayoutRequest → Action W Payout
  unfolding start_payout new_payout
  initiate_payout req = do t ← now; start_payout (new_payout req t)

  unfoldable pub get_payout : String → Action W Payout
  get_payout id = repo.get_payout id

  unfoldable pub list_payouts : PayoutFilter → Action W (List Payout)
  list_payouts filter = repo.list_payouts filter

  -- The reset of a failed payout, and its second run.
  unfoldable pub retry_failed : Payout → Action W Payout
  unfolding process_payout
  retry_failed p = do
    t ← now
    let payout = record p {
      status = pending;
      retry_count = p.retry_count +ℤ pos 1;
      failure_reason = "";
      updated_at = t;
    }
    wrapping (λ e. "save payout for retry: " ++ e) (repo.save_payout payout)
    _ ← catch (process_payout payout)
    repo.get_payout payout.id

  unfoldable pub retry_payout : String → Action W Payout
  unfolding retry_failed
  retry_payout id = do
    p ← repo.get_payout id
    if not (p.status == failed)
        then fail ("can only retry failed payouts, current status: " ++ p.status)
        else if leb_ℤ max_retries p.retry_count
        then fail ("max retries (" ++ (int_text max_retries ++ ") exceeded"))
        else retry_failed p

  -- The provider is told only of a payout that has its reference; its error is dropped.
  unfoldable pub tell_provider : Payout → Action W (Unit {0})
  tell_provider p =
      if p.provider_reference == ""
      then pure tt
      else (do _ ← catch (provider.cancel_payout p.provider_reference); pure tt)

  unfoldable pub cancel_stored : Payout → String → Action W Payout
  unfolding tell_provider
  cancel_stored p reason = do
    tell_provider p
    t ← now
    let payout = record p { status = cancelled; failure_reason = reason; updated_at = t }
    wrapping (λ e. "save cancelled payout: " ++ e) (repo.save_payout payout)
    pure payout

  unfoldable pub cancel_payout : String → String → Action W Payout
  unfolding cancel_stored
  cancel_payout id reason = do
    p ← repo.get_payout id
    if not (p.status == pending) && not (p.status == failed)
        then fail ("can only cancel pending or failed payouts, current status: " ++ p.status)
        else cancel_stored p reason

  unfoldable pub get_pickup_code : String → Action W (String × Option Time)
  get_pickup_code id = do
    p ← repo.get_payout id
    if not (p.method == cash_pickup)
        then fail "not a cash pickup payout"
        else if p.pickup_code == ""
        then fail "pickup code not yet available"
        else pure (p.pickup_code, p.pickup_expires_at)
