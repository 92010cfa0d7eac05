-- ===== src/Settlement/Tasks.antt =====
-- The operations of internal/service/payout_service.go as programs: trees of the calls that they make
-- on the store, the provider and the clock, so that the calls of several requests can be interleaved.
-- A request runs in a goroutine of its own; nothing but the store is shared.
pub mod Agreement
pub mod Soundness
pub mod Carefulness
pub mod Progress
use Prim.Native.String.{◌++◌}
use movra.Prelude.{String, Option, some, not, ◌&&◌, if◌then◌else◌, ◌==◌}
use movra.Prelude.Int.{ℤ, pos, ◌+ℤ◌, leb_ℤ}
use movra.Prelude.Action.{Result, ok, err, map_error}
use movra.Platform.Time.{Time}
use movra.Platform.Text.{int_text}
use movra.Settlement.Model.{Payout, pending, processing, completed, failed, cancelled}
use movra.Settlement.Interfaces.{ProviderResult}
use movra.Settlement.Service.{PayoutService, InitiatePayoutRequest, new_payout, with_result}
use movra.Settlement.Service.Requests.{Request, initiate, retry, cancel}

-- A call that a request makes, and what it is answered with.
pub data Call : Type 0 where
  read_clock : Call
  save : Payout → Call
  get : String → Call
  process : Payout → Call
  withdraw : String → Call

abbrev pub Answer : Call → Type 0
Answer read_clock = Time
Answer (save p) = Result (Unit {0})
Answer (get id) = Result Payout
Answer (process p) = Result ProviderResult
Answer (withdraw reference) = Result (Unit {0})

pub data Program (A : Type 0) : Type 0 where
  return : A → Program A
  call : (c : Call) → (Answer c → Program A) → Program A

-- One call on the service's store, provider or clock.
unfoldable pub perform : {W : Type 0} → PayoutService W → (c : Call) → W → Answer c × W
perform s read_clock w = s.runtime.now w
perform s (save p) w = s.repo.save_payout p w
perform s (get id) w = s.repo.get_payout id w
perform s (process p) w = s.provider.process_payout p w
perform s (withdraw reference) w = s.provider.cancel_payout reference w

-- The run of a program with no other between its calls.
unfoldable pub interpret : {W A : Type 0} → PayoutService W → Program A → W → A × W
unfolding perform
interpret s (return a) w = (a, w)
interpret s (call c k) w = let (a, w') = perform s c w in interpret s (k a) w'

-- A program that returns a value or an error.
abbrev pub Task : Type 0 → Type 0
Task A = Program (Result A)

module _ {A B : Type 0} where
  unfoldable pub and_then : Program A → (A → Program B) → Program B
  and_then (return a) f = f a
  and_then (call c k) f = call c (λ a. and_then (k a) f)

module _ {A B : Type 0} where
  abbrev pub on_ok : (A → Task B) → Result A → Task B
  on_ok f (ok a) = f a
  on_ok f (err e) = return (err e)

  infixl 5 ◌>>=◌ ◌>>◌
  unfoldable pub ◌>>=◌ : Task A → (A → Task B) → Task B
  unfolding and_then
  m >>= f = and_then m (on_ok f)

  unfoldable pub ◌>>◌ : Task A → Task B → Task B
  unfolding ◌>>=◌
  m >> k = m >>= λ _. k

module _ {A : Type 0} where
  abbrev pub pure : A → Task A
  pure a = return (ok a)

  abbrev pub fail : String → Task A
  fail e = return (err e)

  -- A call whose error is looked at, or dropped.
  unfoldable pub catch : Task A → Task (Result A)
  unfolding and_then
  catch m = and_then m (λ r. return (ok r))

  unfoldable pub wrapping : (String → String) → Task A → Task A
  unfolding and_then
  wrapping f m = and_then m (λ r. return (map_error f r))

abbrev pub now : Task Time
now = call read_clock (λ t. return (ok t))

-- A call that may fail.
abbrev pub save_payout : Payout → Task (Unit {0})
save_payout p = call (save p) return

abbrev pub get_payout : String → Task Payout
get_payout id = call (get id) return

abbrev pub ask_provider : Payout → Task ProviderResult
ask_provider p = call (process p) return

abbrev pub tell_withdrawal : String → Task (Unit {0})
tell_withdrawal reference = call (withdraw reference) return

unfoldable pub stamp_completed : Payout → Task Payout
unfolding ◌>>=◌
stamp_completed p =
    if p.status == completed
    then (do t ← now; pure (record p { completed_at = some t }))
    else pure p

unfoldable pub provider_failed : Payout → String → Task (Unit {0})
unfolding ◌>>=◌ catch
provider_failed p e = do
  t ← now
  _ ← catch (save_payout (record p { status = failed; failure_reason = e; updated_at = t }))
  fail ("provider error: " ++ e)

unfoldable pub provider_answered : Payout → ProviderResult → Task (Unit {0})
unfolding ◌>>=◌ wrapping stamp_completed with_result
provider_answered p r = do
  t ← now
  p' ← stamp_completed (with_result p r t)
  wrapping (λ e. "save result: " ++ e) (save_payout p')

abbrev pub after_provider : Payout → Result ProviderResult → Task (Unit {0})
after_provider p (ok r) = provider_answered p r
after_provider p (err e) = provider_failed p e

unfoldable pub process_payout : Payout → Task (Unit {0})
unfolding ◌>>=◌ ◌>>◌ catch wrapping provider_answered provider_failed
process_payout payout = do
  t ← now
  let p = record payout { status = processing; updated_at = t }
  wrapping (λ e. "update to processing: " ++ e) (save_payout p)
  r ← catch (ask_provider p)
  after_provider p r

unfoldable pub start_payout : Payout → Task Payout
unfolding ◌>>=◌ ◌>>◌ catch wrapping process_payout
start_payout payout = do
  wrapping (λ e. "save payout: " ++ e) (save_payout payout)
  _ ← catch (process_payout payout)
  get_payout payout.id

unfoldable pub initiate_payout : InitiatePayoutRequest → Task Payout
unfolding ◌>>=◌ start_payout new_payout
initiate_payout req = do t ← now; start_payout (new_payout req t)

-- A failed payout, ready for its next run.
abbrev pub reset : Payout → Time → Payout
reset p t = record p {
  status = pending;
  retry_count = p.retry_count +ℤ pos 1;
  failure_reason = "";
  updated_at = t;
}

unfoldable pub retry_failed : Payout → Task Payout
unfolding ◌>>=◌ ◌>>◌ catch wrapping process_payout
retry_failed p = do
  t ← now
  let payout = reset p t
  wrapping (λ e. "save payout for retry: " ++ e) (save_payout payout)
  _ ← catch (process_payout payout)
  get_payout payout.id

-- The guards of `RetryPayout` on the payout that was read.
unfoldable pub retry_read : ℤ → Payout → Task Payout
unfolding retry_failed
retry_read max_retries p =
    if not (p.status == failed)
    then fail ("can only retry failed payouts, current status: " ++ p.status)
    else if leb_ℤ max_retries p.retry_count
    then fail ("max retries (" ++ (int_text max_retries ++ ") exceeded"))
    else retry_failed p

unfoldable pub retry_payout : ℤ → String → Task Payout
unfolding ◌>>=◌ retry_read
retry_payout max_retries id = do p ← get_payout id; retry_read max_retries p

unfoldable pub tell_provider : Payout → Task (Unit {0})
unfolding ◌>>=◌ catch
tell_provider p =
    if p.provider_reference == ""
    then pure tt
    else (do _ ← catch (tell_withdrawal p.provider_reference); pure tt)

unfoldable pub cancel_stored : Payout → String → Task Payout
unfolding ◌>>=◌ ◌>>◌ wrapping tell_provider
cancel_stored p reason = do
  tell_provider p
  t ← now
  let payout = record p { status = cancelled; failure_reason = reason; updated_at = t }
  wrapping (λ e. "save cancelled payout: " ++ e) (save_payout payout)
  pure payout

unfoldable pub cancel_read : String → Payout → Task Payout
unfolding cancel_stored
cancel_read reason p =
    if not (p.status == pending) && not (p.status == failed)
    then fail ("can only cancel pending or failed payouts, current status: " ++ p.status)
    else cancel_stored p reason

unfoldable pub cancel_payout : String → String → Task Payout
unfolding ◌>>=◌ cancel_read
cancel_payout id reason = do p ← get_payout id; cancel_read reason p

-- What the service runs for a request, under its retry limit.
abbrev pub task : ℤ → Request → Task Payout
task max_retries (initiate req) = initiate_payout req
task max_retries (retry id) = retry_payout max_retries id
task max_retries (cancel id reason) = cancel_payout id reason
