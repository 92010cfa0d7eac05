-- ===== src/Settlement/Simulated.antt =====
-- internal/provider/simulated.go: the simulated payout provider.
pub mod Answers
use Prim.Native.String.{◌++◌}
use movra.Prelude.{
  ℕ, zero, suc, ◌*◌, String, Bool, true, false, Option, none, some, if◌then◌else◌, ◌==◌,
}
use movra.Prelude.Int.{ℤ, pos, leb_ℤ, ltb_ℤ}
use movra.Prelude.Action.{Action, pure, fail, total, ◌>>=◌, ◌>>◌}
use movra.Platform.Time.{Time, hour, unix_nano, add}
use movra.Platform.Text.{int_text, digit_text}
use movra.Platform.Runtime.{Runtime}
use movra.Settlement.Model.{Payout, PayoutStatus, completed, failed, ready_for_pickup, cash_pickup}
use movra.Settlement.Interfaces.{PayoutProvider, ProviderResult, ProviderStatus}

pub record SimulatedProvider : Type 0 where
  -- a percentage
  pub failure_rate : ℤ
  pub processing_time : ℤ

abbrev pub failure_text : String
failure_text = "Simulated failure: recipient account not found"

module _ {W : Type 0} (runtime : Runtime W) (p : SimulatedProvider) where
  abbrev now : Action W Time
  now = total runtime.now

  unfoldable pub should_fail : W → Bool × W
  should_fail w =
      if leb_ℤ p.failure_rate (pos 0)
      then (false, w)
      else (let (n, w') = runtime.rand_int 100 w in (ltb_ℤ (pos n) p.failure_rate, w'))

  -- The loop of `generatePickupCode`, with the rounds left.
  unfoldable pub pick_digits : ℕ → W → String × W
  pick_digits zero w = ("", w)
  pick_digits (suc k) w =
      let (n, w') = runtime.rand_int 10 w in
      let (rest, w'') = pick_digits k w' in (digit_text n ++ rest, w'')

  unfoldable pub generate_pickup_code : W → String × W
  unfolding pick_digits
  generate_pickup_code = pick_digits 8

  -- The result of a payout that does not fail.
  unfoldable pub paid_out : Payout → String → Action W ProviderResult
  unfolding generate_pickup_code
  paid_out payout provider_ref =
      if payout.method == cash_pickup
      then (do
        code ← total generate_pickup_code
        t ← now
        pure (record {
          provider_reference = provider_ref;
          status = ready_for_pickup;
          failure_reason = "";
          pickup_code = code;
          pickup_expires_at = some (add t (pos (72 * hour)));
        }))
      else pure (record {
        provider_reference = provider_ref;
        status = completed;
        failure_reason = "";
        pickup_code = "";
        pickup_expires_at = none;
      })

  unfoldable pub refused : String → Action W ProviderResult
  refused provider_ref = pure (record {
    provider_reference = provider_ref;
    status = failed;
    failure_reason = failure_text;
    pickup_code = "";
    pickup_expires_at = none;
  })

  -- `ProcessPayout` from the end of the wait on.
  unfoldable pub process_after_wait : Payout → Action W ProviderResult
  unfolding should_fail paid_out refused
  process_after_wait payout = do
    t ← now
    let provider_ref = "SIM_" ++ int_text (unix_nano t)
    failing ← total should_fail
    if failing then refused provider_ref else paid_out payout provider_ref

  abbrev pub resume : Payout → Option String → Action W ProviderResult
  resume payout none = process_after_wait payout
  resume payout (some e) = fail e

  unfoldable pub process_payout : Payout → Action W ProviderResult
  unfolding process_after_wait
  process_payout payout = do
    stopped ← total (runtime.interrupted p.processing_time)
    resume payout stopped

  unfoldable pub check_status : String → Action W ProviderStatus
  check_status provider_reference = do
    t ← now
    pure (record { status = completed; failure_reason = ""; completed_at = some t })

  unfoldable pub cancel_payout : String → Action W (Unit {0})
  cancel_payout provider_reference = pure tt

  unfoldable pub simulated_provider : PayoutProvider W
  unfolding process_payout check_status cancel_payout
  simulated_provider = record {
    process_payout = process_payout;
    check_status = check_status;
    cancel_payout = cancel_payout;
    name = "simulated";
  }
