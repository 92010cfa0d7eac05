-- ===== src/Settlement/Tests/Races.antt =====
-- Requests that run at the same time: instances of the theorems on interleavings, and races.
use movra.Prelude.{ℕ, ◌≡◌, refl, Option, some, none, List, [], ◌∷◌, arith}
use movra.Redis.Memory.{World}
use movra.Settlement.Repository.{Bytes}
use movra.Prelude.Int.{pos}
use movra.Prelude.Action.{ok}
use movra.Settlement.Model.{Payout, completed, cancelled}
use movra.Settlement.Service.Requests.{retry, cancel, AllSound, AllSound-IsKeyed}
use movra.Settlement.Service.Lifecycle.{SameOrder}
use movra.Settlement.Tasks.{Task, return, interpret, task}
use movra.Settlement.Interleaving.{Event, arrive, advance, execute, idle, System}
use movra.Settlement.Interleaving.Sound.{execute-AllSound, execute-SameOrder}
use movra.Settlement.Interleaving.Finishing.{HasReturned, task_at, execute-HasReturned}
use movra.Settlement.Tests.{
  deployment, steady_deployment, holding, refused_payout, payout_7-admitted, holding-stored,
  refused-AllSound,
}

-- Two retries of the same payout: both read it before either writes.
abbrev two_retries : List Event
two_retries =
    arrive (retry "payout_7")
    ∷ arrive (retry "payout_7")
    ∷ advance 0
    ∷ advance 1
    ∷ advance 0
    ∷ advance 0
    ∷ advance 0
    ∷ advance 0
    ∷ advance 0
    ∷ advance 0
    ∷ advance 0
    ∷ advance 0
    ∷ advance 0
    ∷ advance 0
    ∷ advance 1
    ∷ advance 1
    ∷ advance 1
    ∷ advance 1
    ∷ advance 1
    ∷ advance 1
    ∷ advance 1
    ∷ advance 1
    ∷ advance 1
    ∷ advance 1
    ∷ []

abbrev raced : System (World Bytes)
raced = execute steady_deployment.service two_retries (idle (holding refused_payout))

-- A cancellation that reads a failed payout before a retry pays it out, and writes after that.
abbrev retry_and_cancel : List Event
retry_and_cancel =
    arrive (retry "payout_7")
    ∷ arrive (cancel "payout_7" "no longer needed")
    ∷ advance 1
    ∷ advance 0
    ∷ advance 0
    ∷ advance 0
    ∷ advance 0
    ∷ advance 0
    ∷ advance 0
    ∷ advance 0
    ∷ advance 0
    ∷ advance 0
    ∷ advance 0
    ∷ advance 1
    ∷ advance 1
    ∷ []

-- A retry with another request that arrives and moves in between.
abbrev ten_turns : List Event
ten_turns =
    advance 0
    ∷ arrive (cancel "payout_7" "too late")
    ∷ advance 0
    ∷ advance 1
    ∷ advance 0
    ∷ advance 0
    ∷ advance 0
    ∷ advance 1
    ∷ advance 0
    ∷ advance 0
    ∷ advance 0
    ∷ advance 0
    ∷ advance 0
    ∷ []

abbrev paid_first : Payout
paid_first = record refused_payout {
  status = completed;
  failure_reason = "";
  retry_count = pos 3;
  provider_reference = "SIM_-6795364578871340150";
  updated_at = 5003;
  completed_at = some 5004;
}

abbrev paid_again : Payout
paid_again = record paid_first {
  provider_reference = "SIM_-6795364578871340145";
  updated_at = 5008;
  completed_at = some 5009;
}

abbrev crossed : System (World Bytes)
crossed = execute steady_deployment.service retry_and_cancel (idle (holding refused_payout))

abbrev cancelled_7 : Payout
cancelled_7 = record refused_payout {
  status = cancelled;
  failure_reason = "no longer needed";
  updated_at = 5005;
}

-- The provider pays the payout out for both retries, which are counted as one; and the retry that
-- was crossed by a cancellation has paid a payout out that is stored as cancelled.
races :
    (raced.tasks ≡ return (ok paid_first) ∷ return (ok paid_again) ∷ [])
    × ((crossed.tasks ≡ return (ok paid_first) ∷ return (ok cancelled_7) ∷ [])
        × (steady_deployment.stored crossed.world "payout_7" ≡ some cancelled_7))
unfolding movra.Settlement.Interleaving.execute movra.Settlement.Interleaving.happen
    movra.Settlement.Interleaving.step movra.Settlement.Interleaving.step_at
    movra.Settlement.Wiring.redis_deployment movra.Settlement.Wiring.new_service
    movra.Settlement.Wiring.configured_provider movra.Settlement.Repository.redis_repository
    movra.Settlement.Repository.get_payout movra.Settlement.Repository.save_payout
    movra.Settlement.Repository.save_commands movra.Settlement.Repository.unmarshal
    movra.Settlement.Json.unmarshal_payout movra.Settlement.Json.payout_fields
    movra.Settlement.Json.recipient_fields movra.Settlement.Json.unmarshal_recipient
    movra.Platform.Json.omit_text movra.Platform.Json.omit_time movra.Platform.Json.find
    movra.Platform.Text.int_text movra.Platform.Text.decimal movra.Platform.Text.digit_text
    movra.Platform.Time.unix_nano movra.Prelude.Int.wrap movra.Prelude.Int.◌+ℤ◌
    movra.Prelude.Int.◌-ℤ◌ movra.Prelude.Action.wrapping movra.Prelude.Action.◌>>=◌
    movra.Prelude.Action.total movra.Prelude.Action.pure movra.Prelude.Action.fail
    movra.Settlement.Simulated.simulated_provider movra.Settlement.Simulated.cancel_payout
    movra.Settlement.Simulated.generate_pickup_code movra.Settlement.Simulated.paid_out
    movra.Settlement.Simulated.pick_digits movra.Settlement.Simulated.process_after_wait
    movra.Settlement.Simulated.process_payout movra.Settlement.Simulated.refused
    movra.Settlement.Simulated.should_fail movra.Settlement.Service.with_result
    movra.Settlement.Tasks.retry_payout movra.Settlement.Tasks.and_then movra.Settlement.Tasks.catch
    movra.Settlement.Tasks.perform movra.Settlement.Tasks.process_payout
    movra.Settlement.Tasks.provider_answered movra.Settlement.Tasks.provider_failed
    movra.Settlement.Tasks.retry_failed movra.Settlement.Tasks.retry_read
    movra.Settlement.Tasks.stamp_completed movra.Settlement.Tasks.wrapping
    movra.Settlement.Tasks.◌>>=◌ movra.Settlement.Tasks.◌>>◌ movra.Settlement.Tasks.cancel_payout
    movra.Settlement.Tasks.cancel_read movra.Settlement.Tasks.cancel_stored
    movra.Settlement.Tasks.tell_provider
races = (refl, (refl, refl))

execute-AllSound_example :
    AllSound deployment
      (execute deployment.service two_retries (idle (holding refused_payout))).world
execute-AllSound_example =
    execute-AllSound deployment two_retries (holding refused_payout)
      (payout_7-admitted, (payout_7-admitted, tt)) refused-AllSound

execute-SameOrder_example : SameOrder refused_payout cancelled_7
unfolding movra.Settlement.Wiring.redis_deployment
execute-SameOrder_example =
    execute-SameOrder steady_deployment retry_and_cancel (holding refused_payout) "payout_7"
      refused_payout cancelled_7 (payout_7-admitted, (payout_7-admitted, tt))
      (AllSound-IsKeyed deployment (holding refused_payout) refused-AllSound) payout_7-admitted
      (holding-stored refused_payout) races.1.1

execute-HasReturned_example : HasReturned (
    task_at 0
      (execute steady_deployment.service
        (arrive (retry "payout_7") ∷ ten_turns)
        (idle (holding refused_payout))).tasks)
execute-HasReturned_example =
    execute-HasReturned steady_deployment.service ten_turns (idle (holding refused_payout))
      (retry "payout_7") (omega arith)
