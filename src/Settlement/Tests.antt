-- ===== src/Settlement/Tests.antt =====
-- The service over a server in memory: concrete runs for the theorems.
mod Runs
mod Values
mod Store
mod Races
mod Events
use Prim.Native.String.{◌++◌}
use mathlib.Core.Path.{subst}
use text.Mathlib.TextLemmas.{append_cancel_left}
use movra.Prelude.{
  ℕ, String, ◌≡◌, refl, sym, ◌∙◌, ap, ◌⊎◌, inl, inr, ◌≢◌, Bool, true, false, Bool-cases, Option,
  some, none, arith, ◌==◌, eq_iff, eq_refl, same_or_not, test_of_ne, ne_of_test, List, [], ◌∷◌,
  if◌then◌else◌,
}
use movra.Prelude.Int.{ℤ, pos, ◌<ℤ◌, ◌≤ℤ◌}
use movra.Prelude.Action.{Result, ok, err, wrapping, map_error}
use movra.Redis.{Reply}
use movra.Redis.Memory.{
  World, memory, steady, ticking, peek, memory-Laws, steady-Laws, ticking-RandomLaws, lookup,
  answer,
}
use movra.Settlement.Model.{
  Payout, Recipient, zero_recipient, zero_payout, pending, processing, completed, failed,
  cash_pickup, bank_account,
}
use movra.Settlement.Interfaces.{ProviderResult, Laws}
use movra.Settlement.Json.{payout_fields, marshal_payout, unmarshal_payout}
use movra.Settlement.Json.Roundtrip.{unmarshal-marshal_payout}
use movra.Settlement.Repository.{
  Bytes, json, unmarshal, redis_repository, save_payout, get_payout, read_payout,
}
use movra.Settlement.Repository.Stored.{IsPayoutId, decoded, payout_key}
use movra.Settlement.Service.{PayoutService, InitiatePayoutRequest, with_result}
use movra.Settlement.Service.Lifecycle.{Step, Evolves, here, next, begin, complete, retry}
use movra.Settlement.Service.Confined.{Deployment}
use movra.Settlement.Service.Requests.{Request, IsSound, AllSound}
use movra.Settlement.Service.Reliable.{IsReliable}
use movra.Settlement.Config.{Config}
use movra.Settlement.Wiring.{Apart, new_service, redis_deployment}

abbrev settings : Config
settings = record {
  http_port = "8083";
  grpc_port = "9083";
  redis_addr = "localhost:6379";
  redis_password = "";
  redis_db = pos 0;
  kafka_brokers = "localhost:9092";
  kafka_consumer_group = "settlement-service";
  kafka_topic_funded = "transfer.funded";
  kafka_topic_status = "payout.status";
  retry_interval = pos 5;
  provider_type = "simulated";
  provider_failure_rate = pos 0;
  provider_processing_time = pos 5;
  max_retries = pos 3;
}

memory-Apart : (stopped : Option String) → Apart {V = Bytes} (ticking stopped) peek
memory-Apart stopped = record {
  now_apart = λ w k. refl;
  rand_apart = λ max w k. refl;
  wait_apart = λ d w k. refl;
}

abbrev deployment : Deployment (World Bytes)
deployment = redis_deployment memory (ticking none) peek memory-Laws (memory-Apart none) 3 settings

abbrev steady_deployment : Deployment (World Bytes)
steady_deployment =
    redis_deployment steady (ticking none) peek steady-Laws (memory-Apart none) 3 settings

abbrev empty_world : World Bytes
empty_world = record { entries = []; clock = 1000; faults = [] }

abbrev holding : Payout → World Bytes
holding p = record {
  entries = (payout_key p.id, json (marshal_payout p)) ∷ [];
  clock = 5000;
  faults = false ∷ true ∷ [];
}

abbrev order : InitiatePayoutRequest
order = record {
  transfer_id = "t1";
  method = cash_pickup;
  amount = "100.00";
  currency = "PHP";
  recipient = record zero_recipient { type = cash_pickup; first_name = "Ana" };
}

abbrev refused_payout : Payout
refused_payout = record zero_payout {
  id = "payout_7";
  transfer_id = "t7";
  status = failed;
  method = bank_account;
  amount = "25.00";
  currency = "PHP";
  failure_reason = "provider error: timeout";
  retry_count = pos 2;
}

abbrev stuck_payout : Payout
stuck_payout = record refused_payout { status = processing; failure_reason = "" }

decoded_marshalled : (p : Payout) → decoded (some (json (marshal_payout p))) ≡ some p
unfolding unmarshal
decoded_marshalled p = rw (unmarshal-marshal_payout p, decoded)

payout_7-IsPayoutId : IsPayoutId "payout_7"
unfolding redis_deployment
payout_7-IsPayoutId = deployment.laws.new_id "7"

payout_7-admitted : deployment.IsPayoutId "payout_7"
payout_7-admitted = deployment.laws.new_id "7"

holding-stored : (p : Payout) → deployment.stored (holding p) p.id ≡ some p
unfolding redis_deployment
holding-stored p = rw (eq_refl (payout_key p.id), decoded_marshalled p)

holding-AllSound : (p : Payout) → IsSound (pos 3) p.id p → AllSound deployment (holding p)
unfolding redis_deployment new_service
holding-AllSound p h j i q e = elim (same_or_not j p.id) [
  | inl x ↦ rw x (
      subst (IsSound (pos 3) p.id)
        (same q
          (sym (holding-stored p) ∙ subst (λ k. deployment.stored (holding p) k ≡ some q) x e))
        h)
  | inr n ↦ absurd (none_ne q (sym (nothing n) ∙ e))
]
  where
    same : (q : Payout) → some p ≡ some q → p ≡ q
    same q e = cc

    none_ne : (q : Payout) → none ≢ some q
    none_ne q e = cc

    nothing : j ≢ p.id → deployment.stored (holding p) j ≡ none
    nothing n = rw (
        test_of_ne (payout_key p.id) (payout_key j)
          (λ x. n (sym (append_cancel_left "payout:" p.id j x))))

empty-AllSound : AllSound deployment empty_world
unfolding redis_deployment new_service
empty-AllSound j i q e = cc

refused-AllSound : AllSound deployment (holding refused_payout)
refused-AllSound = holding-AllSound refused_payout record {
  keyed = refl;
  nonneg = omega arith;
  bounded = inl (omega arith);
  dated = λ x. absurd (ne_of_test failed completed refl x);
}

stuck-AllSound : AllSound deployment (holding stuck_payout)
stuck-AllSound = holding-AllSound stuck_payout record {
  keyed = refl;
  nonneg = omega arith;
  bounded = inl (omega arith);
  dated = λ x. absurd (ne_of_test processing completed refl x);
}

steady-IsReliable : IsReliable steady_deployment
unfolding redis_deployment new_service redis_repository save_payout get_payout wrapping
steady-IsReliable = record {
  saves = λ p w. refl;
  answers = λ id w p e. found id (lookup (payout_key id) w.entries) p e;
}
  where
    reading :
        (id : String) (r : Result Payout) (p : Payout)
        → (elim r [ ok q ↦ some q | err e ↦ none ]) ≡ some p
        → map_error (λ x. "unmarshal payout: " ++ x) r ≡ ok p
    reading id (ok q) p e = cc
    reading id (err x) p e = cc

    found :
        (id : String) (o : Option Bytes) (p : Payout)
        → decoded o ≡ some p
        → read_payout steady (ticking none) id (answer o) ≡ ok p
    found id none p e = cc
    found id (some b) p e = reading id (unmarshal b) p e
