-- ===== src/Settlement/Wiring.antt =====
-- cmd/server/main.go: the payout service over the Redis repository and the simulated provider,
-- and the laws that `Service` assumes.
pub mod Defaults
use movra.Prelude.{
  ℕ, ◌*◌, String, ◌≡◌, refl, sym, ◌∙◌, ap, ◌≢◌, Bool, true, false, Bool-cases, inl, inr, Option,
  none, some, ◌==◌, if◌then◌else◌, arith, ne_of_test,
}
use Prim.Native.String.{◌++◌}
use Prim.Native.Char.{code}
use text.Mathlib.TextLemmas.{cons-append, head-eq_of_cons-eq}
use movra.Prelude.Int.{ℤ, pos, leb_ℤ}
use movra.Prelude.Action.{
  Action, pure, total, Keeps, Keeps-of, Ensures-pure, Ensures-fail, Ensures-bind, Keeps-total,
}
use movra.Platform.Time.{second, unix_nano}
use movra.Platform.Text.{int_text}
use movra.Platform.Runtime.{Runtime}
use movra.Redis
use movra.Redis.{Client}
use movra.Settlement.Config.{Config}
use movra.Settlement.Model.{Payout, cash_pickup}
use movra.Settlement.Interfaces.{PayoutProvider, PayoutRepository, Laws}
use movra.Settlement.Simulated.{
  SimulatedProvider, simulated_provider, should_fail, pick_digits, generate_pickup_code, paid_out,
  refused, process_after_wait, process_payout, resume, cancel_payout,
}
use movra.Settlement.Repository.{Bytes, redis_repository}
use movra.Settlement.Repository.Stored.{
  IsPayoutId, decoded, payout_key, stored, save_ok, save_written, save_others, get_found, get_keeps,
}
use movra.Settlement.Service.{PayoutService}
use movra.Settlement.Service.Confined.{Deployment}

-- The `switch` on the type of the provider.
unfoldable pub configured_provider : Config → SimulatedProvider
configured_provider c =
    if c.provider_type == "simulated"
    then record {
      failure_rate = c.provider_failure_rate;
      processing_time = c.provider_processing_time;
    }
    else record { failure_rate = pos 10; processing_time = pos (2 * second) }

unfoldable pub new_service :
    {W : Type 0} → Client Bytes W → Runtime W → ℕ → Config → PayoutService W
unfolding configured_provider
new_service client runtime fuel c = record {
  repo = redis_repository client runtime fuel;
  provider = simulated_provider runtime (configured_provider c);
  runtime = runtime;
  max_retries = c.max_retries;
}

-- The clock, the random numbers and the waits leave the server's contents alone.
pub record Apart {W V : Type 0} (rt : Runtime W) (peek : W → String → Option V) : Type 0 where
  pub now_apart : (w : W) (k : String) → peek (rt.now w).1 k ≡ peek w k
  pub rand_apart : (max : ℕ) (w : W) (k : String) → peek (rt.rand_int max w).1 k ≡ peek w k
  pub wait_apart : (d : ℤ) (w : W) (k : String) → peek (rt.interrupted d w).1 k ≡ peek w k

module _ {W : Type 0} (runtime : Runtime W) (peek : W → String → Option Bytes)
    (apart : Apart runtime peek) (sim : SimulatedProvider) (w₀ : W) where
  abbrev Same : W → Type 0
  Same w = (k : String) → peek w k ≡ peek w₀ k

  now-Same : Keeps {E = String} Same (total runtime.now)
  now-Same = Keeps-total runtime.now λ w h k. apart.now_apart w k ∙ h k

  fail-Same : Keeps {E = String} Same (total (should_fail runtime sim))
  fail-Same = Keeps-total (should_fail runtime sim) λ w h k. same w k ∙ h k
    where
      same : (w : W) (k : String) → peek (should_fail runtime sim w).1 k ≡ peek w k
      same w k = elim (Bool-cases (leb_ℤ sim.failure_rate (pos 0))) [
        | inl e ↦ unfold should_fail in rw e
        | inr n ↦ unfold should_fail in rw n (apart.rand_apart 100 w k)
      ]

  pick-Same : (n : ℕ) (w : W) (k : String) → peek (pick_digits runtime sim n w).1 k ≡ peek w k
  unfolding pick_digits
  pick-Same Prim.Native.Nat.zero w k = refl
  pick-Same (Prim.Native.Nat.suc n) w k =
      pick-Same n (runtime.rand_int 10 w).1 k ∙ apart.rand_apart 10 w k

  code-Same : Keeps {E = String} Same (total (generate_pickup_code runtime sim))
  unfolding generate_pickup_code
  code-Same = Keeps-total (pick_digits runtime sim 8) λ w h k. pick-Same 8 w k ∙ h k

  paid_out-Same : (p : Payout) (ref : String) → Keeps Same (paid_out runtime sim p ref)
  unfolding paid_out
  paid_out-Same p ref = elim (Bool-cases (p.method == cash_pickup)) [
    | inl c ↦ rw c (Ensures-bind code-Same λ code _. Ensures-bind now-Same λ t _. Ensures-pure _ tt)
    | inr n ↦ rw n (Ensures-pure _ tt)
  ]

  refused-Same : (ref : String) → Keeps Same (refused runtime sim ref)
  unfolding refused
  refused-Same ref = Ensures-pure _ tt

  after_wait-Same : (p : Payout) → Keeps Same (process_after_wait runtime sim p)
  unfolding process_after_wait
  after_wait-Same p =
      Ensures-bind now-Same λ t _. Ensures-bind fail-Same λ failing _. branch t failing
    where
      branch :
          (t : ℕ) (failing : Bool)
          → Keeps Same (
              if failing
              then refused runtime sim ("SIM_" ++ int_text (unix_nano t))
              else paid_out runtime sim p ("SIM_" ++ int_text (unix_nano t)))
      branch t true = refused-Same _
      branch t false = paid_out-Same p _

  resume-Same : (p : Payout) (o : Option String) → Keeps Same (resume runtime sim p o)
  resume-Same p none = after_wait-Same p
  resume-Same p (some e) = Ensures-fail e

  process-Same : (p : Payout) → Keeps Same (process_payout runtime sim p)
  unfolding process_payout
  process-Same p =
      Ensures-bind
        (Keeps-total (runtime.interrupted sim.processing_time)
          λ w h k. apart.wait_apart sim.processing_time w k ∙ h k)
        λ o _. resume-Same p o

module _ {W : Type 0} (client : Client Bytes W) (runtime : Runtime W)
    (peek : W → String → Option Bytes) (laws : Redis.Laws client peek) (apart : Apart runtime peek)
    (fuel : ℕ) (c : Config) where
  abbrev service : PayoutService W
  service = new_service client runtime fuel c

  abbrev held : W → String → Option Payout
  held = stored client runtime peek laws

  -- An id that the service makes up is no key of the index.
  new_id : (s : String) → IsPayoutId ("payout_" ++ s)
  new_id s t e =
      let heads =
        head-eq_of_cons-eq (sym (cons-append "p" "ayout_" s) ∙ e ∙ cons-append "t" "ransfer:" t) in
      absurd (omega (arith, ap code heads))

  -- Over a Redis server that keeps its laws, and a clock, random numbers and waits that leave it
  -- alone, the Redis repository and the simulated provider keep every law that the payout service
  -- assumes.
  pub service-Laws : Laws service.repo service.provider service.runtime IsPayoutId held
  unfolding new_service redis_repository simulated_provider cancel_payout pure
  service-Laws = record {
    new_id = new_id;
    save_ok = save_ok client runtime peek laws;
    save_written = save_written client runtime peek laws;
    save_others = save_others client runtime peek laws;
    get_found = λ id w h. get_found client runtime peek laws id w h;
    get_keeps = get_keeps client runtime peek laws;
    process_keeps = λ p w j. ap decoded (
        (process-Same runtime peek apart (configured_provider c) w p).keeps w (λ k. refl)
          (payout_key j));
    cancel_keeps = λ r w j. refl;
    now_keeps = λ w j. ap decoded (apart.now_apart w (payout_key j));
  }

  unfoldable pub redis_deployment : Deployment W
  redis_deployment = record {
    service = service;
    IsPayoutId = IsPayoutId;
    stored = held;
    laws = service-Laws;
  }
