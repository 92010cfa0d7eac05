-- ===== src/Settlement/Simulated/Answers.antt =====
-- What the simulated provider (internal/provider/simulated.go) answers.
use Prim.Native.String.{count}
use text.Mathlib.TextLemmas.{length-append}
use movra.Prelude.{
  ℕ, zero, suc, String, ◌≡◌, refl, ◌⊎◌, inl, inr, ◌≢◌, true, false, Bool-cases, Option, none, some,
  arith, ◌==◌, eq_iff, ne_of_test,
}
use movra.Prelude.Int.{pos, ◌<ℤ◌}
use movra.Prelude.Action.{Result, ok, err, pure, fail, total, ◌>>=◌}
use movra.Platform.Text.{digit_text}
use movra.Platform.Runtime.{Runtime, RandomLaws}
use movra.Settlement.Model.{Payout, completed, failed, ready_for_pickup, cash_pickup}
use movra.Settlement.Interfaces.{ProviderResult}
use movra.Settlement.Simulated.{
  SimulatedProvider, failure_text, should_fail, pick_digits, generate_pickup_code, paid_out,
  refused, process_after_wait, process_payout, resume,
}

count-digit_text : (n : ℕ) → count (digit_text n) ≡ 1
unfolding digit_text
count-digit_text zero = refl
count-digit_text (suc zero) = refl
count-digit_text (suc (suc zero)) = refl
count-digit_text (suc (suc (suc zero))) = refl
count-digit_text (suc (suc (suc (suc zero)))) = refl
count-digit_text (suc (suc (suc (suc (suc zero))))) = refl
count-digit_text (suc (suc (suc (suc (suc (suc zero)))))) = refl
count-digit_text (suc (suc (suc (suc (suc (suc (suc zero))))))) = refl
count-digit_text (suc (suc (suc (suc (suc (suc (suc (suc zero)))))))) = refl
count-digit_text _ = refl

-- A payout that has gone through: its code has eight characters if it is to be picked up, and it
-- is completed if not.
pub record IsPaidOut (payout : Payout) (r : ProviderResult) : Type 0 where
  pub no_reason : r.failure_reason ≡ ""
  pub by_method :
      ((payout.method ≡ cash_pickup)
        × (r.status ≡ ready_for_pickup)
        × (count r.pickup_code ≡ 8)
        × (r.pickup_expires_at ≢ none))
      ⊎ ((payout.method ≢ cash_pickup)
          × (r.status ≡ completed)
          × (r.pickup_code ≡ "")
          × (r.pickup_expires_at ≡ none))

pub record IsRefusal (r : ProviderResult) : Type 0 where
  pub status : r.status ≡ failed
  pub reason : r.failure_reason ≡ failure_text
  pub no_code : r.pickup_code ≡ ""

module _ {W : Type 0} (runtime : Runtime W) (p : SimulatedProvider) where
  count-pick_digits : (k : ℕ) (w : W) → count (pick_digits runtime p k w).0 ≡ k
  unfolding pick_digits
  count-pick_digits zero w = refl
  count-pick_digits (suc k) w =
      let n = (runtime.rand_int 10 w).0 in
      let w' = (runtime.rand_int 10 w).1 in
      omega (
        arith,
        length-append (digit_text n) (pick_digits runtime p k w').0,
        count-digit_text n,
        count-pick_digits k w',
      )

  -- A call of `m` from `w` has returned a result that satisfies `Q`.
  abbrev pub Gives : (ProviderResult → Type 0) → Result ProviderResult → Type 0
  Gives Q r = (a : ProviderResult) × (r ≡ ok a) × Q a

  paid_out-Gives :
      (payout : Payout) (ref : String) (w : W)
      → Gives (IsPaidOut payout) (paid_out runtime p payout ref w).0
  unfolding paid_out generate_pickup_code ◌>>=◌ total pure
  paid_out-Gives payout ref w = elim (Bool-cases (payout.method == cash_pickup)) [
    | inl c ↦ rw c (
      _,
      refl,
      record {
        no_reason = refl;
        by_method =
            inl ((eq_iff payout.method cash_pickup).0 c, refl, count-pick_digits 8 w, λ e. cc);
      },
    )
    | inr n ↦ rw n (
      _,
      refl,
      record {
        no_reason = refl;
        by_method = inr (ne_of_test payout.method cash_pickup n, refl, refl, refl);
      },
    )
  ]

  refused-Gives : (ref : String) (w : W) → Gives IsRefusal (refused runtime p ref w).0
  unfolding refused pure
  refused-Gives ref w = (_, refl, record { status = refl; reason = refl; no_code = refl })

  after_wait-Gives :
      (payout : Payout) (w : W)
      → let t = runtime.now w in
        ((should_fail runtime p t.1).0 ≡ false
          → Gives (IsPaidOut payout) (process_after_wait runtime p payout w).0)
        × ((should_fail runtime p t.1).0 ≡ true
            → Gives IsRefusal (process_after_wait runtime p payout w).0)
  unfolding process_after_wait ◌>>=◌ total
  after_wait-Gives payout w = (λ e. rw e (paid_out-Gives payout _ _), λ e. rw e (refused-Gives _ _))

  should_fail-below :
      (w : W) → RandomLaws runtime → (should_fail runtime p w).0 ≡ false → p.failure_rate <ℤ pos 100
  unfolding should_fail
  should_fail-below w rnd h = ground (arith, rnd.rand_int_lt 100 w (omega arith))

  should_fail-positive : (w : W) → (should_fail runtime p w).0 ≡ true → pos 0 <ℤ p.failure_rate
  unfolding should_fail
  should_fail-positive w h = ground arith

  -- The world at the end of the wait.
  abbrev waited : W → W
  waited w = (runtime.interrupted p.processing_time w).1

  -- The answer for the way the wait has ended.
  abbrev pub Answer : Payout → Option String → Result ProviderResult → Type 0
  Answer payout (some e) r = r ≡ err e
  Answer payout none r =
      (Gives (IsPaidOut payout) r × (p.failure_rate <ℤ pos 100))
      ⊎ (Gives IsRefusal r × (pos 0 <ℤ p.failure_rate))

  -- For random numbers below their bound, `ProcessPayout` fails with the context's error if the
  -- context ends during the wait; if not, it pays the payout out (ready for pickup with a code of
  -- eight characters and an expiry if it is a cash pickup, completed without a code if not), which
  -- it does only at a failure rate below 100, or refuses it with a reason, which it does only at a
  -- failure rate above 0.
  pub process_payout-Answer :
      (payout : Payout) (w : W)
      → RandomLaws runtime
      → Answer payout
          (runtime.interrupted p.processing_time w).0
          (process_payout runtime p payout w).0
  unfolding process_payout ◌>>=◌ total fail
  process_payout-Answer payout w rnd = resumed (runtime.interrupted p.processing_time w).0
    where
      resumed : (o : Option String) → Answer payout o (resume runtime p payout o (waited w)).0
      resumed (some e) = refl
      resumed none =
          let t = (runtime.now (waited w)).1 in
          let (paid, not_paid) = after_wait-Gives payout (waited w) in
          elim (Bool-cases (should_fail runtime p t).0) [
            | inr goes ↦ inl (paid goes, should_fail-below t rnd goes)
            | inl fails ↦ inr (not_paid fails, should_fail-positive t fails)
          ]
