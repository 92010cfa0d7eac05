-- ===== src/Settlement/Tasks/Progress.antt =====
-- How many calls the program of a request makes at most.
use movra.Prelude.{ℕ, zero, suc, String, Bool-cases, inl, inr, ◌==◌, not, ◌&&◌}
use movra.Prelude.Int.{ℤ, leb_ℤ}
use movra.Prelude.Action.{Result, ok, err}
use movra.Settlement.Model.{Payout, processing, completed, pending, failed}
use movra.Settlement.Interfaces.{ProviderResult}
use movra.Settlement.Service.{new_payout, with_result}
use movra.Settlement.Service.Requests.{Request}
use movra.Settlement.Tasks.{
  Call, Answer, Program, return, call, Task, and_then, on_ok, catch, wrapping, ◌>>=◌, ◌>>◌, reset,
}
use movra.Settlement.Tasks

-- At most so many calls, whatever they are answered with.
abbrev pub Makes : {A : Type 0} → ℕ → Program A → Type 0
Makes n (return a) = Unit
Makes zero (call c k) = ⊥
Makes (suc n) (call c k) = (a : Answer c) → Makes n (k a)

-- The sum, by the first number.
abbrev more : ℕ → ℕ → ℕ
more zero k = k
more (suc n) k = suc (more n k)

record AtMost {A : Type 0} (n : ℕ) (m : Program A) : Type 0 where
  makes : Makes n m

Makes-suc : {A : Type 0} (n : ℕ) (m : Program A) → Makes n m → Makes (suc n) m
Makes-suc n (return a) h = tt
Makes-suc zero (call c k) h = absurd h
Makes-suc (suc n) (call c k) h = λ a. Makes-suc n (k a) (h a)

Makes-more : {A : Type 0} (n k : ℕ) (m : Program A) → Makes k m → Makes (more n k) m
Makes-more zero k m h = h
Makes-more (suc n) k m h = Makes-suc (more n k) m (Makes-more n k m h)

module _ {A B : Type 0} where
  Makes-and_then :
      (n k : ℕ) (m : Program A) (f : A → Program B)
      → Makes n m
      → ((a : A) → Makes k (f a))
      → Makes (more n k) (and_then m f)
  unfolding and_then
  Makes-and_then n k (return a) f h g = Makes-more n k (f a) (g a)
  Makes-and_then zero k (call c next) f h g = absurd h
  Makes-and_then (suc n) k (call c next) f h g = λ a. Makes-and_then n k (next a) f (h a) g

module _ {A B : Type 0} where
  AtMost-bind :
      {n k : ℕ} {m : Task A} {f : A → Task B}
      → AtMost n m
      → ((a : A) → AtMost k (f a))
      → AtMost (more n k) (m >>= f)
  unfolding ◌>>=◌
  AtMost-bind {n} {k} {m} {f} h g = record { makes = Makes-and_then n k m (on_ok f) h.makes next }
    where
      next : (r : Result A) → Makes k (on_ok f r)
      next (ok a) = (g a).makes
      next (err e) = tt

  AtMost-then :
      {n k : ℕ} {m : Task A} {f : Task B} → AtMost n m → AtMost k f → AtMost (more n k) (m >> f)
  unfolding ◌>>◌
  AtMost-then h g = AtMost-bind h (λ _. g)

module _ {A : Type 0} where
  AtMost-pure : {n : ℕ} (a : A) → AtMost n (Tasks.pure a)
  AtMost-pure a = record { makes = tt }

  AtMost-fail : {n : ℕ} (e : String) → AtMost n (Tasks.fail {A = A} e)
  AtMost-fail e = record { makes = tt }

  AtMost-catch : {n : ℕ} {m : Task A} → AtMost n m → AtMost (more n 0) (catch m)
  unfolding catch
  AtMost-catch {n} {m} h = record { makes = Makes-and_then n 0 m _ h.makes (λ r. tt) }

  AtMost-wrapping :
      {n : ℕ} {m : Task A} (f : String → String) → AtMost n m → AtMost (more n 0) (wrapping f m)
  unfolding wrapping
  AtMost-wrapping {n} {m} f h = record { makes = Makes-and_then n 0 m _ h.makes (λ r. tt) }

now-AtMost : AtMost 1 Tasks.now
now-AtMost = record { makes = λ a. tt }

save-AtMost : (p : Payout) → AtMost 1 (Tasks.save_payout p)
save-AtMost p = record { makes = λ a. tt }

get-AtMost : (id : String) → AtMost 1 (Tasks.get_payout id)
get-AtMost id = record { makes = λ a. tt }

ask-AtMost : (p : Payout) → AtMost 1 (Tasks.ask_provider p)
ask-AtMost p = record { makes = λ a. tt }

withdrawal-AtMost : (reference : String) → AtMost 1 (Tasks.tell_withdrawal reference)
withdrawal-AtMost reference = record { makes = λ a. tt }

stamp-AtMost : (p : Payout) → AtMost 1 (Tasks.stamp_completed p)
unfolding Tasks.stamp_completed
stamp-AtMost p = elim (Bool-cases (p.status == completed)) [
  | inl c ↦ rw c (AtMost-bind {k = 0} now-AtMost λ t. AtMost-pure _)
  | inr n ↦ rw n (AtMost-pure _)
]

failed-AtMost : (p : Payout) (e : String) → AtMost 3 (Tasks.provider_failed p e)
unfolding Tasks.provider_failed
failed-AtMost p e =
    AtMost-bind {n = 1} {k = 2} now-AtMost
      λ t. AtMost-bind {n = 1} {k = 1} (AtMost-catch (save-AtMost _)) λ _. AtMost-fail _

answered-AtMost : (p : Payout) (r : ProviderResult) → AtMost 3 (Tasks.provider_answered p r)
unfolding Tasks.provider_answered
answered-AtMost p r = AtMost-bind {n = 1} {k = 2} now-AtMost λ t.
    AtMost-bind {n = 1} {k = 1} (stamp-AtMost (with_result p r t))
      λ q. AtMost-wrapping _ (save-AtMost q)

after_provider-AtMost :
    (p : Payout) (r : Result ProviderResult) → AtMost 3 (Tasks.after_provider p r)
after_provider-AtMost p (ok r) = answered-AtMost p r
after_provider-AtMost p (err e) = failed-AtMost p e

process-AtMost : (p : Payout) → AtMost 6 (Tasks.process_payout p)
unfolding Tasks.process_payout
process-AtMost p = AtMost-bind {n = 1} {k = 5} now-AtMost λ t.
    AtMost-then {n = 1} {k = 4} (AtMost-wrapping _ (save-AtMost _)) (
      AtMost-bind {n = 1} {k = 3} (AtMost-catch (ask-AtMost _))
        λ r. after_provider-AtMost (record p { status = processing; updated_at = t }) r)

start-AtMost : (p : Payout) → AtMost 8 (Tasks.start_payout p)
unfolding Tasks.start_payout
start-AtMost p =
    AtMost-then {n = 1} {k = 7} (AtMost-wrapping _ (save-AtMost p))
      (AtMost-bind {n = 6} {k = 1} (AtMost-catch (process-AtMost p)) λ _. get-AtMost _)

retry_failed-AtMost : (p : Payout) → AtMost 9 (Tasks.retry_failed p)
unfolding Tasks.retry_failed
retry_failed-AtMost p = AtMost-bind {n = 1} {k = 8} now-AtMost λ t.
    AtMost-then {n = 1} {k = 7} (AtMost-wrapping _ (save-AtMost _))
      (AtMost-bind {n = 6} {k = 1} (AtMost-catch (process-AtMost (reset p t))) λ _. get-AtMost _)

retry_read-AtMost : (m : ℤ) (p : Payout) → AtMost 9 (Tasks.retry_read m p)
unfolding Tasks.retry_read
retry_read-AtMost m p = elim (Bool-cases (p.status == failed)) [
  | inr n ↦ rw n (AtMost-fail _)
  | inl f ↦ rw f (elim (Bool-cases (leb_ℤ m p.retry_count)) [
    | inl b ↦ rw b (AtMost-fail _)
    | inr b ↦ rw b (retry_failed-AtMost p)
  ])
]

tell_provider-AtMost : (p : Payout) → AtMost 1 (Tasks.tell_provider p)
unfolding Tasks.tell_provider
tell_provider-AtMost p = elim (Bool-cases (p.provider_reference == "")) [
  | inl e ↦ rw e (AtMost-pure tt)
  | inr e ↦
      rw e (AtMost-bind {n = 1} {k = 0} (AtMost-catch (withdrawal-AtMost _)) λ _. AtMost-pure tt)
]

cancel_stored-AtMost : (p : Payout) (reason : String) → AtMost 9 (Tasks.cancel_stored p reason)
unfolding Tasks.cancel_stored
cancel_stored-AtMost p reason = AtMost-then {n = 1} {k = 8} (tell_provider-AtMost p) (
    AtMost-bind {n = 1} {k = 7} now-AtMost
      λ t. AtMost-then {n = 1} {k = 6} (AtMost-wrapping _ (save-AtMost _)) (AtMost-pure _))

cancel_read-AtMost : (reason : String) (p : Payout) → AtMost 9 (Tasks.cancel_read reason p)
unfolding Tasks.cancel_read
cancel_read-AtMost reason p =
    elim (Bool-cases (not (p.status == pending) && not (p.status == failed))) [
      | inl n ↦ rw n (AtMost-fail _)
      | inr o ↦ rw o (cancel_stored-AtMost p reason)
    ]

task-AtMost : (m : ℤ) (r : Request) → AtMost 10 (Tasks.task m r)
unfolding Tasks.initiate_payout Tasks.retry_payout Tasks.cancel_payout
task-AtMost m (Request.initiate req) = AtMost-bind {n = 1} {k = 9} now-AtMost λ t. record {
  makes =
      Makes-suc 8 (Tasks.start_payout (new_payout req t)) (start-AtMost (new_payout req t)).makes;
}
task-AtMost m (Request.retry id) =
    AtMost-bind {n = 1} {k = 9} (get-AtMost id) λ p. retry_read-AtMost m p
task-AtMost m (Request.cancel id reason) =
    AtMost-bind {n = 1} {k = 9} (get-AtMost id) λ p. cancel_read-AtMost reason p

-- No request makes more than ten calls.
pub task-Makes : (m : ℤ) (r : Request) → Makes 10 (Tasks.task m r)
task-Makes m r = (task-AtMost m r).makes
