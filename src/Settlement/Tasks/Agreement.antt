-- ===== src/Settlement/Tasks/Agreement.antt =====
-- The programs of `Tasks` and the operations of `Service`, which are both written after
-- internal/service/payout_service.go.
use movra.Prelude.{String, ◌≡◌, refl, ap, ◌∙◌, Bool-cases, inl, inr, ◌==◌, not, ◌&&◌}
use movra.Prelude.Int.{leb_ℤ}
use movra.Prelude.Action.{Result, ok, err, Action, bind_result}
use movra.Prelude.Action
use movra.Settlement.Model.{Payout, pending, processing, completed, failed}
use movra.Settlement.Interfaces.{ProviderResult}
use movra.Settlement.Service.{PayoutService, InitiatePayoutRequest, new_payout, with_result}
use movra.Settlement.Service
use movra.Settlement.Service.Requests.{Request, initiate, retry, cancel}
use movra.Settlement.Tasks.{
  Program, return, call, Task, interpret, perform, and_then, on_ok, catch, wrapping, ◌>>=◌, ◌>>◌,
}
use movra.Settlement.Tasks

-- A program that, run alone, does what an operation does.
record Agrees {W A : Type 0} (s : PayoutService W) (m : Program A) (r : W → A × W) : Type 0 where
  same : (w : W) → interpret s m w ≡ r w

module _ {W : Type 0} (s : PayoutService W) where
  module _ {A B : Type 0} where
    interpret-and_then :
        (m : Program A) (f : A → Program B) (w : W)
        → interpret s (and_then m f) w ≡ interpret s (f (interpret s m w).0) (interpret s m w).1
    unfolding interpret and_then
    interpret-and_then (return a) f w = refl
    interpret-and_then (call c k) f w = interpret-and_then (k (perform s c w).0) f (perform s c w).1

    Agrees-map :
        {m : Program A} {r : W → A × W} (f : A → B)
        → Agrees s m r
        → Agrees s (and_then m (λ a. return (f a))) (λ w. (f (r w).0, (r w).1))
    unfolding interpret
    Agrees-map {m} {r} f h = record {
      same = λ w.
          interpret-and_then m (λ a. return (f a)) w ∙ ap (λ (v : A × W). (f v.0, v.1)) (h.same w);
    }

  module _ {A B : Type 0} where
    Agrees-bind :
        {m : Task A} {r : Action W A} {f : A → Task B} {g : A → Action W B}
        → Agrees s m r
        → ((a : A) → Agrees s (f a) (g a))
        → Agrees s (m >>= f) (Action.◌>>=◌ r g)
    unfolding interpret ◌>>=◌ Action.◌>>=◌
    Agrees-bind {m} {r} {f} {g} h k = record {
      same = λ w.
          interpret-and_then m (on_ok f) w
          ∙ next (interpret s m w).0 (interpret s m w).1
          ∙ ap (λ (v : Result A × W). bind_result v.0 v.1 g) (h.same w);
    }
      where
        next : (x : Result A) (w : W) → interpret s (on_ok f x) w ≡ bind_result x w g
        next (ok a) w = (k a).same w
        next (err e) w = refl

    Agrees-then :
        {m : Task A} {r : Action W A} {f : Task B} {g : Action W B}
        → Agrees s m r
        → Agrees s f g
        → Agrees s (m >> f) (Action.◌>>◌ r g)
    unfolding ◌>>◌ Action.◌>>◌
    Agrees-then h k = Agrees-bind h (λ _. k)

  module _ {A : Type 0} where
    Agrees-pure : (a : A) → Agrees s (Tasks.pure a) (Action.pure a)
    unfolding interpret Action.pure
    Agrees-pure a = record { same = λ w. refl }

    Agrees-fail : (e : String) → Agrees s (Tasks.fail {A = A} e) (Action.fail e)
    unfolding interpret Action.fail
    Agrees-fail e = record { same = λ w. refl }

    Agrees-catch :
        {m : Task A} {r : Action W A} → Agrees s m r → Agrees s (catch m) (Action.catch r)
    unfolding catch Action.catch
    Agrees-catch h = Agrees-map ok h

    Agrees-wrapping :
        {m : Task A} {r : Action W A} (f : String → String)
        → Agrees s m r
        → Agrees s (wrapping f m) (Action.wrapping f r)
    unfolding wrapping Action.wrapping
    Agrees-wrapping f h = Agrees-map (Action.map_error f) h

  now-Agrees : Agrees s Tasks.now (Action.total s.runtime.now)
  unfolding interpret perform Action.total
  now-Agrees = record { same = λ w. refl }

  save-Agrees : (p : Payout) → Agrees s (Tasks.save_payout p) (s.repo.save_payout p)
  unfolding interpret perform
  save-Agrees p = record { same = λ w. refl }

  get-Agrees : (id : String) → Agrees s (Tasks.get_payout id) (s.repo.get_payout id)
  unfolding interpret perform
  get-Agrees id = record { same = λ w. refl }

  ask-Agrees : (p : Payout) → Agrees s (Tasks.ask_provider p) (s.provider.process_payout p)
  unfolding interpret perform
  ask-Agrees p = record { same = λ w. refl }

  withdrawal-Agrees :
      (reference : String)
      → Agrees s (Tasks.tell_withdrawal reference) (s.provider.cancel_payout reference)
  unfolding interpret perform
  withdrawal-Agrees reference = record { same = λ w. refl }

  stamp-Agrees : (p : Payout) → Agrees s (Tasks.stamp_completed p) (Service.stamp_completed s p)
  unfolding Tasks.stamp_completed Service.stamp_completed
  stamp-Agrees p = elim (Bool-cases (p.status == completed)) [
    | inl c ↦ rw c (Agrees-bind now-Agrees λ t. Agrees-pure _)
    | inr n ↦ rw n (Agrees-pure _)
  ]

  failed-Agrees :
      (p : Payout) (e : String)
      → Agrees s (Tasks.provider_failed p e) (Service.provider_failed s p e)
  unfolding Tasks.provider_failed Service.provider_failed
  failed-Agrees p e =
      Agrees-bind now-Agrees λ t. Agrees-bind (Agrees-catch (save-Agrees _)) λ _. Agrees-fail _

  answered-Agrees :
      (p : Payout) (r : ProviderResult)
      → Agrees s (Tasks.provider_answered p r) (Service.provider_answered s p r)
  unfolding Tasks.provider_answered Service.provider_answered
  answered-Agrees p r =
      Agrees-bind now-Agrees
        λ t. Agrees-bind (stamp-Agrees (with_result p r t)) λ q. Agrees-wrapping _ (save-Agrees q)

  after_provider-Agrees :
      (p : Payout) (r : Result ProviderResult)
      → Agrees s (Tasks.after_provider p r) (Service.after_provider s p r)
  after_provider-Agrees p (ok r) = answered-Agrees p r
  after_provider-Agrees p (err e) = failed-Agrees p e

  process-Agrees : (p : Payout) → Agrees s (Tasks.process_payout p) (Service.process_payout s p)
  unfolding Tasks.process_payout Service.process_payout
  process-Agrees p = Agrees-bind now-Agrees λ t. Agrees-then (Agrees-wrapping _ (save-Agrees _)) (
      Agrees-bind (Agrees-catch (ask-Agrees _))
        λ r. after_provider-Agrees (record p { status = processing; updated_at = t }) r)

  start-Agrees : (p : Payout) → Agrees s (Tasks.start_payout p) (Service.start_payout s p)
  unfolding Tasks.start_payout Service.start_payout
  start-Agrees p =
      Agrees-then (Agrees-wrapping _ (save-Agrees p))
        (Agrees-bind (Agrees-catch (process-Agrees p)) λ _. get-Agrees _)

  initiate-Agrees :
      (req : InitiatePayoutRequest)
      → Agrees s (Tasks.initiate_payout req) (Service.initiate_payout s req)
  unfolding Tasks.initiate_payout Service.initiate_payout
  initiate-Agrees req = Agrees-bind now-Agrees λ t. start-Agrees (new_payout req t)

  retry_failed-Agrees : (p : Payout) → Agrees s (Tasks.retry_failed p) (Service.retry_failed s p)
  unfolding Tasks.retry_failed Service.retry_failed
  retry_failed-Agrees p = Agrees-bind now-Agrees λ t.
      Agrees-then (Agrees-wrapping _ (save-Agrees _))
        (Agrees-bind (Agrees-catch (process-Agrees (Tasks.reset p t))) λ _. get-Agrees _)

  retry-Agrees :
      (id : String) → Agrees s (Tasks.retry_payout s.max_retries id) (Service.retry_payout s id)
  unfolding Tasks.retry_payout Tasks.retry_read Service.retry_payout
  retry-Agrees id = Agrees-bind (get-Agrees id) λ p. elim (Bool-cases (p.status == failed)) [
    | inr n ↦ rw n (Agrees-fail _)
    | inl f ↦ rw f (elim (Bool-cases (leb_ℤ s.max_retries p.retry_count)) [
      | inl b ↦ rw b (Agrees-fail _)
      | inr b ↦ rw b (retry_failed-Agrees p)
    ])
  ]

  tell_provider-Agrees : (p : Payout) → Agrees s (Tasks.tell_provider p) (Service.tell_provider s p)
  unfolding Tasks.tell_provider Service.tell_provider
  tell_provider-Agrees p = elim (Bool-cases (p.provider_reference == "")) [
    | inl e ↦ rw e (Agrees-pure tt)
    | inr e ↦ rw e (Agrees-bind (Agrees-catch (withdrawal-Agrees _)) λ _. Agrees-pure tt)
  ]

  cancel_stored-Agrees :
      (p : Payout) (reason : String)
      → Agrees s (Tasks.cancel_stored p reason) (Service.cancel_stored s p reason)
  unfolding Tasks.cancel_stored Service.cancel_stored
  cancel_stored-Agrees p reason =
      Agrees-then (tell_provider-Agrees p) (
        Agrees-bind now-Agrees λ t. Agrees-then (Agrees-wrapping _ (save-Agrees _)) (Agrees-pure _))

  cancel-Agrees :
      (id reason : String)
      → Agrees s (Tasks.cancel_payout id reason) (Service.cancel_payout s id reason)
  unfolding Tasks.cancel_payout Tasks.cancel_read Service.cancel_payout
  cancel-Agrees id reason = Agrees-bind (get-Agrees id) λ p.
      elim (Bool-cases (not (p.status == pending) && not (p.status == failed))) [
        | inl n ↦ rw n (Agrees-fail _)
        | inr o ↦ rw o (cancel_stored-Agrees p reason)
      ]

  -- What the service returns for a request.
  abbrev pub operation : Request → Action W Payout
  operation (initiate req) = Service.initiate_payout s req
  operation (retry id) = Service.retry_payout s id
  operation (cancel id reason) = Service.cancel_payout s id reason

  -- The program of calls of `InitiatePayout`, `RetryPayout` or `CancelPayout`, run with no other
  -- request between its calls, returns what the operation returns and leaves the world that it
  -- leaves.
  pub interpret-operation :
      (r : Request) (w : W) → interpret s (Tasks.task s.max_retries r) w ≡ operation r w
  interpret-operation (initiate req) w = (initiate-Agrees req).same w
  interpret-operation (retry id) w = (retry-Agrees id).same w
  interpret-operation (cancel id reason) w = (cancel-Agrees id reason).same w
