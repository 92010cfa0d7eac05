-- ===== src/Settlement/Tasks/Carefulness.antt =====
-- The program of each request, from internal/service/payout_service.go, by the rules of `Soundness`.
use mathlib.Core.Path.{subst}
use movra.Prelude.{
  String, ◌≡◌, refl, sym, ◌⊎◌, inl, inr, false, Bool-cases, arith, ◌==◌, eq_iff, ne_of_test, not,
  ◌&&◌,
}
use movra.Prelude.Int.{leb_ℤ}
use movra.Prelude.Action.{Result, ok, err, Returned-any}
use movra.Platform.Time.{Time}
use movra.Settlement.Model.{Payout, pending, processing, completed, failed}
use movra.Settlement.Interfaces.{ProviderResult}
use movra.Settlement.Service.{new_payout, with_result}
use movra.Settlement.Service.Lifecycle.{
  Evolves, here, next, begin, refuse, answer, complete, retry, cancel, Evolves-SameOrder,
}
use movra.Settlement.Service.Confined.{Deployment}
use movra.Settlement.Service.Operations.{new_payout-IsPayoutId, open_to_cancel}
use movra.Settlement.Service.Requests.{Request}
use movra.Settlement.Tasks.{
  Call, read_clock, save, get, process, withdraw, Answer, Program, return, call, Task, perform,
  and_then, on_ok, catch, wrapping, ◌>>=◌, ◌>>◌,
}
use movra.Settlement.Tasks
use movra.Settlement.Tasks.Soundness.{
  IsLasting, Careful, Anything, Careful-bind, Careful-then, Careful-pure, Careful-fail,
  Careful-catch, Careful-wrapping, now-Careful, ask-Careful, withdrawal-Careful, get-Careful,
}

module _ {W : Type 0} (d : Deployment W) (P : String → Payout → Type 0)
    (lasting : IsLasting d P) where
  open d use {service, IsPayoutId}
  open d.service use {max_retries}

  -- A payout that was read, or made, and what the service makes of it.
  module _ (p₀ : Payout) (own : IsPayoutId p₀.id) (sound : P p₀.id p₀) where
    abbrev From : Payout → Type 0
    From = Evolves max_retries p₀

    save-Careful : (p : Payout) → From p → Careful d P Anything (Tasks.save_payout p)
    save-Careful p ev =
        let same = (Evolves-SameOrder ev).id in
        record {
          runs = (
            (
              subst IsPayoutId (sym same) own,
              subst (λ k. P k p) (sym same) (lasting.evolves ev sound),
            ),
            λ r _. Returned-any r,
          );
        }

    get_own-Careful : (p : Payout) → From p → Careful d P Anything (Tasks.get_payout p.id)
    get_own-Careful p ev = record {
      runs = (subst IsPayoutId (sym (Evolves-SameOrder ev).id) own, λ r _. Returned-any r);
    }

    failed-Careful :
        (p : Payout) (e : String)
        → p.status ≡ processing
        → From p
        → Careful d P Anything (Tasks.provider_failed p e)
    unfolding Tasks.provider_failed
    failed-Careful p e st ev = Careful-bind d P (now-Careful d P) λ t _.
        Careful-bind d P (Careful-catch d P (save-Careful _ (next ev (refuse p e t st))))
          λ _ _. Careful-fail d P _

    stamp-Careful :
        (p : Payout) (r : ProviderResult) (t : Time)
        → p.status ≡ processing
        → From p
        → Careful d P From (Tasks.stamp_completed (with_result p r t))
    unfolding Tasks.stamp_completed with_result
    stamp-Careful p r t st ev = elim (Bool-cases (r.status == completed)) [
      | inl c ↦ rw c (
          Careful-bind d P (now-Careful d P) λ u _.
            Careful-pure d P _ (next ev (complete p r t u st ((eq_iff r.status completed).0 c))))
      | inr n ↦
          rw n (Careful-pure d P _ (next ev (answer p r t st (ne_of_test r.status completed n))))
    ]

    answered-Careful :
        (p : Payout) (r : ProviderResult)
        → p.status ≡ processing
        → From p
        → Careful d P Anything (Tasks.provider_answered p r)
    unfolding Tasks.provider_answered
    answered-Careful p r st ev = Careful-bind d P (now-Careful d P) λ t _.
        Careful-bind d P (stamp-Careful p r t st ev)
          λ q ev'. Careful-wrapping d P _ (save-Careful q ev')

    after_provider-Careful :
        (p : Payout) (r : Result ProviderResult)
        → p.status ≡ processing
        → From p
        → Careful d P Anything (Tasks.after_provider p r)
    after_provider-Careful p (ok r) st ev = answered-Careful p r st ev
    after_provider-Careful p (err e) st ev = failed-Careful p e st ev

    process-Careful :
        (p : Payout) → p.status ≡ pending → From p → Careful d P Anything (Tasks.process_payout p)
    unfolding Tasks.process_payout
    process-Careful p st ev = Careful-bind d P (now-Careful d P) λ t _.
        let p' = record p { status = processing; updated_at = t } in
        let ev' : From p' = next ev (begin p t st) in
        Careful-then d P (Careful-wrapping d P _ (save-Careful p' ev')) (
          Careful-bind d P (Careful-catch d P (ask-Careful d P p'))
            λ r _. after_provider-Careful p' r refl ev')

    start-Careful : p₀.status ≡ pending → Careful d P Anything (Tasks.start_payout p₀)
    unfolding Tasks.start_payout
    start-Careful st = Careful-then d P (Careful-wrapping d P _ (save-Careful p₀ here)) (
        Careful-bind d P (Careful-catch d P (process-Careful p₀ st here))
          λ _ _. get_own-Careful p₀ here)

    retry_failed-Careful :
        p₀.status ≡ failed
        → leb_ℤ max_retries p₀.retry_count ≡ false
        → Careful d P Anything (Tasks.retry_failed p₀)
    unfolding Tasks.retry_failed
    retry_failed-Careful st below = Careful-bind d P (now-Careful d P) λ t _.
        let ev = next here (retry p₀ t st (ground arith)) in
        Careful-then d P (Careful-wrapping d P _ (save-Careful _ ev)) (
          Careful-bind d P (Careful-catch d P (process-Careful _ refl ev))
            λ _ _. get_own-Careful _ ev)

    retry_read-Careful : Careful d P Anything (Tasks.retry_read max_retries p₀)
    unfolding Tasks.retry_read
    retry_read-Careful = elim (Bool-cases (p₀.status == failed)) [
      | inr n ↦ rw n (Careful-fail d P _)
      | inl f ↦ rw f (elim (Bool-cases (leb_ℤ max_retries p₀.retry_count)) [
        | inl b ↦ rw b (Careful-fail d P _)
        | inr b ↦ rw b (retry_failed-Careful ((eq_iff p₀.status failed).0 f) b)
      ])
    ]

    tell_provider-Careful : Careful d P Anything (Tasks.tell_provider p₀)
    unfolding Tasks.tell_provider
    tell_provider-Careful = elim (Bool-cases (p₀.provider_reference == "")) [
      | inl e ↦ rw e (Careful-pure d P tt tt)
      | inr e ↦ rw e (
          Careful-bind d P (Careful-catch d P (withdrawal-Careful d P _))
            λ _ _. Careful-pure d P tt tt)
    ]

    cancel_stored-Careful :
        (reason : String)
        → (p₀.status ≡ pending) ⊎ (p₀.status ≡ failed)
        → Careful d P Anything (Tasks.cancel_stored p₀ reason)
    unfolding Tasks.cancel_stored
    cancel_stored-Careful reason st = Careful-then d P tell_provider-Careful (
        Careful-bind d P (now-Careful d P) λ t _.
          Careful-then d P
            (Careful-wrapping d P _ (save-Careful _ (next here (cancel p₀ reason t st))))
            (Careful-pure d P _ tt))

    cancel_read-Careful : (reason : String) → Careful d P Anything (Tasks.cancel_read reason p₀)
    unfolding Tasks.cancel_read
    cancel_read-Careful reason =
        elim (Bool-cases (not (p₀.status == pending) && not (p₀.status == failed))) [
          | inl n ↦ rw n (Careful-fail d P _)
          | inr o ↦ rw o (cancel_stored-Careful reason (open_to_cancel d p₀ o))
        ]

  -- A payout that was read under an id has that id.
  read-Careful :
      (id : String) (f : Payout → Task Payout)
      → IsPayoutId id
      → ((p : Payout) → IsPayoutId p.id → P p.id p → Careful d P Anything (f p))
      → Careful d P Anything (Tasks.get_payout id >>= f)
  read-Careful id f i k = Careful-bind d P (get-Careful d P id i) λ p sound.
      k p (subst IsPayoutId (sym (lasting.keyed sound)) i)
        (subst (λ j. P j p) (sym (lasting.keyed sound)) sound)

  -- The request names an id that payouts may have, or starts with a payout with the property.
  abbrev pub Admits : Request → Type 0
  Admits (Request.initiate req) = (t : Time) → P (new_payout req t).id (new_payout req t)
  Admits (Request.retry id) = IsPayoutId id
  Admits (Request.cancel id reason) = IsPayoutId id

  -- The program of each request that is admitted.
  pub task-Careful : (r : Request) → Admits r → Careful d P Anything (Tasks.task max_retries r)
  unfolding Tasks.initiate_payout Tasks.retry_payout Tasks.cancel_payout
  task-Careful (Request.initiate req) i = Careful-bind d P (now-Careful d P) λ t _.
      start-Careful (new_payout req t) (new_payout-IsPayoutId d req t) (i t)
        (unfold new_payout in refl)
  task-Careful (Request.retry id) i =
      read-Careful id _ i λ p own sound. retry_read-Careful p own sound
  task-Careful (Request.cancel id reason) i =
      read-Careful id _ i λ p own sound. cancel_read-Careful p own sound reason
