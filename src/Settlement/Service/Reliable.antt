-- ===== src/Settlement/Service/Reliable.antt =====
-- Runs over a store that answers: what the caller of `InitiatePayout` gets for each answer of the
-- provider.
use mathlib.Core.Path.{subst}
use movra.Prelude.{
  String, ◌≡◌, refl, ne_of_test, sym, ◌∙◌, inl, inr, Bool-cases, some, ◌==◌, eq_iff,
}
use movra.Prelude.Action.{Result, ok, err, pure, fail, total, catch, wrapping, ◌>>=◌, ◌>>◌}
use movra.Platform.Time.{Time}
use movra.Settlement.Model.{Payout, processing, completed, failed}
use movra.Settlement.Interfaces.{ProviderResult}
use movra.Settlement.Service.{
  InitiatePayoutRequest, with_result, stamp_completed, provider_failed, provider_answered,
  after_provider, process_payout, start_payout, initiate_payout,
}
use movra.Settlement.Service.Lifecycle.{SameOrder-trans}
use movra.Settlement.Service.Confined.{Deployment}
use movra.Settlement.Service.Operations.{started, new_payout-IsPayoutId}
use movra.Settlement.Service.Settled.{Ends, IsAnswered, IsRefused, Fulfils, same, Ends-Fulfils}

-- The store saves what it is given, and returns what it holds.
pub record IsReliable {W : Type 0} (d : Deployment W) : Type 0 where
  pub saves : (p : Payout) (w : W) → (d.service.repo.save_payout p w).0 ≡ ok tt
  pub answers :
      (id : String) (w : W) (p : Payout)
      → d.stored w id ≡ some p
      → (d.service.repo.get_payout id w).0 ≡ ok p

module _ {W : Type 0} (d : Deployment W) (reliable : IsReliable d) where
  open d use {service, IsPayoutId, stored, laws}
  open d.service use {repo, provider, runtime}

  -- A payout that satisfies `P` is stored under `id`.
  abbrev Holds : (Payout → Type 0) → String → W → Type 0
  Holds P id w = (q : Payout) × (stored w id ≡ some q) × P q

  saved : (p : Payout) (w : W) → IsPayoutId p.id → stored (repo.save_payout p w).1 p.id ≡ some p
  saved p w i = laws.save_ok p w i (reliable.saves p w)

  provider_failed-Holds :
      (p : Payout) (e : String) (w : W)
      → IsPayoutId p.id
      → Holds (IsRefused p e) p.id (provider_failed service p e w).1
  unfolding provider_failed ◌>>=◌ total catch fail
  provider_failed-Holds p e w i = (
    record p { status = failed; failure_reason = e; updated_at = (runtime.now w).0 },
    saved _ (runtime.now w).1 i,
    record {
      order = same;
      retry_count = refl;
      status = refl;
      failure_reason = refl;
      provider_reference = refl;
      pickup_code = refl;
      pickup_expires_at = refl;
      completed_at = refl;
    },
  )

  provider_answered-Holds :
      (p : Payout) (r : ProviderResult) (w : W)
      → IsPayoutId p.id
      → Holds (IsAnswered p r) p.id (provider_answered service p r w).1
  unfolding provider_answered stamp_completed with_result ◌>>=◌ total pure wrapping
  provider_answered-Holds p r w i = elim (Bool-cases (r.status == completed)) [
    | inl c ↦ rw c (
      _,
      saved _ _ i,
      record {
        order = same;
        retry_count = refl;
        status = refl;
        failure_reason = refl;
        provider_reference = refl;
        pickup_code = refl;
        pickup_expires_at = refl;
        completed_at = λ x y. cc;
        not_completed = λ x. absurd (x ((eq_iff r.status completed).0 c));
      },
    )
    | inr n ↦ rw n (
      _,
      saved _ _ i,
      record {
        order = same;
        retry_count = refl;
        status = refl;
        failure_reason = refl;
        provider_reference = refl;
        pickup_code = refl;
        pickup_expires_at = refl;
        completed_at = λ x. absurd (ne_of_test r.status completed n x);
        not_completed = λ x. refl;
      },
    )
  ]

  after_provider-Holds :
      (p : Payout) (r : Result ProviderResult) (w : W)
      → IsPayoutId p.id
      → Holds (Ends p r) p.id (after_provider service p r w).1
  after_provider-Holds p (ok r) w i = provider_answered-Holds p r w i
  after_provider-Holds p (err e) w i = provider_failed-Holds p e w i

  Ends-processing :
      (p : Payout) (t : Time) (r : Result ProviderResult) (q : Payout)
      → Ends (record p { status = processing; updated_at = t }) r q
      → Ends p r q
  Ends-processing p t (ok r) q h = record {
    order = SameOrder-trans same h.order;
    retry_count = h.retry_count;
    status = h.status;
    failure_reason = h.failure_reason;
    provider_reference = h.provider_reference;
    pickup_code = h.pickup_code;
    pickup_expires_at = h.pickup_expires_at;
    completed_at = h.completed_at;
    not_completed = h.not_completed;
  }
  Ends-processing p t (err e) q h = record {
    order = SameOrder-trans same h.order;
    retry_count = h.retry_count;
    status = h.status;
    failure_reason = h.failure_reason;
    provider_reference = h.provider_reference;
    pickup_code = h.pickup_code;
    pickup_expires_at = h.pickup_expires_at;
    completed_at = h.completed_at;
  }

  -- The provider's answer to `p`, in the world that the first save of the run leaves.
  abbrev pub asked : Payout → W → Result ProviderResult
  asked p w =
      let p' = record p { status = processing; updated_at = (runtime.now w).0 } in
      (provider.process_payout p' (repo.save_payout p' (runtime.now w).1).1).0

  process_payout-Holds :
      (p : Payout) (w : W)
      → IsPayoutId p.id
      → Holds (Ends p (asked p w)) p.id (process_payout service p w).1
  unfolding process_payout ◌>>=◌ ◌>>◌ total catch wrapping
  process_payout-Holds p w i =
      let p' = record p { status = processing; updated_at = (runtime.now w).0 } in
      let w₁ = (repo.save_payout p' (runtime.now w).1).1 in
      let (q, found, ends) =
        after_provider-Holds p' (asked p w) (provider.process_payout p' w₁).1 i in
      rw (reliable.saves p' (runtime.now w).1)
        (q, found, Ends-processing p (runtime.now w).0 (asked p w) q ends)

  Ends-id : (p : Payout) (r : Result ProviderResult) (q : Payout) → Ends p r q → q.id ≡ p.id
  Ends-id p (ok r) q h = h.order.id
  Ends-id p (err e) q h = h.order.id

  -- A call has returned the payout `q`, which is what is stored.
  pub record Yields (P : Payout → Type 0) (run : Result Payout × W) : Type 0 where
    pub payout : Payout
    pub returned : run.0 ≡ ok payout
    pub held : stored run.1 payout.id ≡ some payout
    pub result : P payout

  start_payout-Yields :
      (p : Payout) (w : W)
      → IsPayoutId p.id
      → Yields (Ends p (asked p (repo.save_payout p w).1)) (start_payout service p w)
  unfolding start_payout ◌>>=◌ ◌>>◌ catch wrapping
  start_payout-Yields p w i =
      let w₁ = (repo.save_payout p w).1 in
      let w₂ = (process_payout service p w₁).1 in
      let (q, found, ends) = process_payout-Holds p w₁ i in
      rw (reliable.saves p w) (record {
        payout = q;
        returned = reliable.answers p.id w₂ q found;
        held =
            laws.get_keeps p.id w₂ q.id
            ∙ subst (λ j. stored w₂ j ≡ some q) (sym (Ends-id p (asked p w₁) q ends)) found;
        result = ends;
      })

  -- Over a store that saves what it is given and returns what it holds, `InitiatePayout` returns
  -- no error: it returns a payout with the id made up of the time of the request, with the
  -- transfer, method, amount, currency and recipient of the request, that time of creation, no
  -- batch and no retries; with the status, reason, reference, pickup code and expiry of the
  -- provider's result, dated exactly if it is completed, or failed with the error of the provider
  -- and none of these; and that payout is what is stored.
  pub initiate_payout-Yields :
      (req : InitiatePayoutRequest) (w : W)
      → Yields
          (Fulfils req
            (runtime.now w).0
            (asked (started d req w) (repo.save_payout (started d req w) (runtime.now w).1).1))
          (initiate_payout service req w)
  unfolding initiate_payout ◌>>=◌ total
  initiate_payout-Yields req w =
      let p = started d req w in
      let r = asked p (repo.save_payout p (runtime.now w).1).1 in
      let y =
        start_payout-Yields p (runtime.now w).1 (new_payout-IsPayoutId d req (runtime.now w).0) in
      record {
        payout = y.payout;
        returned = y.returned;
        held = y.held;
        result = Ends-Fulfils req (runtime.now w).0 r y.payout y.result;
      }
