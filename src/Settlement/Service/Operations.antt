-- ===== src/Settlement/Service/Operations.antt =====
-- What the operations of the service do to every stored payout, whichever of their calls fail.
use Prim.Native.String.{◌++◌}
use mathlib.Core.Path.{subst}
use movra.Prelude.{
  String, ◌≡◌, refl, sym, ◌⊎◌, inl, inr, ◌≢◌, false, Bool-cases, Option, some, arith, ◌==◌, eq_iff,
  not, ◌&&◌, if◌then◌else◌,
}
use movra.Prelude.Int.{ℤ, leb_ℤ}
use movra.Prelude.Action.{
  Result, ok, err, Action, total, bind_result, ◌>>=◌, Keeps, Keeps-catch, fail, Ensures-pure,
  Ensures-fail, Ensures-wrapping, Ensures-bind, Ensures-then,
}
use movra.Platform.Time.{Time, unix_nano}
use movra.Platform.Text.{int_text}
use movra.Settlement.Model.{Payout, pending, failed}
use movra.Settlement.Service.{
  InitiatePayoutRequest, new_payout, start_payout, initiate_payout, retry_payout, retry_failed,
  cancel_payout, cancel_stored, tell_provider,
}
use movra.Settlement.Service.Lifecycle.{retry, cancel, Evolves, here, next}
use movra.Settlement.Service.Confined.{
  Deployment, Confined, Inv, Inv-same, now-Keeps, save-Keeps, get-Keeps, cancel-Keeps,
}
use movra.Settlement.Service.Runs.{process_payout-Keeps}

module _ {W : Type 0} (d : Deployment W) (w₀ : W) (p₀ : Payout) where
  open d use {service}
  open d.service use {repo, provider, max_retries}

  abbrev I : W → Type 0
  I = Inv d w₀ p₀

  retry_failed-Keeps :
      p₀.status ≡ failed
      → leb_ℤ max_retries p₀.retry_count ≡ false
      → Keeps I (retry_failed service p₀)
  unfolding retry_failed
  retry_failed-Keeps st below = Ensures-bind (now-Keeps d w₀ p₀) λ t _.
      let ev = next here (retry p₀ t st (ground arith)) in
      Ensures-then (Ensures-wrapping _ (save-Keeps d w₀ p₀ _ ev)) (
        Ensures-bind (Keeps-catch (process_payout-Keeps d w₀ p₀ _ refl ev))
          λ _ _. get-Keeps d w₀ p₀ _)

  tell_provider-Keeps : (p : Payout) → Keeps I (tell_provider service p)
  unfolding tell_provider
  tell_provider-Keeps p = elim (Bool-cases (p.provider_reference == "")) [
    | inl e ↦ rw e (Ensures-pure tt tt)
    | inr e ↦ rw e (Ensures-bind (Keeps-catch (cancel-Keeps d w₀ p₀ _)) λ _ _. Ensures-pure tt tt)
  ]

  cancel_stored-Keeps :
      (reason : String)
      → (p₀.status ≡ pending) ⊎ (p₀.status ≡ failed)
      → Keeps I (cancel_stored service p₀ reason)
  unfolding cancel_stored
  cancel_stored-Keeps reason st = Ensures-then (tell_provider-Keeps p₀) (
      Ensures-bind (now-Keeps d w₀ p₀) λ t _.
        Ensures-then (Ensures-wrapping _ (save-Keeps d w₀ p₀ _ (next here (cancel p₀ reason t st))))
          (Ensures-pure _ tt))

-- From one option of a stored payout to the next: unchanged, or evolved.
pub data Evolved (m : ℤ) : Option Payout → Option Payout → Type 0 where
  kept : (o : Option Payout) → Evolved m o o
  moved : {p q : Payout} → Evolves m p q → Evolved m (some p) (some q)

module _ {W : Type 0} (d : Deployment W) where
  open d use {service, IsPayoutId, stored, laws}
  open d.service use {repo, runtime, max_retries}

  -- Each payout is stored under its own id.
  abbrev pub IsKeyed : W → Type 0
  IsKeyed w = (j : String) → IsPayoutId j → (p : Payout) → stored w j ≡ some p → p.id ≡ j

  -- From `w` to `w'` no payout but `id` has changed, and `id` is as it was or has evolved.
  pub record Effect (id : String) (w w' : W) : Type 0 where
    pub others : (j : String) → IsPayoutId j → j ≢ id → stored w' j ≡ stored w j
    pub own : Evolved max_retries (stored w id) (stored w' id)

  Inv-refl : (p : Payout) (w : W) → IsPayoutId p.id → Inv d w p w
  Inv-refl p w i = record { plain = i; others = λ j i n. refl; own = inl refl }

  Effect-same :
      (id : String) (w w' : W) → ((j : String) → stored w' j ≡ stored w j) → Effect id w w'
  Effect-same id w w' same = record {
    others = λ j i n. same j;
    own = rw (same id) (kept (stored w id));
  }

  Effect-Inv : (p : Payout) (w w' : W) → stored w p.id ≡ some p → Inv d w p w' → Effect p.id w w'
  Effect-Inv p w w' found h = record {
    others = h.others;
    own = elim h.own [
      | inl same ↦ rw same (kept (stored w p.id))
      | inr t ↦ rw (found, t.1) (moved t.2)
    ];
  }

  -- A payout is read and then worked on, or the read fails.
  abbrev pub Reads : {A : Type 0} → (Payout → Action W A) → Type 0
  Reads k = (p : Payout) (w w₁ : W) → Inv d w p w₁ → Inv d w p (k p w₁).1

  read-Effect :
      {A : Type 0} (k : Payout → Action W A) (id : String) (w : W)
      → Reads k
      → IsKeyed w
      → IsPayoutId id
      → Effect id w ((repo.get_payout id >>= k) w).1
  unfolding ◌>>=◌
  read-Effect k id w reads keyed i = go (repo.get_payout id w).0 refl
    where
      go :
          (r : Result Payout)
          → (repo.get_payout id w).0 ≡ r
          → Effect id w (bind_result r (repo.get_payout id w).1 k).1
      go (err e) x = Effect-same id w _ (laws.get_keeps id w)
      go (ok p) x =
          let found : stored w id ≡ some p = laws.get_found id w x in
          let own_id : p.id ≡ id = keyed id i p found in
          let inv : Inv d w p (repo.get_payout id w).1 = record {
            plain = subst IsPayoutId (sym own_id) i;
            others = λ j _ _. laws.get_keeps id w j;
            own = inl (laws.get_keeps id w p.id);
          } in
          subst (λ j. Effect j w (k p (repo.get_payout id w).1).1) own_id
            (Effect-Inv p w _ (subst (λ j. stored w j ≡ some p) (sym own_id) found)
              (reads p w _ inv))

  retry-Keeps :
      (w : W) (p : Payout)
      → Keeps (Inv d w p) (
          if not (p.status == failed)
          then fail ("can only retry failed payouts, current status: " ++ p.status)
          else if leb_ℤ max_retries p.retry_count
          then fail ("max retries (" ++ (int_text max_retries ++ ") exceeded"))
          else retry_failed service p)
  retry-Keeps w p = elim (Bool-cases (p.status == failed)) [
    | inr n ↦ rw n (Ensures-fail _)
    | inl f ↦ rw f (elim (Bool-cases (leb_ℤ max_retries p.retry_count)) [
      | inl b ↦ rw b (Ensures-fail _)
      | inr b ↦ rw b (retry_failed-Keeps d w p ((eq_iff p.status failed).0 f) b)
    ])
  ]

  -- `RetryPayout` of an id that payouts may have, where each payout is stored under its own id,
  -- and whichever calls of the store or the provider fail on the way: no other payout changes, and
  -- the payout asked for is as it was or has evolved by the steps of a payout's life.
  pub retry_payout-Effect :
      (id : String) (w : W) → IsKeyed w → IsPayoutId id → Effect id w (retry_payout service id w).1
  unfolding retry_payout
  retry_payout-Effect id w = read-Effect _ id w λ p w' w₁ h. (retry-Keeps w' p).keeps w₁ h

  pub open_to_cancel :
      (p : Payout)
      → (not (p.status == pending) && not (p.status == failed)) ≡ false
      → (p.status ≡ pending) ⊎ (p.status ≡ failed)
  open_to_cancel p h = ground (arith, eq_iff p.status pending, eq_iff p.status failed)

  cancel-Keeps_all :
      (reason : String) (w : W) (p : Payout)
      → Keeps (Inv d w p) (
          if not (p.status == pending) && not (p.status == failed)
          then fail ("can only cancel pending or failed payouts, current status: " ++ p.status)
          else cancel_stored service p reason)
  cancel-Keeps_all reason w p =
      elim (Bool-cases (not (p.status == pending) && not (p.status == failed))) [
        | inl n ↦ rw n (Ensures-fail _)
        | inr o ↦ rw o (cancel_stored-Keeps d w p reason (open_to_cancel p o))
      ]

  -- `CancelPayout` of an id that payouts may have, where each payout is stored under its own id,
  -- and whichever calls of the store or the provider fail on the way: no other payout changes, and
  -- the payout asked for is as it was or has evolved by the steps of a payout's life.
  pub cancel_payout-Effect :
      (id reason : String) (w : W)
      → IsKeyed w
      → IsPayoutId id
      → Effect id w (cancel_payout service id reason w).1
  unfolding cancel_payout
  cancel_payout-Effect id reason w =
      read-Effect _ id w λ p w' w₁ h. (cancel-Keeps_all reason w' p).keeps w₁ h

  -- The payout that a request starts with at the world `w`.
  abbrev pub started : InitiatePayoutRequest → W → Payout
  started req w = new_payout req (runtime.now w).0

  start_payout-Keeps :
      (p : Payout) (w : W) → p.status ≡ pending → Keeps (Inv d w p) (start_payout service p)
  unfolding start_payout
  start_payout-Keeps p w st =
      Ensures-then (Ensures-wrapping _ (save-Keeps d w p p here))
        (Ensures-bind (Keeps-catch (process_payout-Keeps d w p p st here)) λ _ _. get-Keeps d w p _)

  pub new_payout-IsPayoutId :
      (req : InitiatePayoutRequest) (t : Time) → IsPayoutId (new_payout req t).id
  unfolding new_payout
  new_payout-IsPayoutId req t = laws.new_id (int_text (unix_nano t))

  -- Whichever calls fail on the way, `InitiatePayout` changes at most the payout stored under the
  -- new id, and that one is as it was before, or has evolved from the payout that the request
  -- starts with by the steps of a payout's life.
  pub initiate_payout-Confined :
      (req : InitiatePayoutRequest) (w : W)
      → Confined max_retries IsPayoutId stored w (started req w) (initiate_payout service req w).1
  unfolding initiate_payout ◌>>=◌ total
  initiate_payout-Confined req w =
      let p = started req w in
      (start_payout-Keeps p w (unfold new_payout in refl)).keeps (runtime.now w).1 (
        Inv-same d w p w (runtime.now w).1 (laws.now_keeps w)
          (Inv-refl p w (new_payout-IsPayoutId req (runtime.now w).0)))
