-- ===== src/Settlement/Service/Requests.antt =====
-- Any sequence of requests to the service, one after the other.
use mathlib.Core.Path.{subst}
use movra.Prelude.{
  ℕ, String, ◌≡◌, refl, sym, ◌∙◌, ◌⊎◌, inl, inr, Option, some, arith, same_or_not, ne_of_test, List,
  [], ◌∷◌,
}
use movra.Prelude.Int.{ℤ, pos, ◌≤ℤ◌}
use movra.Settlement.Model.{Payout, pending, completed}
use movra.Settlement.Service.{
  PayoutService, InitiatePayoutRequest, new_payout, initiate_payout, retry_payout, cancel_payout,
}
use movra.Settlement.Service.Lifecycle.{
  Evolves, Evolves-SameOrder, Counts, Evolves-Counts, IsDated, Evolves-IsDated,
}
use movra.Settlement.Service.Confined.{Deployment}
use movra.Settlement.Service.Operations.{
  Evolved, kept, moved, IsKeyed, Effect, retry_payout-Effect, cancel_payout-Effect, started,
  initiate_payout-Confined,
}

pub data Request : Type 0 where
  initiate : InitiatePayoutRequest → Request
  retry : String → Request
  cancel : String → String → Request

module _ {W : Type 0} (s : PayoutService W) where
  unfoldable pub handle : Request → W → W
  handle (initiate req) w = (initiate_payout s req w).1
  handle (retry id) w = (retry_payout s id w).1
  handle (cancel id reason) w = (cancel_payout s id reason w).1

  unfoldable pub serve : List Request → W → W
  unfolding handle
  serve [] w = w
  serve (r ∷ rs) w = serve rs (handle r w)

-- What holds of a stored payout between two requests, under the retry limit `m`.
pub record IsSound (m : ℤ) (id : String) (p : Payout) : Type 0 where
  pub keyed : p.id ≡ id
  pub nonneg : pos 0 ≤ℤ p.retry_count
  pub bounded : (p.retry_count ≤ℤ m) ⊎ (p.retry_count ≡ pos 0)
  pub dated : IsDated p

pub Evolves-IsSound :
    (m : ℤ) (id : String) {p q : Payout} → Evolves m p q → IsSound m id p → IsSound m id q
Evolves-IsSound m id {p} {q} e h =
    let c : Counts m p q = Evolves-Counts e in
    record {
      keyed = (Evolves-SameOrder e).id ∙ h.keyed;
      nonneg = omega (arith, c.0, h.nonneg);
      bounded = bound c.1 h.bounded;
      dated = Evolves-IsDated e h.dated;
    }
  where
    bound :
        (q.retry_count ≤ℤ m) ⊎ (q.retry_count ≡ p.retry_count)
        → (p.retry_count ≤ℤ m) ⊎ (p.retry_count ≡ pos 0)
        → (q.retry_count ≤ℤ m) ⊎ (q.retry_count ≡ pos 0)
    bound (inl a) b = inl a
    bound (inr a) (inl b) = inl (rw a b)
    bound (inr a) (inr b) = inr (a ∙ b)

pub new_payout-IsSound :
    (m : ℤ) (req : InitiatePayoutRequest) (t : ℕ)
    → IsSound m (new_payout req t).id (new_payout req t)
unfolding new_payout
new_payout-IsSound m req t = record {
  keyed = refl;
  nonneg = omega arith;
  bounded = inr refl;
  dated = λ x. absurd (ne_of_test pending completed refl x);
}

module _ {W : Type 0} (d : Deployment W) where
  open d use {service, IsPayoutId, stored}
  open d.service use {max_retries}

  -- Every stored payout is sound.
  abbrev pub AllSound : W → Type 0
  AllSound w =
      (j : String) → IsPayoutId j → (p : Payout) → stored w j ≡ some p → IsSound max_retries j p

  -- The requests name ids that payouts may have.
  abbrev pub IsAdmitted : Request → Type 0
  IsAdmitted (initiate req) = Unit
  IsAdmitted (retry id) = IsPayoutId id
  IsAdmitted (cancel id reason) = IsPayoutId id

  abbrev pub AllAdmitted : List Request → Type 0
  AllAdmitted [] = Unit
  AllAdmitted (r ∷ rs) = IsAdmitted r × AllAdmitted rs

  pub AllSound-IsKeyed : (w : W) → AllSound w → IsKeyed d w
  AllSound-IsKeyed w h j i p e = (h j i p e).keyed

  Evolved-IsSound :
      (j : String) (o o' : Option Payout)
      → Evolved max_retries o o'
      → ((p : Payout) → o ≡ some p → IsSound max_retries j p)
      → (p : Payout) → o' ≡ some p
      → IsSound max_retries j p
  Evolved-IsSound j o o' (kept _) h p e = h p e
  Evolved-IsSound j o o' (moved {p = q} {q = r} ev) h p e =
      subst (IsSound max_retries j) (some_eq r p e) (Evolves-IsSound max_retries j ev (h q refl))
    where
      some_eq : (r p : Payout) → some r ≡ some p → r ≡ p
      some_eq r p e = cc

  Effect-AllSound : (id : String) (w w' : W) → Effect d id w w' → AllSound w → AllSound w'
  Effect-AllSound id w w' f h j i p e = elim (same_or_not j id) [
    | inr n ↦ h j i p (sym (f.others j i n) ∙ e)
    | inl x ↦
        Evolved-IsSound j (stored w j) (stored w' j)
          (subst (λ k. Evolved max_retries (stored w k) (stored w' k)) (sym x) f.own) (h j i) p e
  ]

  initiate-AllSound :
      (req : InitiatePayoutRequest) (w : W)
      → AllSound w
      → AllSound (initiate_payout service req w).1
  initiate-AllSound req w h j i p e =
      let p₀ = started d req w in
      let c = initiate_payout-Confined d req w in
      let sound : IsSound max_retries p₀.id p₀ = new_payout-IsSound max_retries req _ in
      elim (same_or_not j p₀.id) [
        | inr n ↦ h j i p (sym (c.others j i n) ∙ e)
        | inl x ↦ elim c.own [
          | inl same ↦ h j i p (
              sym
                (subst (λ k. stored (initiate_payout service req w).1 k ≡ stored w k) (sym x) same)
              ∙ e)
          | inr t ↦
              subst (λ k. IsSound max_retries k p) (sym x)
                (Evolved-IsSound p₀.id (some p₀) _ (moved t.2) (λ q eq. some_sound p₀ q sound eq) p
                  (sym t.1 ∙ subst (λ k. stored (initiate_payout service req w).1 k ≡ some p) x e))
        ]
      ]
    where
      some_sound :
          (a b : Payout) → IsSound max_retries a.id a → some a ≡ some b → IsSound max_retries a.id b
      some_sound a b h e = subst (IsSound max_retries a.id) (cc) h

  pub handle-AllSound :
      (r : Request) (w : W) → IsAdmitted r → AllSound w → AllSound (handle service r w)
  unfolding handle
  handle-AllSound (initiate req) w i h = initiate-AllSound req w h
  handle-AllSound (retry id) w i h =
      Effect-AllSound id w _ (retry_payout-Effect d id w (AllSound-IsKeyed w h) i) h
  handle-AllSound (cancel id reason) w i h =
      Effect-AllSound id w _ (cancel_payout-Effect d id reason w (AllSound-IsKeyed w h) i) h

  -- From a world in which every stored payout is sound, and for requests that name ids that
  -- payouts may have, whatever the order of the requests and whatever failures of the store and of
  -- the provider: every stored payout is sound afterwards. It is stored under its own id, its
  -- retry count is not negative and at most the configured maximum (or 0), and it has a time of
  -- completion if it is completed.
  pub serve-AllSound :
      (rs : List Request) (w : W) → AllAdmitted rs → AllSound w → AllSound (serve service rs w)
  unfolding serve
  serve-AllSound [] w a h = h
  serve-AllSound (r ∷ rs) w a h =
      serve-AllSound rs (handle service r w) a.1 (handle-AllSound r w a.0 h)

  -- A request that does not start a payout.
  abbrev pub IsFollowUp : Request → Type 0
  IsFollowUp (initiate req) = ⊥
  IsFollowUp (retry id) = IsPayoutId id
  IsFollowUp (cancel id reason) = IsPayoutId id

  abbrev pub AllFollowUp : List Request → Type 0
  AllFollowUp [] = Unit
  AllFollowUp (r ∷ rs) = IsFollowUp r × AllFollowUp rs
