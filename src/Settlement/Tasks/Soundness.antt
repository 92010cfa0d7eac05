-- ===== src/Settlement/Tasks/Soundness.antt =====
-- Programs of `Tasks` that save only payouts with a property, as long as those that they read have it.
use mathlib.Core.Path.{subst}
use movra.Prelude.{String, ◌≡◌, refl, sym, ◌∙◌, inl, inr, some, same_or_not}
use movra.Prelude.Action.{Result, ok, err, Returned, Returned-map_error, Returned-any}
use movra.Settlement.Model.{Payout}
use movra.Settlement.Service.Lifecycle.{Evolves}
use movra.Settlement.Service.Confined.{Deployment}
use movra.Settlement.Tasks.{
  Call, read_clock, save, get, process, withdraw, Answer, Program, return, call, Task, perform,
  and_then, on_ok, catch, wrapping, ◌>>=◌, ◌>>◌,
}
use movra.Settlement.Tasks

-- A property of the payouts stored under an id that lasts through the steps of their life.
pub record IsLasting {W : Type 0} (d : Deployment W) (P : String → Payout → Type 0) : Type 0 where
  pub keyed : {id : String} {p : Payout} → P id p → p.id ≡ id
  pub evolves : {id : String} {p q : Payout} → Evolves d.service.max_retries p q → P id p → P id q

-- Any result will do.
abbrev pub Anything : {A : Type 0} → A → Type 0
Anything a = Unit

module _ {W : Type 0} (d : Deployment W) (P : String → Payout → Type 0) where
  open d use {service, IsPayoutId, stored, laws}
  open d.service use {repo, provider, runtime, max_retries}

  -- Every stored payout has the property.
  abbrev pub AllHold : W → Type 0
  AllHold w = (j : String) → IsPayoutId j → (p : Payout) → stored w j ≡ some p → P j p

  -- Calls that keep it so, and what such a store answers.
  abbrev pub IsFine : Call → Type 0
  IsFine read_clock = Unit
  IsFine (save p) = IsPayoutId p.id × P p.id p
  IsFine (get id) = IsPayoutId id
  IsFine (process p) = Unit
  IsFine (withdraw reference) = Unit

  abbrev pub IsFineAnswer : (c : Call) → Answer c → Type 0
  IsFineAnswer read_clock t = Unit
  IsFineAnswer (save p) r = Unit
  IsFineAnswer (get id) r = Returned (P id) r
  IsFineAnswer (process p) r = Unit
  IsFineAnswer (withdraw reference) r = Unit

  get_fine :
      (id : String) (w : W) (r : Result Payout)
      → (repo.get_payout id w).0 ≡ r
      → IsPayoutId id
      → AllHold w
      → Returned (P id) r
  get_fine id w (ok p) e i h = h id i p (laws.get_found id w e)
  get_fine id w (err x) e i h = tt

  save-AllHold :
      (p : Payout) (w : W)
      → IsPayoutId p.id
      → P p.id p
      → AllHold w
      → AllHold (repo.save_payout p w).1
  save-AllHold p w i sound h j k q e = elim (same_or_not j p.id) [
    | inr n ↦ h j k q (sym (laws.save_others p w j k n) ∙ e)
    | inl x ↦ elim (laws.save_written p w i) [
      | inl now_p ↦
          subst (λ m. P m q) (sym x) (subst (P p.id) (some_eq p q (sym now_p ∙ own x e)) sound)
      | inr as_before ↦ subst (λ m. P m q) (sym x) (h p.id i q (sym as_before ∙ own x e))
    ]
  ]
    where
      some_eq : (a b : Payout) → some a ≡ some b → a ≡ b
      some_eq a b e = cc

      own :
          j ≡ p.id
          → stored (repo.save_payout p w).1 j ≡ some q
          → stored (repo.save_payout p w).1 p.id ≡ some q
      own x e = subst (λ m. stored (repo.save_payout p w).1 m ≡ some q) x e

  AllHold-same : (w v : W) → ((j : String) → stored v j ≡ stored w j) → AllHold w → AllHold v
  AllHold-same w v same h j i p e = h j i p (sym (same j) ∙ e)

  -- A fine call leaves a store in which every payout has the property, and is given a fine answer.
  pub perform-AllHold :
      (c : Call) (w : W)
      → IsFine c
      → AllHold w
      → AllHold (perform service c w).1 × IsFineAnswer c (perform service c w).0
  unfolding perform
  perform-AllHold read_clock w f h = (AllHold-same w _ (laws.now_keeps w) h, tt)
  perform-AllHold (save p) w f h = (save-AllHold p w f.0 f.1 h, tt)
  perform-AllHold (get id) w f h =
      (AllHold-same w _ (laws.get_keeps id w) h, get_fine id w _ refl f h)
  perform-AllHold (process p) w f h = (AllHold-same w _ (laws.process_keeps p w) h, tt)
  perform-AllHold (withdraw reference) w f h =
      (AllHold-same w _ (laws.cancel_keeps reference w) h, tt)

  -- All calls are fine, whatever fine answers come, and a result satisfies `Q`.
  abbrev pub IsCareful : {A : Type 0} → (A → Type 0) → Program A → Type 0
  IsCareful Q (return a) = Q a
  IsCareful Q (call c k) = IsFine c × ((a : Answer c) → IsFineAnswer c a → IsCareful Q (k a))

  -- The same of a task, for the value that it returns.
  pub record Careful {A : Type 0} (Q : A → Type 0) (m : Task A) : Type 0 where
    pub runs : IsCareful (Returned Q) m

  module _ {A B : Type 0} where
    IsCareful-and_then :
        (Q : A → Type 0) (R : B → Type 0) (m : Program A) (f : A → Program B)
        → IsCareful Q m
        → ((a : A) → Q a → IsCareful R (f a))
        → IsCareful R (and_then m f)
    unfolding and_then
    IsCareful-and_then Q R (return a) f q k = k a q
    IsCareful-and_then Q R (call c g) f (fine, h) k =
        (fine, λ a answered. IsCareful-and_then Q R (g a) f (h a answered) k)

  module _ {A B : Type 0} where
    pub Careful-bind :
        {Q : A → Type 0} {R : B → Type 0} {m : Task A} {f : A → Task B}
        → Careful Q m
        → ((a : A) → Q a → Careful R (f a))
        → Careful R (m >>= f)
    unfolding ◌>>=◌
    Careful-bind {Q} {R} {m} {f} h k = record {
      runs = IsCareful-and_then (Returned Q) (Returned R) m (on_ok f) h.runs next;
    }
      where
        next : (r : Result A) → Returned Q r → IsCareful (Returned R) (on_ok f r)
        next (ok a) q = (k a q).runs
        next (err e) q = tt

    pub Careful-then :
        {Q : A → Type 0} {R : B → Type 0} {m : Task A} {f : Task B}
        → Careful Q m
        → Careful R f
        → Careful R (m >> f)
    unfolding ◌>>◌
    Careful-then h k = Careful-bind h (λ _ _. k)

  module _ {A : Type 0} where
    pub Careful-pure : {Q : A → Type 0} (a : A) → Q a → Careful Q (Tasks.pure a)
    Careful-pure a q = record { runs = q }

    pub Careful-fail : {Q : A → Type 0} (e : String) → Careful Q (Tasks.fail {A = A} e)
    Careful-fail e = record { runs = tt }

    pub Careful-catch : {Q : A → Type 0} {m : Task A} → Careful Q m → Careful Anything (catch m)
    unfolding catch
    Careful-catch {Q} {m} h = record {
      runs = IsCareful-and_then (Returned Q) (Returned Anything) m _ h.runs (λ r q. tt);
    }

    pub Careful-wrapping :
        {Q : A → Type 0} {m : Task A} (f : String → String) → Careful Q m → Careful Q (wrapping f m)
    unfolding wrapping
    Careful-wrapping {Q} {m} f h = record {
      runs =
          IsCareful-and_then (Returned Q) (Returned Q) m _ h.runs
            (λ r q. Returned-map_error Q f r q);
    }

  pub now-Careful : Careful Anything Tasks.now
  now-Careful = record { runs = (tt, λ t _. tt) }

  pub ask-Careful : (p : Payout) → Careful Anything (Tasks.ask_provider p)
  ask-Careful p = record { runs = (tt, λ r _. Returned-any r) }

  pub withdrawal-Careful : (reference : String) → Careful Anything (Tasks.tell_withdrawal reference)
  withdrawal-Careful reference = record { runs = (tt, λ r _. Returned-any r) }

  pub get-Careful : (id : String) → IsPayoutId id → Careful (P id) (Tasks.get_payout id)
  get-Careful id i = record { runs = (i, λ r fine. fine) }
