-- ===== src/Settlement/Interleaving/Sound.antt =====
-- The stored payouts while requests are under way.
use mathlib.Core.Path.{subst}
use movra.Prelude.{String, ◌≡◌, sym, ◌∙◌, some, ℕ, zero, suc, List, [], ◌∷◌, append}
use movra.Prelude.Action.{Returned}
use movra.Settlement.Model.{Payout}
use movra.Settlement.Service.Confined.{Deployment}
use movra.Settlement.Service.Requests.{
  Request, AllSound, IsAdmitted, IsSound, Evolves-IsSound, new_payout-IsSound, IsFollowUp,
}
use movra.Settlement.Service.Operations.{IsKeyed}
use movra.Settlement.Service.Lifecycle.{
  SameOrder, SameOrder-trans, Evolves, here, Evolves-SameOrder,
}
use movra.Settlement.Tasks.{return, call, Task, perform, task}
use movra.Settlement.Tasks.Soundness.{IsLasting, AllHold, Anything, IsCareful, perform-AllHold}
use movra.Settlement.Tasks.Carefulness.{Admits, task-Careful}
use movra.Settlement.Interleaving.{
  System, Event, arrive, advance, step, step_at, happen, execute, idle,
}

module _ {W : Type 0} (d : Deployment W) (P : String → Payout → Type 0)
    (lasting : IsLasting d P) where
  open d use {service}
  open d.service use {max_retries}

  -- The rest of a task is careful.
  abbrev IsSafe : Task Payout → Type 0
  IsSafe m = IsCareful d P (Returned Anything) m

  abbrev AllSafe : List (Task Payout) → Type 0
  AllSafe [] = Unit
  AllSafe (m ∷ ms) = IsSafe m × AllSafe ms

  append-AllSafe :
      (ms : List (Task Payout)) (m : Task Payout)
      → AllSafe ms
      → IsSafe m
      → AllSafe (append ms (m ∷ []))
  append-AllSafe [] m h k = (k, tt)
  append-AllSafe (n ∷ ms) m (h, others) k = (h, append-AllSafe ms m others k)

  step-AllHold :
      (m : Task Payout) (w : W)
      → IsSafe m
      → AllHold d P w
      → IsSafe (step service m w).0 × AllHold d P (step service m w).1
  unfolding step
  step-AllHold (return r) w h sound = (h, sound)
  step-AllHold (call c k) w (fine, h) sound =
      let (kept, answered) = perform-AllHold d P c w fine sound in
      (h (perform service c w).0 answered, kept)

  step_at-AllHold :
      (n : ℕ) (ms : List (Task Payout)) (w : W)
      → AllSafe ms
      → AllHold d P w
      → AllSafe (step_at service n ms w).0 × AllHold d P (step_at service n ms w).1
  unfolding step_at
  step_at-AllHold n [] w h sound = (h, sound)
  step_at-AllHold zero (m ∷ ms) w (h, others) sound =
      let (safe, kept) = step-AllHold m w h sound in ((safe, others), kept)
  step_at-AllHold (suc n) (m ∷ ms) w (h, others) sound =
      let (safe, kept) = step_at-AllHold n ms w others sound in ((h, safe), kept)

  -- The requests that arrive name ids that payouts may have.
  abbrev pub AllArrivals : List Event → Type 0
  AllArrivals [] = Unit
  AllArrivals (arrive r ∷ es) = Admits d P lasting r × AllArrivals es
  AllArrivals (advance n ∷ es) = AllArrivals es

  execute_holds :
      (es : List Event) (σ : System W)
      → AllArrivals es
      → AllSafe σ.tasks
      → AllHold d P σ.world
      → AllHold d P (execute service es σ).world
  unfolding execute happen
  execute_holds [] σ a h sound = sound
  execute_holds (arrive r ∷ es) σ (i, a) h sound =
      execute_holds es (happen service (arrive r) σ) a
        (append-AllSafe σ.tasks (task max_retries r) h (task-Careful d P lasting r i).runs) sound
  execute_holds (advance n ∷ es) σ a h sound =
      let (safe, kept) = step_at-AllHold n σ.tasks σ.world h sound in
      execute_holds es (happen service (advance n) σ) a safe kept

  -- From a world in which every stored payout has the property and no request is under way, every
  -- stored payout has it after any events.
  pub execute-AllHold :
      (es : List Event) (w : W)
      → AllArrivals es
      → AllHold d P w
      → AllHold d P (execute service es (idle w)).world
  execute-AllHold es w a sound = execute_holds es (idle w) a tt sound

module _ {W : Type 0} (d : Deployment W) where
  open d use {service, IsPayoutId, stored}
  open d.service use {max_retries}

  sound-IsLasting : IsLasting d (IsSound max_retries)
  sound-IsLasting = record {
    keyed = λ h. h.keyed;
    evolves = λ {id} e h. Evolves-IsSound max_retries id e h;
  }

  -- The requests that arrive name ids that payouts may have.
  abbrev pub AllAddressed : List Event → Type 0
  AllAddressed [] = Unit
  AllAddressed (arrive r ∷ es) = IsAdmitted d r × AllAddressed es
  AllAddressed (advance n ∷ es) = AllAddressed es

  sound_arrivals :
      (es : List Event) → AllAddressed es → AllArrivals d (IsSound max_retries) sound-IsLasting es
  sound_arrivals [] a = tt
  sound_arrivals (arrive (Request.initiate req) ∷ es) (i, a) =
      (λ t. new_payout-IsSound max_retries req t, sound_arrivals es a)
  sound_arrivals (arrive (Request.retry id) ∷ es) (i, a) = (i, sound_arrivals es a)
  sound_arrivals (arrive (Request.cancel id reason) ∷ es) (i, a) = (i, sound_arrivals es a)
  sound_arrivals (advance n ∷ es) a = sound_arrivals es a

  -- Any number of initiations, retries and cancellations may be under way at once, their calls of
  -- the store, the provider and the clock in any order, and any of these calls may fail: if every
  -- stored payout is sound before the first request arrives, and the retries and cancellations
  -- name ids that payouts may have, every stored payout is sound after any events, also in the
  -- middle of a request. It is stored under its own id, its retry count is not negative and at
  -- most the configured maximum (or 0), and it has a time of completion if it is completed.
  pub execute-AllSound :
      (es : List Event) (w : W)
      → AllAddressed es
      → AllSound d w
      → AllSound d (execute service es (idle w)).world
  execute-AllSound es w a sound =
      execute-AllHold d (IsSound max_retries) sound-IsLasting es w (sound_arrivals es a) sound

  -- A payout under its id that is for what the payout stored there in `w₀` is for.
  record IsSameOrder (w₀ : W) (id : String) (p : Payout) : Type 0 where
    keyed : p.id ≡ id
    order : (q : Payout) → stored w₀ id ≡ some q → SameOrder q p

  order-IsLasting : (w₀ : W) → IsLasting d (IsSameOrder w₀)
  order-IsLasting w₀ = record {
    keyed = λ h. h.keyed;
    evolves = λ e h. record {
      keyed = (Evolves-SameOrder e).id ∙ h.keyed;
      order = λ q held. SameOrder-trans (h.order q held) (Evolves-SameOrder e);
    };
  }

  -- The requests that arrive are retries and cancellations of ids that payouts may have.
  abbrev pub AllFollowing : List Event → Type 0
  AllFollowing [] = Unit
  AllFollowing (arrive r ∷ es) = IsFollowUp d r × AllFollowing es
  AllFollowing (advance n ∷ es) = AllFollowing es

  order_arrivals :
      (w₀ : W) (es : List Event)
      → AllFollowing es
      → AllArrivals d (IsSameOrder w₀) (order-IsLasting w₀) es
  order_arrivals w₀ [] a = tt
  order_arrivals w₀ (arrive (Request.initiate req) ∷ es) (i, a) = absurd i
  order_arrivals w₀ (arrive (Request.retry id) ∷ es) (i, a) = (i, order_arrivals w₀ es a)
  order_arrivals w₀ (arrive (Request.cancel id reason) ∷ es) (i, a) = (i, order_arrivals w₀ es a)
  order_arrivals w₀ (advance n ∷ es) a = order_arrivals w₀ es a

  -- If each payout is stored under its own id before the first request arrives, then after any
  -- events of retries and cancellations that run at once, of ids that payouts may have, the payout
  -- stored under such an id has the id, transfer, method, amount, currency, recipient, batch and
  -- creation time of the one that was stored there before.
  pub execute-SameOrder :
      (es : List Event) (w : W) (id : String) (p q : Payout)
      → AllFollowing es
      → IsKeyed d w
      → IsPayoutId id
      → stored w id ≡ some p
      → stored (execute service es (idle w)).world id ≡ some q
      → SameOrder p q
  execute-SameOrder es w id p q a keyed own before after =
      (execute-AllHold d (IsSameOrder w) (order-IsLasting w) es w (order_arrivals w es a) held id
          own q after).order
        p before
    where
      same : (a b : Payout) → some a ≡ some b → SameOrder a b
      same a b e =
          let ev : Evolves max_retries a a = here in subst (SameOrder a) (cc) (Evolves-SameOrder ev)

      held : AllHold d (IsSameOrder w) w
      held j i p e = record { keyed = keyed j i p e; order = λ q e'. same q p (sym e' ∙ e) }
