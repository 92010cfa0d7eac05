-- ===== src/Settlement/Interleaving/Finishing.antt =====
-- When a request has returned, whatever other requests do.
use movra.Prelude.{
  ℕ, zero, suc, ◌≤◌, ◌≡◌, ◌≢◌, refl, ap, ◌∙◌, true, false, Bool-cases, inl, inr, Option, none, some,
  List, [], ◌∷◌, append, length, eqb, if◌then◌else◌, arith,
}
use mathlib.Core.Path.{subst}
use movra.Prelude.Action.{Result}
use movra.Settlement.Model.{Payout}
use movra.Settlement.Service.{PayoutService}
use movra.Settlement.Service.Requests.{Request}
use movra.Settlement.Tasks.{return, call, Task, perform, task}
use movra.Settlement.Tasks.Progress.{Makes, task-Makes}
use movra.Settlement.Interleaving.{System, Event, arrive, advance, step, step_at, happen, execute}

abbrev pub task_at : ℕ → List (Task Payout) → Option (Task Payout)
task_at n [] = none
task_at zero (m ∷ ms) = some m
task_at (suc n) (m ∷ ms) = task_at n ms

-- How often the request with a number makes a call in the events.
abbrev pub turns : ℕ → List Event → ℕ
turns n [] = 0
turns n (arrive r ∷ es) = turns n es
turns n (advance j ∷ es) = let rest = turns n es in if eqb j n then suc rest else rest

-- The task has returned.
pub data HasReturned : Option (Task Payout) → Type 0 where
  returned : (r : Result Payout) → HasReturned (some (return r))

append-task_at :
    (n : ℕ) (ms : List (Task Payout)) (m m' : Task Payout)
    → task_at n ms ≡ some m
    → task_at n (append ms (m' ∷ [])) ≡ some m
append-task_at n [] m m' e = cc
append-task_at zero (x ∷ ms) m m' e = e
append-task_at (suc n) (x ∷ ms) m m' e = append-task_at n ms m m' e

last-task_at :
    (ms : List (Task Payout)) (m : Task Payout) → task_at (length ms) (append ms (m ∷ [])) ≡ some m
last-task_at [] m = refl
last-task_at (x ∷ ms) m = last-task_at ms m

module _ {W : Type 0} (s : PayoutService W) where
  -- The task with a number has at most `k` calls to make.
  abbrev Left : ℕ → ℕ → List (Task Payout) → Type 0
  Left k n ms = (m : Task Payout) × (task_at n ms ≡ some m) × Makes k m

  step-Makes : (k : ℕ) (m : Task Payout) (w : W) → Makes (suc k) m → Makes k (step s m w).0
  unfolding step
  step-Makes k (return r) w h = tt
  step-Makes k (call c next) w h = h (perform s c w).0

  step_at-own :
      (n : ℕ) (ms : List (Task Payout)) (w : W) (m : Task Payout)
      → task_at n ms ≡ some m
      → task_at n (step_at s n ms w).0 ≡ some (step s m w).0
  unfolding step_at
  step_at-own n [] w m e = cc
  step_at-own zero (x ∷ ms) w m e = ap some (ap (λ y. (step s y w).0) (same x e))
    where
      same : (x : Task Payout) → some x ≡ some m → x ≡ m
      same x e = cc
  step_at-own (suc n) (x ∷ ms) w m e = step_at-own n ms w m e

  step_at-other :
      (j n : ℕ) (ms : List (Task Payout)) (w : W)
      → j ≢ n
      → task_at n (step_at s j ms w).0 ≡ task_at n ms
  unfolding step_at
  step_at-other j n [] w d = refl
  step_at-other zero zero (x ∷ ms) w d = absurd (d refl)
  step_at-other zero (suc n) (x ∷ ms) w d = refl
  step_at-other (suc j) zero (x ∷ ms) w d = refl
  step_at-other (suc j) (suc n) (x ∷ ms) w d = step_at-other j n ms w (λ e. d (ap suc e))

  spent-HasReturned : (n : ℕ) (ms : List (Task Payout)) → Left 0 n ms → HasReturned (task_at n ms)
  spent-HasReturned n ms (return r, e, h) = rw e (returned r)
  spent-HasReturned n ms (call c k, e, h) = absurd h

  step_at-Left :
      (k n : ℕ) (ms : List (Task Payout)) (w : W)
      → Left (suc k) n ms
      → Left k n (step_at s n ms w).0
  step_at-Left k n ms w (m, e, h) = ((step s m w).0, step_at-own n ms w m e, step-Makes k m w h)

  step_at-Left_none :
      (n : ℕ) (ms : List (Task Payout)) (w : W) → Left 0 n ms → Left 0 n (step_at s n ms w).0
  step_at-Left_none n ms w (return r, e, h) =
      (return r, step_at-own n ms w (return r) e ∙ unfold step in refl, tt)
  step_at-Left_none n ms w (call c k, e, h) = absurd h

  step_at-Left_other :
      (k j n : ℕ) (ms : List (Task Payout)) (w : W)
      → j ≢ n
      → Left k n ms
      → Left k n (step_at s j ms w).0
  step_at-Left_other k j n ms w d (m, e, h) = (m, step_at-other j n ms w d ∙ e, h)

  moved_own :
      (k j n : ℕ) (σ : System W)
      → eqb j n ≡ true
      → Left (suc k) n σ.tasks
      → Left k n (happen s (advance j) σ).tasks
  unfolding happen
  moved_own k j n σ e h =
      let same : n ≡ j = ground arith in
      subst (λ i. Left k n (step_at s i σ.tasks σ.world).0) same
        (step_at-Left k n σ.tasks σ.world h)

  moved_other :
      (k j n : ℕ) (σ : System W)
      → eqb j n ≡ false
      → Left k n σ.tasks
      → Left k n (happen s (advance j) σ).tasks
  unfolding happen
  moved_other k j n σ d h = step_at-Left_other k j n σ.tasks σ.world (ne_of j n d) h
    where
      ne_of : (j n : ℕ) → eqb j n ≡ false → j ≢ n
      ne_of j n d e = ground arith

  moved_none : (j n : ℕ) (σ : System W) → Left 0 n σ.tasks → Left 0 n (happen s (advance j) σ).tasks
  moved_none j n σ h = elim (Bool-cases (eqb j n)) [
    | inl e ↦ by_own e
    | inr d ↦ moved_other 0 j n σ d h
  ]
    where
      by_own : eqb j n ≡ true → Left 0 n (happen s (advance j) σ).tasks
      by_own e =
          let same : n ≡ j = ground arith in
          unfold happen in
          subst (λ i. Left 0 n (step_at s i σ.tasks σ.world).0) same
            (step_at-Left_none n σ.tasks σ.world h)

  finishing :
      (es : List Event) (k n : ℕ) (σ : System W)
      → Left k n σ.tasks
      → k ≤ turns n es
      → HasReturned (task_at n (execute s es σ).tasks)
  unfolding execute happen
  finishing [] zero n σ h b = spent-HasReturned n σ.tasks h
  finishing [] (suc k) n σ h b = absurd (omega (arith, b))
  finishing (arrive r ∷ es) k n σ (m, e, h) b =
      finishing es k n (happen s (arrive r) σ)
        (m, append-task_at n σ.tasks m (task s.max_retries r) e, h) b
  finishing (advance j ∷ es) zero n σ h b =
      finishing es zero n (happen s (advance j) σ) (moved_none j n σ h) (omega arith)
  finishing (advance j ∷ es) (suc k) n σ h b = elim (Bool-cases (eqb j n)) [
    | inl e ↦ finishing es k n (happen s (advance j) σ) (moved_own k j n σ e h) (fewer_own e b)
    | inr d ↦
        finishing es (suc k) n (happen s (advance j) σ) (moved_other (suc k) j n σ d h)
          (fewer_other d b)
  ]
    where
      fewer_own : eqb j n ≡ true → suc k ≤ turns n (advance j ∷ es) → k ≤ turns n es
      fewer_own e b = ground arith

      fewer_other : eqb j n ≡ false → suc k ≤ turns n (advance j ∷ es) → suc k ≤ turns n es
      fewer_other d b = ground arith

  -- A request that arrives, whatever requests are under way and arrive later, and whatever they
  -- do, has returned after any events in which it gets ten or more turns.
  pub execute-HasReturned :
      (es : List Event) (σ : System W) (r : Request)
      → 10 ≤ turns (length σ.tasks) es
      → HasReturned (task_at (length σ.tasks) (execute s (arrive r ∷ es) σ).tasks)
  unfolding execute happen
  execute-HasReturned es σ r b =
      finishing es 10 (length σ.tasks) (happen s (arrive r) σ)
        (
          task s.max_retries r,
          last-task_at σ.tasks (task s.max_retries r),
          task-Makes s.max_retries r,
        )
        b
