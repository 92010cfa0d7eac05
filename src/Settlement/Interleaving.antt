-- ===== src/Settlement/Interleaving.antt =====
-- Requests to the payout service (internal/service/payout_service.go) that run at the same time, each
-- in a goroutine of a server of cmd/server/main.go: their calls on the store, the provider and the
-- clock come in any order, and each call is one step.
pub mod Sound
pub mod Finishing
use movra.Prelude.{ℕ, zero, suc, Option, none, some, List, [], ◌∷◌, append}
use movra.Prelude.Action.{Result}
use movra.Settlement.Model.{Payout}
use movra.Settlement.Service.{PayoutService}
use movra.Settlement.Service.Requests.{Request}
use movra.Settlement.Tasks.{Program, return, call, Task, perform, task}

-- The world and the requests that are under way or have returned, in the order of their arrival.
pub record System (W : Type 0) : Type 0 where
  pub world : W
  pub tasks : List (Task Payout)

-- A request arrives, or the one with a number makes its next call.
pub data Event : Type 0 where
  arrive : Request → Event
  advance : ℕ → Event

module _ {W : Type 0} (s : PayoutService W) where
  -- The next call of a task; one that has returned makes none.
  unfoldable pub step : Task Payout → W → Task Payout × W
  unfolding perform
  step (return r) w = (return r, w)
  step (call c k) w = let (a, w') = perform s c w in (k a, w')

  unfoldable pub step_at : ℕ → List (Task Payout) → W → List (Task Payout) × W
  unfolding step
  step_at n [] w = ([], w)
  step_at zero (m ∷ ms) w = let (m', w') = step m w in (m' ∷ ms, w')
  step_at (suc n) (m ∷ ms) w = let (ms', w') = step_at n ms w in (m ∷ ms', w')

  unfoldable pub happen : Event → System W → System W
  unfolding step_at
  happen (arrive r) σ = record σ { tasks = append σ.tasks (task s.max_retries r ∷ []) }
  happen (advance n) σ = let (ms, w) = step_at n σ.tasks σ.world in record { world = w; tasks = ms }

  unfoldable pub execute : List Event → System W → System W
  unfolding happen
  execute [] σ = σ
  execute (e ∷ es) σ = execute es (happen e σ)

-- No request is under way.
abbrev pub idle : {W : Type 0} → W → System W
idle w = record { world = w; tasks = [] }
