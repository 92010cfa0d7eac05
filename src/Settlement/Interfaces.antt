-- ===== src/Settlement/Interfaces.antt =====
-- internal/repository/repository.go and internal/provider/provider.go: what the payout service
-- asks of a store of payouts and of a payout provider, on a world `W`.
use Prim.Native.String.{◌++◌}
use movra.Prelude.{String, ◌≡◌, ◌≢◌, ◌⊎◌, Option, some, List}
use movra.Prelude.Int.{ℤ}
use movra.Prelude.Action.{Action, ok}
use movra.Platform.Time.{Time}
use movra.Platform.Runtime.{Runtime}
use movra.Settlement.Model.{Payout, PayoutStatus, PayoutMethod}

pub record PayoutFilter : Type 0 where
  pub status : PayoutStatus
  pub method : PayoutMethod
  pub batch_id : String
  pub limit : ℤ
  pub offset : ℤ

pub record PayoutRepository (W : Type 0) : Type 0 where
  pub save_payout : Payout → Action W (Unit {0})
  pub get_payout : String → Action W Payout
  pub get_payout_by_transfer_id : String → Action W Payout
  pub list_payouts : PayoutFilter → Action W (List Payout)
  pub update_payout_status : String → PayoutStatus → String → Action W (Unit {0})

pub record ProviderResult : Type 0 where
  pub provider_reference : String
  pub status : PayoutStatus
  pub failure_reason : String
  pub pickup_code : String
  pub pickup_expires_at : Option Time

pub record ProviderStatus : Type 0 where
  pub status : PayoutStatus
  pub failure_reason : String
  pub completed_at : Option Time

pub record PayoutProvider (W : Type 0) : Type 0 where
  pub process_payout : Payout → Action W ProviderResult
  pub check_status : String → Action W ProviderStatus
  pub cancel_payout : String → Action W (Unit {0})
  pub name : String

-- What the service relies on. `stored w id` is the payout last written under `id`, `IsPayoutId`
-- says which ids a payout may have. A save writes the payout, or fails and may have written it;
-- it changes no other payout. A read changes nothing and returns what is stored, or fails.
-- The provider and the runtime do not touch the store. A new
-- payout may have its id.
pub record Laws {W : Type 0} (repo : PayoutRepository W) (prov : PayoutProvider W) (rt : Runtime W)
    (IsPayoutId : String → Type 0) (stored : W → String → Option Payout) : Type 0 where
  pub new_id : (s : String) → IsPayoutId ("payout_" ++ s)
  pub save_ok :
      (p : Payout) (w : W)
      → IsPayoutId p.id
      → (repo.save_payout p w).0 ≡ ok tt
      → stored (repo.save_payout p w).1 p.id ≡ some p
  pub save_written :
      (p : Payout) (w : W)
      → IsPayoutId p.id
      → (stored (repo.save_payout p w).1 p.id ≡ some p)
        ⊎ (stored (repo.save_payout p w).1 p.id ≡ stored w p.id)
  pub save_others :
      (p : Payout) (w : W) (id : String)
      → IsPayoutId id
      → id ≢ p.id
      → stored (repo.save_payout p w).1 id ≡ stored w id
  pub get_found :
      (id : String) (w : W) {p : Payout} → (repo.get_payout id w).0 ≡ ok p → stored w id ≡ some p
  pub get_keeps :
      (id : String) (w : W) (j : String) → stored (repo.get_payout id w).1 j ≡ stored w j
  pub process_keeps :
      (p : Payout) (w : W) (j : String) → stored (prov.process_payout p w).1 j ≡ stored w j
  pub cancel_keeps :
      (r : String) (w : W) (j : String) → stored (prov.cancel_payout r w).1 j ≡ stored w j
  pub now_keeps : (w : W) (j : String) → stored (rt.now w).1 j ≡ stored w j
