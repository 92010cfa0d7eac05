-- ===== src/Settlement/Repository/Listing.antt =====
-- `ListPayouts` of internal/repository/redis_repository.go: which payouts it returns, over a server
-- that answers and keeps the guarantee of SCAN.
use mathlib.Core.Path.{subst}
use text.Mathlib.Text.{starts_with}
use Prim.Native.String.{◌++◌}
use movra.Prelude.{
  ℕ, String, ◌≡◌, ◌<◌, refl, sym, ◌↔◌, ◌⊎◌, inl, inr, true, false, Bool-cases, Option, none, some,
  List, [], if◌then◌else◌, IsIn,
}
use movra.Prelude.Int.{pos, ◌≤ℤ◌}
use movra.Prelude.Action.{Result, ok, err, Returned}
use movra.Platform.Runtime.{Runtime}
use movra.Redis
use movra.Redis.{Client, IsAnswering, ScanLaws, reply_of}
use movra.Settlement.Model.{Payout}
use movra.Settlement.Interfaces.{PayoutFilter}
use movra.Settlement.Repository.{
  Bytes, payout_key_prefix, transfer_key_prefix, unmarshal, passes, accepted, list_payouts,
}
use movra.Settlement.Repository.Stored.{decoded}
use movra.Settlement.Repository.Page.{accepted-passes, Listed, ScanEnds, list_payouts-Listed}
use movra.Settlement.Repository.Rounds.{same_some, taken, Complete, scan_from-Complete}

-- A payout that is held under a key of a payout, and that the filter lets pass.
pub record IsMatch {W : Type 0} (peek : W → String → Option Bytes) (f : PayoutFilter) (w : W)
    (key : String) (p : Payout) : Type 0 where
  pub payout_key : starts_with key payout_key_prefix ≡ true
  pub not_index : starts_with key transfer_key_prefix ≡ false
  pub held : decoded (peek w key) ≡ some p
  pub passed : passes f p ≡ true

-- What a listing without a limit returns: the error of a SCAN, or the matching payouts, which may
-- come more than once.
pub data IsListing {W : Type 0} (peek : W → String → Option Bytes) (f : PayoutFilter) (w : W)
    : Result (List Payout) → Type 0 where
  listing :
      (ps : List Payout)
      → ((p : Payout) → IsIn p ps ↔ ((key : String) × IsMatch peek f w key p))
      → IsListing peek f w (ok ps)
  failed_scan : (e : String) → IsListing peek f w (err ("scan payouts: " ++ e))

none_ne : {A : Type 0} {a : A} → none ≡ some a → ⊥
none_ne e = cc

module _ {W : Type 0} (client : Client Bytes W) (runtime : Runtime W)
    (peek : W → String → Option Bytes) (laws : Redis.Laws client peek)
    (answering : IsAnswering client peek) (Due : String → ℕ → W → String → Type 0)
    (scans : ScanLaws client peek Due) (f : PayoutFilter) (unlimited : f.limit ≤ℤ pos 0) where
  taken-IsMatch :
      (w : W) (key : String) (p : Payout)
      → starts_with key payout_key_prefix ≡ true
      → taken client runtime peek laws answering Due scans f unlimited key (peek w key) ≡ some p
      → IsMatch peek f w key p
  taken-IsMatch w key p k t = at_key (Bool-cases (starts_with key transfer_key_prefix)) t
    where
      decodes :
          (r : Result Payout)
          → (elim r [ ok q ↦ if passes f q then some q else none | err x ↦ none ]) ≡ some p
          → (elim r [ ok q ↦ some q | err x ↦ none ]) ≡ some p
      decodes (ok q) e = elim (Bool-cases (passes f q)) [
        | inl y ↦ subst (λ b. (if b then some q else none) ≡ some p) y e
        | inr n ↦
            let none_some : none ≡ some p =
              subst (λ b. (if b then some q else none) ≡ some p) n e in
            absurd (none_ne none_some)
      ]
      decodes (err x) e = cc

      value_of :
          (o : Option Bytes) → accepted client runtime f (reply_of o) ≡ some p → decoded o ≡ some p
      value_of none e = cc
      value_of (some b) e = decodes (unmarshal b) e

      at_key :
          (starts_with key transfer_key_prefix ≡ true)
            ⊎ (starts_with key transfer_key_prefix ≡ false)
          → taken client runtime peek laws answering Due scans f unlimited key (peek w key) ≡ some p
          → IsMatch peek f w key p
      at_key (inl y) t =
          let none_some : none ≡ some p =
            subst
              (λ b.
                (if b then none else accepted client runtime f (reply_of (peek w key))) ≡ some p)
              y t in
          absurd (none_ne none_some)
      at_key (inr n) t =
          let a : accepted client runtime f (reply_of (peek w key)) ≡ some p =
            subst
              (λ b.
                (if b then none else accepted client runtime f (reply_of (peek w key))) ≡ some p)
              n t in
          record {
            payout_key = k;
            not_index = n;
            held = value_of (peek w key) a;
            passed = accepted-passes client runtime f (reply_of (peek w key)) p a;
          }

  IsMatch-taken :
      (w : W) (key : String) (p : Payout)
      → IsMatch peek f w key p
      → taken client runtime peek laws answering Due scans f unlimited key (peek w key) ≡ some p
  IsMatch-taken w key p m = rw m.not_index (at_value (peek w key) m.held)
    where
      at_result :
          (r : Result Payout)
          → (elim r [ ok q ↦ some q | err x ↦ none ]) ≡ some p
          → (elim r [ ok q ↦ if passes f q then some q else none | err x ↦ none ]) ≡ some p
      at_result (ok q) e =
          let same : q ≡ p = same_some q p e in
          subst (λ x. (if passes f x then some x else none) ≡ some p) (sym same) (rw m.passed refl)
      at_result (err x) e = cc

      at_value :
          (o : Option Bytes) → decoded o ≡ some p → accepted client runtime f (reply_of o) ≡ some p
      at_value none e = cc
      at_value (some b) e = at_result (unmarshal b) e

  Complete-listing :
      (w : W) (ps : List Payout)
      → Complete client runtime peek laws answering Due scans f unlimited 0 [] w ps
      → (p : Payout) → IsIn p ps ↔ ((key : String) × IsMatch peek f w key p)
  Complete-listing w ps c p = (
    λ i. elim (c.only p i) [ inl b ↦ absurd b | inr t ↦ (t.0, taken-IsMatch w t.0 p t.1 t.2) ],
    λ t. c.takes t.0 p (due t.0 t.1) (IsMatch-taken w t.0 p t.1),
  )
    where
      holds : (o : Option Bytes) → decoded o ≡ some p → (v : Bytes) × (o ≡ some v)
      holds none e = cc
      holds (some v) e = (v, refl)

      due : (key : String) → IsMatch peek f w key p → Due payout_key_prefix 0 w key
      due key m =
          let (v, e) = holds (peek w key) m.held in
          scans.scan_starts payout_key_prefix key w v m.payout_key e

  -- Over a Redis server that keeps its laws and the guarantee of SCAN, answers each GET with what
  -- was stored, and to which nothing else writes meanwhile, with more fuel than a full iteration
  -- has rounds and a filter without a limit: `ListPayouts` returns the error of a SCAN, or exactly
  -- the payouts held under keys of payouts that the filter lets pass; each may come more than
  -- once.
  pub list_payouts-IsListing :
      (ends : ScanEnds client) (fuel : ℕ) (w : W)
      → ends.distance 0 < fuel
      → IsListing peek f w (list_payouts client runtime fuel f w).0
  list_payouts-IsListing ends fuel w b =
      both (list_payouts client runtime fuel f w).0
        (list_payouts-Listed client runtime f ends fuel w b)
        (unfold list_payouts in
          scan_from-Complete client runtime peek laws answering Due scans f unlimited fuel 0 [] w)
    where
      both :
          (r : Result (List Payout))
          → Listed f r
          → Returned (Complete client runtime peek laws answering Due scans f unlimited 0 [] w) r
          → IsListing peek f w r
      both r (Listed.page ps h) c = listing ps (Complete-listing w ps c)
      both r (Listed.scan_failed e) c = failed_scan e
