-- ===== src/Settlement/Tests/Store.antt =====
-- Instances of the theorems on reading the store.
use movra.Prelude.{ℕ, suc, String, ◌≡◌, refl, Option, some, none, arith, List}
use movra.Prelude.Int.{pos}
use movra.Prelude.Action.{Result, ok, wrapping}
use movra.Redis.Memory.{
  World, memory, steady, ticking, peek, steady-Laws, steady-ScanLaws, Due, lookup, answer,
}
use movra.Redis.{IsAnswering, reply_of}
use movra.Settlement.Model.{failed}
use movra.Settlement.Interfaces.{PayoutFilter}
use movra.Settlement.Repository.{
  Bytes, save_payout, get_payout, get_payout_by_transfer_id, list_payouts,
}
use movra.Settlement.Repository.Lookup.{save-get_payout_by_transfer_id}
use movra.Settlement.Repository.Listing.{IsListing, list_payouts-IsListing}
use movra.Settlement.Repository.Page.{Listed, ScanEnds, list_payouts-Listed}
use movra.Settlement.Tests.{empty_world, holding, refused_payout, payout_7-IsPayoutId}

steady-IsAnswering : IsAnswering {V = Bytes} {W = World Bytes} steady peek
steady-IsAnswering = record { replies = λ k w. found (lookup k w.entries) }
  where
    found : (o : Option Bytes) → answer o ≡ reply_of o
    found none = refl
    found (some b) = refl

save-get_payout_by_transfer_id_example :
    ((get_payout steady
        (ticking none)
        "payout_7"
        (save_payout steady (ticking none) refused_payout empty_world).1).0
      ≡ ok refused_payout)
    × ((get_payout_by_transfer_id steady
          (ticking none)
          "t7"
          (save_payout steady (ticking none) refused_payout empty_world).1).0
        ≡ ok refused_payout)
unfolding save_payout wrapping
save-get_payout_by_transfer_id_example =
    save-get_payout_by_transfer_id steady (ticking none) peek steady-Laws steady-IsAnswering
      refused_payout empty_world payout_7-IsPayoutId refl

scan-ended :
    (keys : List String) (next : ℕ) (held : List String)
    → ◌≡◌ {A = Result (List String × ℕ)} (ok (held, 0)) (ok (keys, suc next))
    → ⊥
scan-ended keys next held h = cc

abbrev memory_scan_ends : ScanEnds {W = World Bytes} {V = Bytes} memory
memory_scan_ends = record {
  distance = λ cursor. 0;
  nearer = λ cursor prefix count w keys next h. absurd (scan-ended keys next _ h);
}

abbrev two_failed : PayoutFilter
two_failed = record { status = failed; method = ""; batch_id = ""; limit = pos 2; offset = pos 0 }

list_payouts-Listed_example :
    Listed two_failed (list_payouts memory (ticking none) 1 two_failed (holding refused_payout)).0
list_payouts-Listed_example =
    list_payouts-Listed memory (ticking none) two_failed memory_scan_ends 1 (holding refused_payout)
      (omega arith)

abbrev steady_scan_ends : ScanEnds {W = World Bytes} {V = Bytes} steady
steady_scan_ends = record {
  distance = λ cursor. 0;
  nearer = λ cursor prefix count w keys next h. absurd (scan-ended keys next _ h);
}

abbrev all_failed : PayoutFilter
all_failed = record two_failed { limit = pos 0 }

list_payouts-IsListing_example :
    IsListing peek all_failed
      (holding refused_payout)
      (list_payouts steady (ticking none) 1 all_failed (holding refused_payout)).0
list_payouts-IsListing_example =
    list_payouts-IsListing steady (ticking none) peek steady-Laws steady-IsAnswering Due
      steady-ScanLaws all_failed (omega arith) steady_scan_ends 1 (holding refused_payout)
      (omega arith)
