-- ===== src/Settlement/Repository/Page.antt =====
-- `ListPayouts` of internal/repository/redis_repository.go: its result and its rounds.
use Prim.Native.String.{◌++◌}
use mathlib.Core.Path.{subst}
use text.Mathlib.Text.{starts_with}
use movra.Prelude.{
  ℕ, zero, suc, ◌<◌, String, ◌≡◌, refl, ◌⊎◌, inl, inr, ◌≢◌, Bool, true, false, Bool-cases, Option,
  none, some, List, [], ◌∷◌, arith, if◌then◌else◌, length, append,
}
use movra.Prelude.Int.{pos, ◌≤ℤ◌}
use movra.Prelude.Action.{Result, ok, err, pure, total, wrapping, map_error, bind_result, ◌>>=◌}
use movra.Platform.Runtime.{Runtime}
use movra.Redis.{Client, Reply, value, nil, failure}
use movra.Settlement.Model.{Payout}
use movra.Settlement.Interfaces.{PayoutFilter}
use movra.Settlement.Repository.{
  Bytes, payout_key_prefix, transfer_key_prefix, unmarshal, passes, is_full, accepted, visit,
  visit_keys, scan_from, list_payouts,
}

abbrev pub AllPass : PayoutFilter → List Payout → Type 0
AllPass f [] = Unit
AllPass f (p ∷ ps) = (passes f p ≡ true) × AllPass f ps

-- A list that the filter allows: all its payouts pass, and there are no more than the limit, if
-- there is one.
pub record IsPage (f : PayoutFilter) (ps : List Payout) : Type 0 where
  pub all_pass : AllPass f ps
  pub within : (f.limit ≤ℤ pos 0) ⊎ (pos (length ps) ≤ℤ f.limit)

-- Between two keys of a scan.
record IsOpen (f : PayoutFilter) (ps : List Payout) : Type 0 where
  all_pass : AllPass f ps
  not_full : is_full f ps ≡ false

length-append : (ps : List Payout) (p : Payout) → length (append ps (p ∷ [])) ≡ suc (length ps)
length-append [] p = refl
length-append (q ∷ ps) p = rw (length-append ps p)

AllPass-append :
    (f : PayoutFilter) (ps : List Payout) (p : Payout)
    → AllPass f ps
    → passes f p ≡ true
    → AllPass f (append ps (p ∷ []))
AllPass-append f [] p h e = (e, tt)
AllPass-append f (q ∷ ps) p h e = (h.0, AllPass-append f ps p h.1 e)

IsOpen-IsPage : (f : PayoutFilter) (ps : List Payout) → IsOpen f ps → IsPage f ps
IsOpen-IsPage f ps h = record { all_pass = h.all_pass; within = bound h.not_full }
  where
    bound : is_full f ps ≡ false → (f.limit ≤ℤ pos 0) ⊎ (pos (length ps) ≤ℤ f.limit)
    bound e = unfold is_full in ground arith

append-IsPage :
    (f : PayoutFilter) (ps : List Payout) (p : Payout)
    → IsOpen f ps
    → passes f p ≡ true
    → IsPage f (append ps (p ∷ []))
append-IsPage f ps p h e = record {
  all_pass = AllPass-append f ps p h.all_pass e;
  within = bound h.not_full;
}
  where
    bound :
        is_full f ps ≡ false → (f.limit ≤ℤ pos 0) ⊎ (pos (length (append ps (p ∷ []))) ≤ℤ f.limit)
    bound n = rw (length-append ps p) (unfold is_full in ground arith)

-- What the loop over the keys leaves: a page, if it has returned from the function.
abbrev Left : PayoutFilter → Bool × List Payout → Type 0
Left f (true, ps) = IsPage f ps
Left f (false, ps) = IsOpen f ps

-- What `ListPayouts` returns: a page, or the error of a SCAN.
pub data Listed (f : PayoutFilter) : Result (List Payout) → Type 0 where
  page : (ps : List Payout) → IsPage f ps → Listed f (ok ps)
  scan_failed : (e : String) → Listed f (err ("scan payouts: " ++ e))

-- A full iteration comes to an end: each SCAN returns the cursor 0, or one that is nearer to it.
pub record ScanEnds {W V : Type 0} (client : Client V W) : Type 0 where
  pub distance : ℕ → ℕ
  pub nearer :
      (cursor : ℕ) (prefix : String) (count : ℕ) (w : W) (keys : List String) (next : ℕ)
      → (client.scan cursor prefix count w).0 ≡ ok (keys, suc next)
      → distance (suc next) < distance cursor

-- What comes out of a test has passed it.
tested :
    {A : Type 0} (t : A → Bool) (q p : A) (b : Bool)
    → t q ≡ b
    → (if b then some q else none) ≡ some p
    → t p ≡ true
tested t q p true h e = subst (λ x. t x ≡ true) (same q p e) h
  where
    same : {A : Type 0} (q p : A) → some q ≡ some p → q ≡ p
    same q p e = cc
tested t q p false h e = absurd (none_ne p e)
  where
    none_ne : {A : Type 0} (p : A) → none ≢ some p
    none_ne p e = cc

skipped :
    {A W : Type 0} (b : Bool) (w : W) (run : Option A × W) (p : A)
    → (if b then (none, w) else run).0 ≡ some p
    → run.0 ≡ some p
skipped true w run p e = absurd (none_ne p e)
  where
    none_ne : {A : Type 0} (p : A) → none ≢ some p
    none_ne p e = cc
skipped false w run p e = e

module _ {W : Type 0} (client : Client Bytes W) (runtime : Runtime W) (f : PayoutFilter) where
  pub accepted-passes :
      (r : Reply Bytes) (p : Payout) → accepted client runtime f r ≡ some p → passes f p ≡ true
  accepted-passes (value b) p e = decoded (unmarshal b) e
    where
      decoded :
          (r : Result Payout)
          → (elim r [ ok q ↦ if passes f q then some q else none | err x ↦ none ]) ≡ some p
          → passes f p ≡ true
      decoded (ok q) e = tested (passes f) q p (passes f q) refl e
      decoded (err x) e = cc
  accepted-passes nil p e = cc
  accepted-passes (failure x) p e = cc

  visit-passes :
      (key : String) (w : W) (p : Payout)
      → (visit client runtime f key w).0 ≡ some p
      → passes f p ≡ true
  unfolding visit
  visit-passes key w p e =
      let (r, w') = client.get key w in
      accepted-passes r p
        (skipped (starts_with key transfer_key_prefix) w (accepted client runtime f r, w') p e)

  visit_keys-Left :
      (keys : List String) (ps : List Payout) (w : W)
      → IsOpen f ps
      → Left f (visit_keys client runtime f keys ps w).0
  unfolding visit_keys
  visit_keys-Left [] ps w h = h
  visit_keys-Left (key ∷ keys) ps w h =
      visited (λ qs g. visit_keys-Left keys qs w' g) (visit client runtime f key w).0 refl
    where
      w' : W
      w' = (visit client runtime f key w).1

      visited :
          ((qs : List Payout) → IsOpen f qs → Left f (visit_keys client runtime f keys qs w').0)
          → (o : Option Payout) → (visit client runtime f key w).0 ≡ o
          → Left f
              (elim o as (λ _. (Bool × List Payout) × W) [
                | none ↦ visit_keys client runtime f keys ps w'
                | some p ↦
                    if is_full f (append ps (p ∷ []))
                    then ((true, append ps (p ∷ [])), w')
                    else visit_keys client runtime f keys (append ps (p ∷ [])) w'
              ]).0
      visited rest none e = rest ps h
      visited rest (some p) e = elim (Bool-cases (is_full f (append ps (p ∷ [])))) [
        | inl full ↦ rw full (append-IsPage f ps p h (visit-passes key w p e))
        | inr n ↦ rw n (
            rest (append ps (p ∷ [])) record {
              all_pass = AllPass-append f ps p h.all_pass (visit-passes key w p e);
              not_full = n;
            })
      ]

  -- The rest of a round, behind its SCAN.
  abbrev pub after_scan : ℕ → List Payout → List String × ℕ → W → Result (List Payout) × W
  after_scan fuel ps x = total (visit_keys client runtime f x.0 ps) >>= λ y. elim y.0 [
    | true ↦ pure y.1
    | false ↦ elim x.1 [ zero ↦ pure y.1 | suc n ↦ scan_from client runtime fuel f (suc n) y.1 ]
  ]

  scan_from-Listed :
      (ends : ScanEnds client) (fuel cursor : ℕ) (ps : List Payout) (w : W)
      → ends.distance cursor < fuel
      → IsOpen f ps
      → Listed f (scan_from client runtime fuel f cursor ps w).0
  unfolding scan_from ◌>>=◌ total pure wrapping
  scan_from-Listed ends zero cursor ps w b h = absurd (omega arith)
  scan_from-Listed ends (suc fuel) cursor ps w b h =
      scanned (λ n qs v c g. scan_from-Listed ends fuel (suc n) qs v c g)
        (client.scan cursor payout_key_prefix 100 w).0 refl
    where
      Rest : Type 0
      Rest =
          (n : ℕ) (qs : List Payout) (v : W)
          → ends.distance (suc n) < fuel
          → IsOpen f qs
          → Listed f (scan_from client runtime fuel f (suc n) qs v).0

      w₁ : W
      w₁ = (client.scan cursor payout_key_prefix 100 w).1

      visited :
          Rest
          → (keys : List String) (next : ℕ) (y : (Bool × List Payout) × W)
          → (client.scan cursor payout_key_prefix 100 w).0 ≡ ok (keys, next)
          → Left f y.0
          → Listed f
              ((elim y.0.0 as (λ _. W → Result (List Payout) × W) [
                | true ↦ pure y.0.1
                | false ↦ elim next [
                  | zero ↦ pure y.0.1
                  | suc n ↦ scan_from client runtime fuel f (suc n) y.0.1
                ]
              ])
                y.1).0
      visited rest keys next ((true, qs), v) e left = page qs left
      visited rest keys zero ((false, qs), v) e left = page qs (IsOpen-IsPage f qs left)
      visited rest keys (suc n) ((false, qs), v) e left =
          rest n qs v (omega (arith, ends.nearer cursor payout_key_prefix 100 w keys n e)) left

      scanned :
          Rest
          → (r : Result (List String × ℕ)) → (client.scan cursor payout_key_prefix 100 w).0 ≡ r
          → Listed f
              (bind_result (map_error (λ e. "scan payouts: " ++ e) r) w₁ (after_scan fuel ps)).0
      scanned rest (err x) e = scan_failed x
      scanned rest (ok (keys, next)) e =
          visited rest keys next (visit_keys client runtime f keys ps w₁) e
            (visit_keys-Left keys ps w₁ h)

  -- For a server whose SCAN comes nearer to its end in each round, and with more fuel than the
  -- rounds of a full iteration, `ListPayouts` returns the error of a SCAN, or payouts that all
  -- pass the filter and are no more than its limit, if the limit is positive.
  pub list_payouts-Listed :
      (ends : ScanEnds client) (fuel : ℕ) (w : W)
      → ends.distance 0 < fuel
      → Listed f (list_payouts client runtime fuel f w).0
  unfolding list_payouts is_full
  list_payouts-Listed ends fuel w b =
      scan_from-Listed ends fuel 0 [] w b (record { all_pass = tt; not_full = ground arith })
