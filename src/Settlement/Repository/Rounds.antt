-- ===== src/Settlement/Repository/Rounds.antt =====
-- The loops of `ListPayouts` in internal/repository/redis_repository.go, over a server that answers
-- and keeps the guarantee of SCAN.
use mathlib.Core.Path.{subst}
use text.Mathlib.Text.{starts_with}
use Prim.Native.String.{◌++◌}
use movra.Prelude.{
  ℕ, zero, suc, String, ◌≡◌, refl, sym, ap, ◌∙◌, ◌⊎◌, inl, inr, Bool, true, false, Bool-cases,
  Option, none, some, List, [], ◌∷◌, arith, if◌then◌else◌, append, IsIn, IsIn-append,
}
use movra.Prelude.Int.{pos, ◌≤ℤ◌}
use movra.Prelude.Action.{
  Result, ok, err, pure, total, wrapping, map_error, bind_result, ◌>>=◌, Returned, fail,
}
use movra.Platform.Runtime.{Runtime}
use movra.Redis
use movra.Redis.{Client, IsAnswering, ScanLaws, reply_of}
use movra.Settlement.Model.{Payout}
use movra.Settlement.Interfaces.{PayoutFilter}
use movra.Settlement.Repository.{
  Bytes, payout_key_prefix, transfer_key_prefix, is_full, accepted, visit, visit_keys, scan_from,
}
use movra.Settlement.Repository.Page.{after_scan}

pub same_some : {A : Type 0} (q p : A) → some q ≡ some p → q ≡ p
same_some q p e = cc

module _ {W : Type 0} (client : Client Bytes W) (runtime : Runtime W)
    (peek : W → String → Option Bytes) (laws : Redis.Laws client peek)
    (answering : IsAnswering client peek) (Due : String → ℕ → W → String → Type 0)
    (scans : ScanLaws client peek Due) (f : PayoutFilter) (unlimited : f.limit ≤ℤ pos 0) where
  -- What the loop over keys takes from a key that holds `o`.
  abbrev pub taken : String → Option Bytes → Option Payout
  taken key o =
      if starts_with key transfer_key_prefix then none else accepted client runtime f (reply_of o)

  visit-taken : (key : String) (w : W) → (visit client runtime f key w).0 ≡ taken key (peek w key)
  unfolding visit
  visit-taken key w = elim (Bool-cases (starts_with key transfer_key_prefix)) [
    | inl e ↦ rw e refl
    | inr e ↦ rw (e, answering.replies key w) refl
  ]

  visit-keeps :
      (key : String) (w : W) (j : String) → peek (visit client runtime f key w).1 j ≡ peek w j
  unfolding visit
  visit-keeps key w j = elim (Bool-cases (starts_with key transfer_key_prefix)) [
    | inl e ↦ rw e refl
    | inr e ↦ rw e (laws.get_keeps key w j)
  ]

  visit-Due :
      (key : String) (w : W) (c : ℕ) (k : String)
      → Due payout_key_prefix c w k
      → Due payout_key_prefix c (visit client runtime f key w).1 k
  unfolding visit
  visit-Due key w c k due = elim (Bool-cases (starts_with key transfer_key_prefix)) [
    | inl e ↦ rw e due
    | inr e ↦ rw e (scans.get_due payout_key_prefix c w key k due)
  ]

  never_full : (ps : List Payout) → is_full f ps ≡ false
  unfolding is_full
  never_full ps = ground arith

  abbrev added : List Payout → Option Payout → List Payout
  added ps none = ps
  added ps (some p) = append ps (p ∷ [])

  visit_keys-step :
      (key : String) (keys : List String) (ps : List Payout) (w : W)
      → visit_keys client runtime f (key ∷ keys) ps w
        ≡ visit_keys client runtime f keys
            (added ps (taken key (peek w key)))
            (visit client runtime f key w).1
  unfolding visit_keys
  visit_keys-step key keys ps w =
      by_found (visit client runtime f key w).0
      ∙ ap (λ o. visit_keys client runtime f keys (added ps o) w') (visit-taken key w)
    where
      w' : W
      w' = (visit client runtime f key w).1

      by_found :
          (o : Option Payout)
          → elim o as (λ _. (Bool × List Payout) × W) [
            | none ↦ visit_keys client runtime f keys ps w'
            | some p ↦
                if is_full f (append ps (p ∷ []))
                then ((true, append ps (p ∷ [])), w')
                else visit_keys client runtime f keys (append ps (p ∷ [])) w'
          ]
            ≡ visit_keys client runtime f keys (added ps o) w'
      by_found none = refl
      by_found (some p) = rw (never_full (append ps (p ∷ []))) refl

  -- The loop over keys has taken what each of them holds, and nothing else.
  record Visited (keys : List String) (ps : List Payout) (w : W) (r : (Bool × List Payout) × W)
      : Type 0 where
    goes_on : r.0.0 ≡ false
    kept : (p : Payout) → IsIn p ps → IsIn p r.0.1
    takes :
        (key : String) (p : Payout) → IsIn key keys → taken key (peek w key) ≡ some p → IsIn p r.0.1
    only :
        (p : Payout)
        → IsIn p r.0.1
        → IsIn p ps ⊎ ((key : String) × IsIn key keys × (taken key (peek w key) ≡ some p))
    peeks : (j : String) → peek r.1 j ≡ peek w j
    due : (c : ℕ) (k : String) → Due payout_key_prefix c w k → Due payout_key_prefix c r.1 k

  kept_added : (ps : List Payout) (o : Option Payout) (p : Payout) → IsIn p ps → IsIn p (added ps o)
  kept_added ps none p i = i
  kept_added ps (some q) p i = (IsIn-append p q ps).1 (inl i)

  own_added : (ps : List Payout) (o : Option Payout) (p : Payout) → o ≡ some p → IsIn p (added ps o)
  own_added ps none p e = cc
  own_added ps (some q) p e = (IsIn-append p q ps).1 (inr (sym (same_some q p e)))

  added_only :
      (ps : List Payout) (o : Option Payout) (p : Payout)
      → IsIn p (added ps o)
      → IsIn p ps ⊎ (o ≡ some p)
  added_only ps none p i = inl i
  added_only ps (some q) p i = elim ((IsIn-append p q ps).0 i) [
    | inl j ↦ inl j
    | inr e ↦ inr (ap some (sym e))
  ]

  Visited-step :
      (key : String) (keys : List String) (ps : List Payout) (w : W)
      → Visited keys (added ps (taken key (peek w key))) (visit client runtime f key w).1 (
          visit_keys client runtime f keys
            (added ps (taken key (peek w key)))
            (visit client runtime f key w).1)
      → Visited (key ∷ keys) ps w (visit_keys client runtime f (key ∷ keys) ps w)
  Visited-step key keys ps w rest =
      let o = taken key (peek w key) in
      subst (Visited (key ∷ keys) ps w) (sym (visit_keys-step key keys ps w)) record {
        goes_on = rest.goes_on;
        kept = λ p i. rest.kept p (kept_added ps o p i);
        takes = λ j p i e. elim i [
          | inl same ↦ rest.kept p (own_added ps o p (ap (λ k. taken k (peek w k)) (sym same) ∙ e))
          | inr later ↦ rest.takes j p later (ap (taken j) (visit-keeps key w j) ∙ e)
        ];
        only = λ p i. elim (rest.only p i) [
          | inl j ↦ elim (added_only ps o p j) [
            | inl old ↦ inl old
            | inr e ↦ inr (key, inl refl, e)
          ]
          | inr t ↦ inr (t.0, inr t.1, ap (taken t.0) (sym (visit-keeps key w t.0)) ∙ t.2)
        ];
        peeks = λ j. rest.peeks j ∙ visit-keeps key w j;
        due = λ c k d. rest.due c k (visit-Due key w c k d);
      }

  visit_keys-Visited :
      (keys : List String) (ps : List Payout) (w : W)
      → Visited keys ps w (visit_keys client runtime f keys ps w)
  unfolding visit_keys
  visit_keys-Visited [] ps w = record {
    goes_on = refl;
    kept = λ p i. i;
    takes = λ key p b e. absurd b;
    only = λ p i. inl i;
    peeks = λ j. refl;
    due = λ c k d. d;
  }
  visit_keys-Visited (key ∷ keys) ps w =
      Visited-step key keys ps w (
        visit_keys-Visited keys (added ps (taken key (peek w key)))
          (visit client runtime f key w).1)

  -- The rest of an iteration has taken what each due key holds, and nothing else.
  pub record Complete (cursor : ℕ) (ps : List Payout) (w : W) (qs : List Payout) : Type 0 where
    pub kept : (p : Payout) → IsIn p ps → IsIn p qs
    pub takes :
        (key : String) (p : Payout)
        → Due payout_key_prefix cursor w key
        → taken key (peek w key) ≡ some p
        → IsIn p qs
    pub only :
        (p : Payout)
        → IsIn p qs
        → IsIn p ps
          ⊎ ((key : String) × (starts_with key payout_key_prefix ≡ true)
              × (taken key (peek w key) ≡ some p))

  module _ (cursor : ℕ) (ps : List Payout) (w : W) where
    abbrev round : Result (List String × ℕ) × W
    round = client.scan cursor payout_key_prefix 100 w

    peek_scanned : (j : String) → peek round.1 j ≡ peek w j
    peek_scanned j = scans.scan_keeps payout_key_prefix cursor 100 w j

    last_round :
        (keys : List String) (y : (Bool × List Payout) × W)
        → round.0 ≡ ok (keys, 0)
        → Visited keys ps round.1 y
        → Complete cursor ps w y.0.1
    last_round keys y e v = record {
      kept = v.kept;
      takes = λ key p due t.
          elim (scans.scan_continues payout_key_prefix cursor 100 w keys 0 key e due) [
            | inl i ↦ v.takes key p i (ap (taken key) (peek_scanned key) ∙ t)
            | inr n ↦ absurd (n.0 refl)
          ];
      only = λ p i. elim (v.only p i) [
        | inl j ↦ inl j
        | inr t ↦ inr (
          t.0,
          scans.scan_prefix payout_key_prefix cursor 100 w keys 0 t.0 e t.1,
          ap (taken t.0) (sym (peek_scanned t.0)) ∙ t.2,
        )
      ];
    }

    next_round :
        (keys : List String) (n : ℕ) (y : (Bool × List Payout) × W) (qs : List Payout)
        → round.0 ≡ ok (keys, suc n)
        → Visited keys ps round.1 y
        → Complete (suc n) y.0.1 y.1 qs
        → Complete cursor ps w qs
    next_round keys n y qs e v rest = record {
      kept = λ p i. rest.kept p (v.kept p i);
      takes = λ key p due t.
          elim (scans.scan_continues payout_key_prefix cursor 100 w keys (suc n) key e due) [
            | inl i ↦ rest.kept p (v.takes key p i (ap (taken key) (peek_scanned key) ∙ t))
            | inr m ↦
                rest.takes key p (v.due (suc n) key m.1)
                  (ap (taken key) (v.peeks key ∙ peek_scanned key) ∙ t)
          ];
      only = λ p i. elim (rest.only p i) [
        | inl j ↦ elim (v.only p j) [
          | inl old ↦ inl old
          | inr t ↦ inr (
            t.0,
            scans.scan_prefix payout_key_prefix cursor 100 w keys (suc n) t.0 e t.1,
            ap (taken t.0) (sym (peek_scanned t.0)) ∙ t.2,
          )
        ]
        | inr t ↦ inr (t.0, t.1, ap (taken t.0) (sym (v.peeks t.0 ∙ peek_scanned t.0)) ∙ t.2)
      ];
    }

  pub scan_from-Complete :
      (fuel cursor : ℕ) (ps : List Payout) (w : W)
      → Returned (Complete cursor ps w) (scan_from client runtime fuel f cursor ps w).0
  unfolding scan_from ◌>>=◌ total pure wrapping fail
  scan_from-Complete zero cursor ps w = tt
  scan_from-Complete (suc fuel) cursor ps w =
      scanned (λ n qs v. scan_from-Complete fuel (suc n) qs v)
        (client.scan cursor payout_key_prefix 100 w).0 refl
    where
      Rest : Type 0
      Rest =
          (n : ℕ) (qs : List Payout) (v : W)
          → Returned (Complete (suc n) qs v) (scan_from client runtime fuel f (suc n) qs v).0

      w₁ : W
      w₁ = (client.scan cursor payout_key_prefix 100 w).1

      after :
          (y : (Bool × List Payout) × W) (keys : List String) (n : ℕ) (r : Result (List Payout))
          → (client.scan cursor payout_key_prefix 100 w).0 ≡ ok (keys, suc n)
          → Visited keys ps w₁ y
          → Returned (Complete (suc n) y.0.1 y.1) r
          → Returned (Complete cursor ps w) r
      after y keys n (ok qs) e v c = next_round cursor ps w keys n y qs e v c
      after y keys n (err x) e v c = tt

      visited :
          Rest
          → (keys : List String) (next : ℕ) (y : (Bool × List Payout) × W)
          → (client.scan cursor payout_key_prefix 100 w).0 ≡ ok (keys, next)
          → Visited keys ps w₁ y
          → Returned
              (Complete cursor ps w)
              ((elim y.0.0 as (λ _. W → Result (List Payout) × W) [
                | true ↦ pure y.0.1
                | false ↦ elim next [
                  | zero ↦ pure y.0.1
                  | suc n ↦ scan_from client runtime fuel f (suc n) y.0.1
                ]
              ])
                y.1).0
      visited rest keys zero y e v = rw v.goes_on (last_round cursor ps w keys y e v)
      visited rest keys (suc n) y e v = rw v.goes_on (after y keys n _ e v (rest n y.0.1 y.1))

      scanned :
          Rest
          → (r : Result (List String × ℕ)) → (client.scan cursor payout_key_prefix 100 w).0 ≡ r
          → Returned
              (Complete cursor ps w)
              (bind_result
                (map_error (λ e. "scan payouts: " ++ e) r)
                w₁
                (after_scan client runtime f fuel ps)).0
      scanned rest (err x) e = tt
      scanned rest (ok (keys, next)) e =
          visited rest keys next (visit_keys client runtime f keys ps w₁) e
            (visit_keys-Visited keys ps w₁)
