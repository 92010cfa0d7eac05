-- ===== src/Redis/Memory.antt =====
-- A server in memory that keeps the laws of `Redis`, with a clock: each command runs or fails as a
-- list of faults says. It shows that the laws can be met, and runs the tests.
use text.Mathlib.Text.{starts_with}
use mathlib.Core.Path.{subst}
use movra.Prelude.{
  ℕ, ◌+◌, String, ◌≡◌, refl, ◌⊎◌, inl, inr, Bool, true, false, Bool-cases, Option, none, some, List,
  [], ◌∷◌, ◌==◌, eq_iff, if◌then◌else◌, ◌≢◌, ◌↔◌, sym, ◌∙◌, arith, test_of_ne, IsIn,
}
use movra.Prelude.Int.{pos}
use movra.Prelude.Action.{Result, ok, err}
use movra.Platform.Runtime.{Runtime, RandomLaws}
use movra.Redis.{
  Client, Reply, value, nil, Set, Writes, written, Laws, reply_of, IsAnswering, DelLaws, ScanLaws,
}

pub record World (V : Type 0) : Type 0 where
  pub entries : List (String × V)
  pub clock : ℕ
  -- whether the next pipelines fail
  pub faults : List Bool

keys_of_round :
    (ks keys : List String) (n next : ℕ)
    → ◌≡◌ {A = Result (List String × ℕ)} (ok (ks, n)) (ok (keys, next))
    → ks ≡ keys
keys_of_round ks keys n next e = cc

module _ {V : Type 0} where
  abbrev pub lookup : String → List (String × V) → Option V
  lookup k [] = none
  lookup k ((j, v) ∷ m) = if j == k then some v else lookup k m

  abbrev pub put_all : List (Set V) → List (String × V) → List (String × V)
  put_all [] m = m
  put_all (c ∷ cs) m = put_all cs ((c.key, c.entry) ∷ m)

  abbrev pub answer : Option V → Reply V
  answer none = nil
  answer (some v) = value v

  abbrev run : List Bool → List (Set V) → World V → Result (Unit {0}) × World V
  run [] cs w = (ok tt, record w { entries = put_all cs w.entries })
  run (false ∷ fs) cs w = (ok tt, record w { entries = put_all cs w.entries; faults = fs })
  run (true ∷ fs) cs w = (err "connection refused", record w { faults = fs })

  abbrev keys_with : String → List (String × V) → List String
  keys_with prefix [] = []
  keys_with prefix ((j, v) ∷ m) =
      if starts_with j prefix then j ∷ keys_with prefix m else keys_with prefix m

  abbrev without : String → List (String × V) → List (String × V)
  without k [] = []
  without k ((j, v) ∷ m) = if j == k then without k m else (j, v) ∷ without k m

  abbrev pub memory : Client V (World V)
  memory = record {
    get = λ k w. (answer (lookup k w.entries), w);
    exec = λ cs w. run w.faults cs w;
    del = λ k w. (ok 1, record w { entries = without k w.entries });
    scan = λ cursor prefix n w. (ok (keys_with prefix w.entries, 0), w);
    ping = λ w. (ok tt, w);
    info = λ section w. (ok "", w);
    db_size = λ w. (ok (pos 0), w);
  }

  -- A clock that moves on by one at each reading, and numbers that are all 0.
  abbrev pub ticking : Option String → Runtime (World V)
  ticking stopped = record {
    now = λ w. (w.clock, record w { clock = w.clock + 1 });
    rand_int = λ max w. (0, w);
    interrupted = λ d w. (stopped, w);
  }

  pub ticking-RandomLaws : (stopped : Option String) → RandomLaws (ticking stopped)
  ticking-RandomLaws stopped = record { rand_int_lt = λ max w h. h }

  abbrev pub peek : World V → String → Option V
  peek w k = lookup k w.entries

  lookup-put_all :
      (cs : List (Set V)) (m : List (String × V)) (j : String)
      → lookup j (put_all cs m) ≡ written cs j (lookup j m)
  lookup-put_all [] m j = refl
  lookup-put_all (c ∷ cs) m j = lookup-put_all cs ((c.key, c.entry) ∷ m) j

  written-cases :
      (cs : List (Set V)) (j : String) (o : Option V)
      → (written cs j o ≡ o) ⊎ ((v : V) × Writes cs j v × (written cs j o ≡ some v))
  written-cases [] j o = inl refl
  written-cases (c ∷ cs) j o = elim (Bool-cases (c.key == j)) [
    | inl e ↦ rw e (elim (written-cases cs j (some c.entry)) [
      | inl same ↦ inr (c.entry, inl ((eq_iff c.key j).0 e, refl), same)
      | inr t ↦ inr (t.0, inr t.1, t.2)
    ])
    | inr n ↦
        rw n (elim (written-cases cs j o) [ inl same ↦ inl same | inr t ↦ inr (t.0, inr t.1, t.2) ])
  ]

  answer-value : (o : Option V) {v : V} → answer o ≡ value v → o ≡ some v
  answer-value none h = cc
  answer-value (some x) h = cc

  run-ok :
      (fs : List Bool) (cs : List (Set V)) (w : World V)
      → (run fs cs w).0 ≡ ok tt
      → (j : String) → peek (run fs cs w).1 j ≡ written cs j (peek w j)
  run-ok [] cs w h j = lookup-put_all cs w.entries j
  run-ok (false ∷ fs) cs w h j = lookup-put_all cs w.entries j
  run-ok (true ∷ fs) cs w h j = cc

  run-partial :
      (fs : List Bool) (cs : List (Set V)) (w : World V) (j : String)
      → (peek (run fs cs w).1 j ≡ peek w j)
        ⊎ ((v : V) × Writes cs j v × (peek (run fs cs w).1 j ≡ some v))
  run-partial [] cs w j = rw (lookup-put_all cs w.entries j) (written-cases cs j (peek w j))
  run-partial (false ∷ fs) cs w j =
      rw (lookup-put_all cs w.entries j) (written-cases cs j (peek w j))
  run-partial (true ∷ fs) cs w j = inl refl

  pub memory-Laws : Laws memory peek
  memory-Laws = record {
    get_value = λ k w h. answer-value (lookup k w.entries) h;
    get_keeps = λ k w j. refl;
    exec_ok = λ cs w h j. run-ok w.faults cs w h j;
    exec_partial = λ cs w j. run-partial w.faults cs w j;
  }

  -- The same server, which fails at nothing.
  abbrev pub steady : Client V (World V)
  steady = record memory { exec = λ cs w. run [] cs w }

  pub steady-Laws : Laws steady peek
  steady-Laws = record {
    get_value = λ k w h. answer-value (lookup k w.entries) h;
    get_keeps = λ k w j. refl;
    exec_ok = λ cs w h j. run-ok [] cs w h j;
    exec_partial = λ cs w j. run-partial [] cs w j;
  }

  -- The same server, which fails at nothing and counts the keys that it deletes.
  abbrev present : Option V → ℕ
  present none = 0
  present (some v) = 1

  abbrev pub counting : Client V (World V)
  counting = record steady {
    del = λ k w. (ok (present (lookup k w.entries)), record w { entries = without k w.entries });
  }

  pub counting-Laws : Laws counting peek
  counting-Laws = record {
    get_value = λ k w h. answer-value (lookup k w.entries) h;
    get_keeps = λ k w j. refl;
    exec_ok = λ cs w h j. run-ok [] cs w h j;
    exec_partial = λ cs w j. run-partial [] cs w j;
  }

  reply_of-answer : (o : Option V) → answer o ≡ reply_of o
  reply_of-answer none = refl
  reply_of-answer (some v) = refl

  pub counting-IsAnswering : IsAnswering counting peek
  counting-IsAnswering = record { replies = λ k w. reply_of-answer (lookup k w.entries) }

  lookup-without : (k : String) (m : List (String × V)) → lookup k (without k m) ≡ none
  lookup-without k [] = refl
  lookup-without k ((j, v) ∷ m) = elim (Bool-cases (j == k)) [
    | inl e ↦ rw e (lookup-without k m)
    | inr n ↦ rw (n, n, lookup-without k m)
  ]

  lookup-without_other :
      (k j : String) (m : List (String × V)) → j ≢ k → lookup j (without k m) ≡ lookup j m
  lookup-without_other k j [] n = refl
  lookup-without_other k j ((i, v) ∷ m) n = elim (Bool-cases (i == k)) [
    | inl e ↦
        rw (e, test_of_ne i j (λ same. n (sym same ∙ (eq_iff i k).0 e)))
          (lookup-without_other k j m n)
    | inr other ↦ rw (other, lookup-without_other k j m n)
  ]

  count-present : (o : Option V) {n : ℕ} → present o ≡ n → (n ≡ 0) ↔ (o ≡ none)
  count-present none e = (λ _. refl, λ _. sym e)
  count-present (some v) e = (λ z. absurd (omega (arith, e, z)), λ h. absurd (none_ne h))
    where
      none_ne : some v ≢ none
      none_ne h = cc

  pub counting-DelLaws : DelLaws counting peek
  counting-DelLaws = record {
    del_ok = λ k w h. lookup-without k w.entries;
    del_counts = λ k w h. count-present (lookup k w.entries) (count h);
    del_others = λ k j w n. lookup-without_other k j w.entries n;
  }
    where
      count : {n m : ℕ} → ◌≡◌ {A = Result ℕ} (ok n) (ok m) → n ≡ m
      count h = cc

  -- The one round of an iteration has every key still to return.
  abbrev pub Due : String → ℕ → World V → String → Type 0
  Due prefix cursor w k = (v : V) × (starts_with k prefix ≡ true) × (lookup k w.entries ≡ some v)

  lookup-keys_with :
      (prefix k : String) (v : V) (m : List (String × V))
      → starts_with k prefix ≡ true
      → lookup k m ≡ some v
      → IsIn k (keys_with prefix m)
  lookup-keys_with prefix k v [] p h = absurd (none_ne v h)
    where
      none_ne : (v : V) → none ≢ some v
      none_ne v e = cc
  lookup-keys_with prefix k v ((j, x) ∷ m) p h = elim (Bool-cases (j == k)) [
    | inl e ↦ let same : j ≡ k = (eq_iff j k).0 e in rw (same, p) (inl refl)
    | inr n ↦ later (starts_with j prefix) (lookup-keys_with prefix k v m p (skip n h))
  ]
    where
      skip : (j == k) ≡ false → lookup k ((j, x) ∷ m) ≡ some v → lookup k m ≡ some v
      skip n h = subst (λ b. (if b then some x else lookup k m) ≡ some v) n h

      later :
          (b : Bool)
          → IsIn k (keys_with prefix m)
          → IsIn k (if b then j ∷ keys_with prefix m else keys_with prefix m)
      later true i = inr i
      later false i = i

  keys_with-prefix :
      (prefix k : String) (m : List (String × V))
      → IsIn k (keys_with prefix m)
      → starts_with k prefix ≡ true
  keys_with-prefix prefix k [] i = absurd i
  keys_with-prefix prefix k ((j, x) ∷ m) i =
      first (keys_with-prefix prefix k m) (starts_with j prefix) refl i
    where
      first :
          (IsIn k (keys_with prefix m) → starts_with k prefix ≡ true)
          → (b : Bool) → starts_with j prefix ≡ b
          → IsIn k (if b then j ∷ keys_with prefix m else keys_with prefix m)
          → starts_with k prefix ≡ true
      first rest true e (inl s) = subst (λ t. starts_with t prefix ≡ true) (sym s) e
      first rest true e (inr i) = rest i
      first rest false e i = rest i

  pub steady-ScanLaws : ScanLaws steady peek Due
  steady-ScanLaws = record {
    scan_starts = λ prefix k w v p h. (v, p, h);
    scan_continues = λ prefix cursor count w keys next k e due. inl (
        subst (IsIn k) (keys_of_round _ keys 0 next e)
          (lookup-keys_with prefix k due.0 w.entries due.1 due.2));
    scan_prefix = λ prefix cursor count w keys next k e i.
        keys_with-prefix prefix k w.entries
          (subst (IsIn k) (sym (keys_of_round _ keys 0 next e)) i);
    scan_keeps = λ prefix cursor count w j. refl;
    get_due = λ prefix cursor w j k due. due;
  }
