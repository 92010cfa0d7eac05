-- ===== src/Redis.antt =====
-- What the services ask of the Redis server through the go-redis client, and the documented
-- behaviour of the server that they rely on. `V` is the type of the stored values, `W` the world
-- that the server is part of.
pub mod Memory
use text.Mathlib.Text.{starts_with}
use movra.Prelude.{
  ℕ, String, ◌≡◌, ◌≢◌, ◌↔◌, ◌⊎◌, Option, none, some, List, [], ◌∷◌, if◌then◌else◌, ◌==◌, true, IsIn,
}
use movra.Prelude.Int.{ℤ}
use movra.Prelude.Action.{Action, ok}

-- The answer to a GET: `redis.Nil` stands for no value.
pub data Reply {ℓ} (V : Type ℓ) : Type ℓ where
  value : V → Reply V
  nil : Reply V
  failure : String → Reply V

-- SET with a time to live in nanoseconds.
pub record Set (V : Type 0) : Type 0 where
  pub key : String
  pub entry : V
  pub ttl : ℤ

pub record Client (V W : Type 0) : Type 0 where
  pub get : String → W → Reply V × W
  -- the commands of a pipeline, in order
  pub exec : List (Set V) → Action W (Unit {0})
  -- DEL of one key: how many keys were removed
  pub del : String → Action W ℕ
  -- SCAN from a cursor, with a prefix of the keys and a count: keys, and the next cursor
  pub scan : ℕ → String → ℕ → Action W (List String × ℕ)
  pub ping : Action W (Unit {0})
  pub info : String → Action W String
  pub db_size : Action W ℤ

-- The commands write the value `v` under the key `k`.
abbrev pub Writes : {V : Type 0} → List (Set V) → String → V → Type 0
Writes [] k v = ⊥
Writes (c ∷ cs) k v = ((c.key ≡ k) × (c.entry ≡ v)) ⊎ Writes cs k v

-- The value that a key has after the commands, `o` before them.
abbrev pub written : {V : Type 0} → List (Set V) → String → Option V → Option V
written [] k o = o
written (c ∷ cs) k o = written cs k (if c.key == k then some c.entry else o)

-- `peek w k` is what was last written under `k` and not deleted, whether or not it has expired.
-- A GET that returns a value returns that one; a pipeline that succeeds has run all its commands,
-- one that fails some of them; no other key changes.
pub record Laws {V W : Type 0} (client : Client V W) (peek : W → String → Option V) : Type 0 where
  pub get_value : (k : String) (w : W) {v : V} → (client.get k w).0 ≡ value v → peek w k ≡ some v
  pub get_keeps : (k : String) (w : W) (j : String) → peek (client.get k w).1 j ≡ peek w j
  pub exec_ok :
      (cs : List (Set V)) (w : W)
      → (client.exec cs w).0 ≡ ok tt
      → (j : String) → peek (client.exec cs w).1 j ≡ written cs j (peek w j)
  pub exec_partial :
      (cs : List (Set V)) (w : W) (j : String)
      → (peek (client.exec cs w).1 j ≡ peek w j)
        ⊎ ((v : V) × Writes cs j v × (peek (client.exec cs w).1 j ≡ some v))

-- The answer to a GET of a key that holds `o`.
abbrev pub reply_of : {V : Type 0} → Option V → Reply V
reply_of none = nil
reply_of (some v) = value v

-- A server that is there: a GET answers with what is stored, and no key has expired.
pub record IsAnswering {V W : Type 0} (client : Client V W) (peek : W → String → Option V)
    : Type 0 where
  pub replies : (k : String) (w : W) → (client.get k w).0 ≡ reply_of (peek w k)

-- A SCAN that runs through: `Due prefix cursor w k` says that an iteration that stands at the cursor
-- has the key still to return. From its start that is every key with the prefix that holds a value;
-- a round returns a key that is due, or leaves it due at the next cursor, which is not 0 then. Keys
-- may come more than once. Nothing else writes in between.
pub record ScanLaws {V W : Type 0} (client : Client V W) (peek : W → String → Option V)
    (Due : String → ℕ → W → String → Type 0) : Type 0 where
  pub scan_starts :
      (prefix k : String) (w : W) (v : V)
      → starts_with k prefix ≡ true
      → peek w k ≡ some v
      → Due prefix 0 w k
  pub scan_continues :
      (prefix : String) (cursor count : ℕ) (w : W) (keys : List String) (next : ℕ) (k : String)
      → (client.scan cursor prefix count w).0 ≡ ok (keys, next)
      → Due prefix cursor w k
      → IsIn k keys ⊎ ((next ≢ 0) × Due prefix next (client.scan cursor prefix count w).1 k)
  pub scan_prefix :
      (prefix : String) (cursor count : ℕ) (w : W) (keys : List String) (next : ℕ) (k : String)
      → (client.scan cursor prefix count w).0 ≡ ok (keys, next)
      → IsIn k keys
      → starts_with k prefix ≡ true
  pub scan_keeps :
      (prefix : String) (cursor count : ℕ) (w : W) (j : String)
      → peek (client.scan cursor prefix count w).1 j ≡ peek w j
  pub get_due :
      (prefix : String) (cursor : ℕ) (w : W) (j k : String)
      → Due prefix cursor w k
      → Due prefix cursor (client.get j w).1 k

-- DEL removes its key if it succeeds, and touches no other; it counts the keys it has removed.
pub record DelLaws {V W : Type 0} (client : Client V W) (peek : W → String → Option V)
    : Type 0 where
  pub del_ok :
      (k : String) (w : W) {n : ℕ} → (client.del k w).0 ≡ ok n → peek (client.del k w).1 k ≡ none
  pub del_counts :
      (k : String) (w : W) {n : ℕ} → (client.del k w).0 ≡ ok n → (n ≡ 0) ↔ (peek w k ≡ none)
  pub del_others : (k j : String) (w : W) → j ≢ k → peek (client.del k w).1 j ≡ peek w j

pub get-held :
    {V W : Type 0} (client : Client V W) (peek : W → String → Option V)
    → IsAnswering client peek
    → (k : String) (w : W) (v : V) → peek w k ≡ some v
    → (client.get k w).0 ≡ value v
get-held client peek answering k w v h = rw (answering.replies k w, h, reply_of)
