-- ===== src/Exchange/Repository/Locks.antt =====
-- internal/repository/redis.go: what the repository answers about locks.
use mathlib.Core.Path.{subst}
use movra.Prelude.{
  ℕ, zero, suc, ◌≤◌, String, ◌≡◌, ◌≢◌, refl, sym, ap, ◌∙◌, Bool, true, false, Bool-cases, inl, inr,
  Option, none, some, arith, if◌then◌else◌,
}
use movra.Prelude.Action.{
  Result, Fallible, ok, err, bind_result, map_error, wrapping, pure, fail, total, catch, ◌>>=◌,
  ◌>>◌,
}
use movra.Platform.Time.{Time, after}
use movra.Platform.Float.{Floats}
use movra.Platform.Json.{Json, object}
use movra.Redis
use movra.Redis.{Client, Reply, value, nil, failure, IsAnswering, get-held, DelLaws, reply_of}
use movra.Exchange.Model.{LockedRate}
use movra.Exchange.Interfaces.{Error, expired, Host}
use movra.Exchange.Json.{locked_fields, unmarshal_locked}
use movra.Exchange.Json.Roundtrip.{unmarshal_locked-locked_fields}
use movra.Exchange.Repository.{
  because, locked_key, save_locked_rate, get_locked_rate, delete_locked_rate, read_locked,
  parsed_locked, fresh_locked, counted,
}
use movra.Exchange.Repository.Stored.{save_locked-stored}

module _ {F W : Type 0} (fl : Floats F) (client : Client (Json F) W) (host : Host F W)
    (peek : W → String → Option (Json F)) (laws : Redis.Laws client peek) where
  -- The locked rate that a value holds.
  abbrev pub decoded_lock : Option (Json F) → Option (LockedRate F)
  decoded_lock none = none
  decoded_lock (some j) = elim (unmarshal_locked fl j) [ ok l ↦ some l | err e ↦ none ]

  abbrev pub stored_lock : W → String → Option (LockedRate F)
  stored_lock w lock_id = decoded_lock (peek w (locked_key lock_id))

  -- The time at which `GetLockedRate` compares.
  abbrev pub read_time : String → W → Time
  read_time lock_id w = (host.now (client.get (locked_key lock_id) w).1).0

  -- What a lock is answered with at a time.
  abbrev pub answer_at : Time → String → LockedRate F → Fallible Error (Option (LockedRate F))
  answer_at t lock_id l = if after t l.expires_at then err (expired lock_id) else ok (some l)

  fresh_locked_lem :
      (lock_id : String) (l : LockedRate F) (w : W)
      → (fresh_locked fl client host lock_id l w).0 ≡ answer_at (host.now w).0 lock_id l
  unfolding ◌>>=◌ ◌>>◌ total pure fail catch
  fresh_locked_lem lock_id l w = elim (Bool-cases (after (host.now w).0 l.expires_at)) [
    | inl y ↦ rw y
    | inr n ↦ rw n
  ]

  read_saved :
      (lock_id : String) (l : LockedRate F) (r : Reply (Json F)) (w : W)
      → r ≡ value (object (locked_fields fl l))
      → (read_locked fl client host lock_id r w).0 ≡ answer_at (host.now w).0 lock_id l
  read_saved lock_id l r w e =
      rw (e, unmarshal_locked-locked_fields fl l) (fresh_locked_lem lock_id l w)

  -- Over a server that answers: after `SaveLockedRate` has succeeded, `GetLockedRate` returns the
  -- lock, up to its expiry, and from then on the error that it has expired.
  pub get-save_locked_rate :
      IsAnswering client peek
      → (l : LockedRate F) (w : W) → (save_locked_rate fl client host l w).0 ≡ ok tt
      → (get_locked_rate fl client host l.lock_id (save_locked_rate fl client host l w).1).0
        ≡ answer_at (read_time l.lock_id (save_locked_rate fl client host l w).1) l.lock_id l
  unfolding get_locked_rate
  get-save_locked_rate answering l w saved =
      let w₁ = (save_locked_rate fl client host l w).1 in
      read_saved l.lock_id l (client.get (locked_key l.lock_id) w₁).0
        (client.get (locked_key l.lock_id) w₁).1
        (get-held client peek answering (locked_key l.lock_id) w₁ _
          (save_locked-stored fl client host peek laws l w saved))

  fresh_of_answer :
      (t : Time) (lock_id : String) (l m : LockedRate F)
      → answer_at t lock_id l ≡ ok (some m)
      → (l ≡ m) × (t ≤ m.expires_at)
  fresh_of_answer t lock_id l m h = chosen (after t l.expires_at) refl h
    where
      same : some l ≡ some m → l ≡ m
      same e = cc

      ok_same :
          ◌≡◌ {A = Fallible Error (Option (LockedRate F))} (ok (some l)) (ok (some m))
          → some l ≡ some m
      ok_same e = cc

      bound : after t l.expires_at ≡ false → t ≤ l.expires_at
      bound e = ground arith

      chosen :
          (b : Bool)
          → after t l.expires_at ≡ b
          → ◌≡◌ {A = Fallible Error (Option (LockedRate F))}
              (if b then err (expired lock_id) else ok (some l))
              (ok (some m))
          → (l ≡ m) × (t ≤ m.expires_at)
      chosen true e h = cc
      chosen false e h =
          (same (ok_same h), subst (λ x. t ≤ x.expires_at) (same (ok_same h)) (bound e))

  read_fresh :
      (lock_id : String) (m : LockedRate F) (r : Reply (Json F)) (w : W)
      → (read_locked fl client host lock_id r w).0 ≡ ok (some m)
      → (j : Json F) × (r ≡ value j)
        × (decoded_lock (some j) ≡ some m)
        × ((host.now w).0 ≤ m.expires_at)
  unfolding pure fail
  read_fresh lock_id m nil w h = cc
  read_fresh lock_id m (failure e) w h = cc
  read_fresh lock_id m (value j) w h =
      let (d, b) = parsed (unmarshal_locked fl j) h in (j, refl, d, b)
    where
      fresh :
          (l : LockedRate F)
          → (fresh_locked fl client host lock_id l w).0 ≡ ok (some m)
          → (l ≡ m) × ((host.now w).0 ≤ m.expires_at)
      fresh l h =
          fresh_of_answer (host.now w).0 lock_id l m (sym (fresh_locked_lem lock_id l w) ∙ h)

      parsed :
          (r : Result (LockedRate F))
          → (parsed_locked fl client host lock_id r w).0 ≡ ok (some m)
          → ((elim r [ ok l ↦ some l | err e ↦ none ]) ≡ some m) × ((host.now w).0 ≤ m.expires_at)
      parsed (ok l) h = (ap some (fresh l h).0, (fresh l h).1)
      parsed (err e) h = cc

  -- Over a Redis server that keeps its laws, a lock that `GetLockedRate` returns is the one stored
  -- under the id, and its expiry is not past at the time of the answer.
  pub get_locked_rate-fresh :
      (lock_id : String) (w : W) (l : LockedRate F)
      → (get_locked_rate fl client host lock_id w).0 ≡ ok (some l)
      → (stored_lock w lock_id ≡ some l) × (read_time lock_id w ≤ l.expires_at)
  unfolding get_locked_rate
  get_locked_rate-fresh lock_id w l h =
      let (j, r, d, b) =
        read_fresh lock_id l (client.get (locked_key lock_id) w).0
          (client.get (locked_key lock_id) w).1 h in
      (ap decoded_lock (laws.get_value (locked_key lock_id) w r) ∙ d, b)

  count_of-ok :
      (lock_id : String) (r : Result ℕ) (w : W)
      → (bind_result
          (map_error (because "failed to delete locked rate") r)
          w
          (counted fl client host lock_id)).0
        ≡ ok tt
      → (n : ℕ) × (r ≡ ok (suc n))
  unfolding pure fail
  count_of-ok lock_id (ok zero) w h = cc
  count_of-ok lock_id (ok (suc n)) w h = (n, refl)
  count_of-ok lock_id (err e) w h = cc

  count_of-world :
      (lock_id : String) (r : Result ℕ) (w : W)
      → (bind_result
          (map_error (because "failed to delete locked rate") r)
          w
          (counted fl client host lock_id)).1
        ≡ w
  unfolding pure fail
  count_of-world lock_id (ok zero) w = refl
  count_of-world lock_id (ok (suc n)) w = refl
  count_of-world lock_id (err e) w = refl

  read_missing :
      (lock_id : String) (r : Reply (Json F)) (w : W)
      → r ≡ nil
      → (read_locked fl client host lock_id r w).0 ≡ ok none
  unfolding pure
  read_missing lock_id r w e = rw e

  -- Over a Redis server that keeps its laws and answers each GET with what was stored, and whose
  -- DEL removes its key and counts it: if `DeleteLockedRate` succeeds, something was stored under
  -- the id, and `GetLockedRate` finds nothing afterwards.
  pub get-delete_locked_rate :
      IsAnswering client peek
      → DelLaws client peek
      → (lock_id : String) (w : W) → (delete_locked_rate fl client host lock_id w).0 ≡ ok tt
      → (peek w (locked_key lock_id) ≢ none)
        × ((get_locked_rate fl client host lock_id
              (delete_locked_rate fl client host lock_id w).1).0
            ≡ ok none)
  unfolding get_locked_rate delete_locked_rate ◌>>=◌ wrapping
  get-delete_locked_rate answering del lock_id w h =
      let key = locked_key lock_id in
      let (n, done) = count_of-ok lock_id (client.del key w).0 (client.del key w).1 h in
      let w₁ = (delete_locked_rate fl client host lock_id w).1 in
      let gone : peek w₁ key ≡ none =
        ap (λ v. peek v key) (count_of-world lock_id (client.del key w).0 (client.del key w).1)
        ∙ del.del_ok key w done in
      (
        λ e. suc_ne n ((del.del_counts key w done).1 e),
        read_missing lock_id (client.get key w₁).0 (client.get key w₁).1
            (answering.replies key w₁ ∙ ap reply_of gone),
      )
    where
      suc_ne : (n : ℕ) → suc n ≡ 0 → ⊥
      suc_ne n e = omega arith
