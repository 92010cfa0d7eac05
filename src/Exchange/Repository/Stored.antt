-- ===== src/Exchange/Repository/Stored.antt =====
-- What the Redis repository of the exchange-rate service holds: its writes and reads of a locked rate.
use movra.Prelude.{
  String, ◌≡◌, refl, ap, ◌∙◌, Bool, true, false, Option, some, [], ◌∷◌, eq_refl, if◌then◌else◌,
}
use movra.Prelude.Int.{ℤ, pos, leb_ℤ}
use movra.Prelude.Action.{Result, ok, err, map_error, wrapping, fail, total, ◌>>=◌}
use movra.Platform.Time.{Time}
use movra.Platform.Float.{Floats}
use movra.Platform.Json.{Json, object}
use movra.Redis
use movra.Redis.{Client, value, nil, failure, written, Set, IsAnswering, get-held}
use movra.Exchange.Model.{LockedRate}
use movra.Exchange.Interfaces.{Rate, plain, Host}
use movra.Exchange.Json.{
  exchange_rate_encodes, marshal_locked, locked_fields, rate_encodes, marshal_rate, rate_fields,
}
use movra.Exchange.Repository.{
  locked_key, rate_key, because, save_locked_rate, save_locked_json, until, save_rate,
  save_rate_json,
}

module _ {F W : Type 0} (fl : Floats F) (client : Client (Json F) W) (host : Host F W)
    (peek : W → String → Option (Json F)) (laws : Redis.Laws client peek) where
  ok_of-map_error :
      {E : Type 0} (f : String → E) (r : Result (Unit {0})) → map_error f r ≡ ok tt → r ≡ ok tt
  ok_of-map_error f (ok u) e = refl
  ok_of-map_error f (err x) e = cc

  -- A SET that succeeds has stored its value.
  set-stored :
      {E : Type 0} (f : String → E) (c : Set (Json F)) (w : W)
      → map_error f (client.exec (c ∷ []) w).0 ≡ ok tt
      → peek (client.exec (c ∷ []) w).1 c.key ≡ some c.entry
  set-stored f c w h = laws.exec_ok (c ∷ []) w (ok_of-map_error f _ h) c.key ∙ rw (eq_refl c.key)

  marshalled_locked :
      (l : LockedRate F) (j : Json F) → marshal_locked fl l ≡ ok j → j ≡ object (locked_fields fl l)
  unfolding marshal_locked
  marshalled_locked l j h = encoded (exchange_rate_encodes fl l.rate) h
    where
      encoded :
          (b : Bool)
          → ◌≡◌ {A = Result (Json F)}
              (if b then ok (object (locked_fields fl l)) else err "json: unsupported value")
              (ok j)
          → j ≡ object (locked_fields fl l)
      encoded true e = cc
      encoded false e = cc

  locked_json-stored :
      (l : LockedRate F) (r : Result (Json F)) (w : W)
      → (save_locked_json fl client host l r w).0 ≡ ok tt
      → (j : Json F) × (r ≡ ok j)
        × (peek (save_locked_json fl client host l r w).1 (locked_key l.lock_id) ≡ some j)
  unfolding ◌>>=◌ total wrapping fail
  locked_json-stored l (err e) w h = cc
  locked_json-stored l (ok j) w h = (j, refl, kept (leb_ℤ (until l.expires_at t) (pos 0)) h)
    where
      t : Time
      t = (host.now w).0

      w₁ : W
      w₁ = (host.now w).1

      c : Set (Json F)
      c = record { key = locked_key l.lock_id; entry = j; ttl = until l.expires_at t }

      kept :
          (b : Bool)
          → ((if b
                then fail (plain "locked rate has already expired")
                else wrapping (because "failed to save locked rate") (client.exec (c ∷ [])))
              w₁).0
            ≡ ok tt
          → peek
              ((if b
                  then fail (plain "locked rate has already expired")
                  else wrapping (because "failed to save locked rate") (client.exec (c ∷ [])))
                w₁).1
              (locked_key l.lock_id)
            ≡ some j
      kept true e = cc
      kept false e = set-stored (because "failed to save locked rate") c w₁ e

  -- A save that succeeds has stored the JSON of the lock.
  pub save_locked-stored :
      (l : LockedRate F) (w : W)
      → (save_locked_rate fl client host l w).0 ≡ ok tt
      → peek (save_locked_rate fl client host l w).1 (locked_key l.lock_id)
        ≡ some (object (locked_fields fl l))
  unfolding save_locked_rate
  save_locked-stored l w h =
      let (j, m, held) = locked_json-stored l (marshal_locked fl l) w h in
      held ∙ ap some (marshalled_locked l j m)

  rate_json-stored :
      (r : Rate F) (ttl : ℤ) (m : Result (Json F)) (w : W)
      → (save_rate_json fl client host r ttl m w).0 ≡ ok tt
      → (j : Json F) × (m ≡ ok j)
        × (peek
              (save_rate_json fl client host r ttl m w).1
              (rate_key r.source_currency r.target_currency)
            ≡ some j)
  unfolding wrapping fail
  rate_json-stored r ttl (err e) w h = cc
  rate_json-stored r ttl (ok j) w h = (j, refl, set-stored (because "failed to save rate") _ w h)

  marshalled_rate :
      (r : Rate F) (j : Json F) → marshal_rate fl r ≡ ok j → j ≡ object (rate_fields fl r)
  unfolding marshal_rate
  marshalled_rate r j h = encoded (rate_encodes fl r) h
    where
      encoded :
          (b : Bool)
          → ◌≡◌ {A = Result (Json F)}
              (if b then ok (object (rate_fields fl r)) else err "json: unsupported value")
              (ok j)
          → j ≡ object (rate_fields fl r)
      encoded true e = cc
      encoded false e = cc

  -- A save that succeeds has stored the JSON of the rate.
  pub save_rate-stored :
      (r : Rate F) (ttl : ℤ) (w : W)
      → (save_rate fl client host r ttl w).0 ≡ ok tt
      → peek (save_rate fl client host r ttl w).1 (rate_key r.source_currency r.target_currency)
        ≡ some (object (rate_fields fl r))
  unfolding save_rate
  save_rate-stored r ttl w h =
      let (j, m, held) = rate_json-stored r ttl (marshal_rate fl r) w h in
      held ∙ ap some (marshalled_rate r j m)
