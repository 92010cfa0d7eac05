-- ===== src/Exchange/Repository.antt =====
-- internal/repository/redis.go: rates and locked rates in Redis, as JSON. A single SET is a pipeline
-- of one command.
pub mod Stored
pub mod Locks
pub mod Rates
use Prim.Native.String.{◌++◌}
use movra.Prelude.{
  ℕ, zero, suc, String, Bool, true, Option, none, some, List, [], ◌∷◌, if◌then◌else◌,
}
use movra.Prelude.Int.{ℤ, pos, ◌-ℤ◌, leb_ℤ}
use movra.Prelude.Action.{Result, ok, err, Run, pure, fail, total, catch, wrapping, ◌>>=◌, ◌>>◌}
use movra.Platform.Time.{Time, after}
use movra.Platform.Float.{Floats}
use movra.Platform.Json.{Json}
use movra.Redis
use movra.Redis.{Client, value, nil, failure, Set}
use movra.Exchange.Model.{LockedRate}
use movra.Exchange.Interfaces.{
  Rate, Error, plain, wrapped, not_found, expired, RateRepository, Host, CacheStats,
}
use movra.Exchange.Json.{marshal_rate, unmarshal_rate, marshal_locked, unmarshal_locked}

abbrev pub rate_key_prefix : String
rate_key_prefix = "rate:"

abbrev pub locked_key_prefix : String
locked_key_prefix = "locked:"

unfoldable pub rate_key : String → String → String
rate_key source target = rate_key_prefix ++ (source ++ (":" ++ target))

abbrev pub locked_key : String → String
locked_key lock_id = locked_key_prefix ++ lock_id

-- `fmt.Errorf("text: %w", err)` on an error of a library.
abbrev pub because : String → String → Error
because text e = wrapped text (plain e)

-- `time.Until(t)`; differences of more than 292 years, where Go's stops, are not modelled.
abbrev until : Time → Time → ℤ
until t now = pos t -ℤ pos now

module _ {F W : Type 0} (fl : Floats F) (client : Client (Json F) W) (host : Host F W) where
  abbrev now : Run Error W Time
  now = total host.now

  abbrev set : String → String → Json F → ℤ → Run Error W (Unit {0})
  set text key j ttl =
      wrapping (because text) (client.exec (record { key = key; entry = j; ttl = ttl } ∷ []))

  abbrev save_rate_json : Rate F → ℤ → Result (Json F) → Run Error W (Unit {0})
  save_rate_json rate ttl (err e) = fail (because "failed to marshal rate" e)
  save_rate_json rate ttl (ok j) =
      set "failed to save rate" (rate_key rate.source_currency rate.target_currency) j ttl

  unfoldable pub save_rate : Rate F → ℤ → Run Error W (Unit {0})
  unfolding marshal_rate rate_key
  save_rate rate ttl = save_rate_json rate ttl (marshal_rate fl rate)

  -- The result of a DEL is dropped.
  abbrev drop : String → Run Error W (Unit {0})
  drop key = do _ ← catch (client.del key); pure tt

  -- The check of a rate that was read.
  abbrev fresh_rate : String → Rate F → Run Error W (Option (Rate F))
  fresh_rate key rate = do
    t ← now
    if after t rate.valid_until then (do drop key; pure none) else pure (some rate)

  abbrev parsed_rate : String → Result (Rate F) → Run Error W (Option (Rate F))
  parsed_rate key (ok rate) = fresh_rate key rate
  parsed_rate key (err e) = fail (because "failed to unmarshal rate" e)

  abbrev read_rate : String → Redis.Reply (Json F) → Run Error W (Option (Rate F))
  read_rate key nil = pure none
  read_rate key (failure e) = fail (because "failed to get rate" e)
  read_rate key (value j) = parsed_rate key (unmarshal_rate fl j)

  unfoldable pub get_rate : String → String → Run Error W (Option (Rate F))
  unfolding unmarshal_rate rate_key
  get_rate source target w =
      let (r, w') = client.get (rate_key source target) w in read_rate (rate_key source target) r w'

  abbrev save_locked_json : LockedRate F → Result (Json F) → Run Error W (Unit {0})
  save_locked_json locked (err e) = fail (because "failed to marshal locked rate" e)
  save_locked_json locked (ok j) = do
    t ← now
    if leb_ℤ (until locked.expires_at t) (pos 0)
        then fail (plain "locked rate has already expired")
        else set "failed to save locked rate" (locked_key locked.lock_id) j
            (until locked.expires_at t)

  unfoldable pub save_locked_rate : LockedRate F → Run Error W (Unit {0})
  unfolding marshal_locked
  save_locked_rate locked = save_locked_json locked (marshal_locked fl locked)

  abbrev fresh_locked : String → LockedRate F → Run Error W (Option (LockedRate F))
  fresh_locked lock_id locked = do
    t ← now
    if after t locked.expires_at
        then (do drop (locked_key lock_id); fail (expired lock_id))
        else pure (some locked)

  abbrev parsed_locked : String → Result (LockedRate F) → Run Error W (Option (LockedRate F))
  parsed_locked lock_id (ok locked) = fresh_locked lock_id locked
  parsed_locked lock_id (err e) = fail (because "failed to unmarshal locked rate" e)

  abbrev pub read_locked : String → Redis.Reply (Json F) → Run Error W (Option (LockedRate F))
  read_locked lock_id nil = pure none
  read_locked lock_id (failure e) = fail (because "failed to get locked rate" e)
  read_locked lock_id (value j) = parsed_locked lock_id (unmarshal_locked fl j)

  unfoldable pub get_locked_rate : String → Run Error W (Option (LockedRate F))
  unfolding unmarshal_locked
  get_locked_rate lock_id w =
      let (r, w') = client.get (locked_key lock_id) w in read_locked lock_id r w'

  abbrev counted : String → ℕ → Run Error W (Unit {0})
  counted lock_id zero = fail (not_found lock_id)
  counted lock_id (suc n) = pure tt

  unfoldable pub delete_locked_rate : String → Run Error W (Unit {0})
  delete_locked_rate lock_id = do
    n ← wrapping (because "failed to delete locked rate") (client.del (locked_key lock_id))
    counted lock_id n

  abbrev extended : String → Time → Option (LockedRate F) → Run Error W (Unit {0})
  extended lock_id new_expiry none = fail (not_found lock_id)
  extended lock_id new_expiry (some locked) =
      save_locked_rate (record locked { expires_at = new_expiry })

  unfoldable pub extend_locked_rate : String → Time → Run Error W (Unit {0})
  unfolding get_locked_rate save_locked_rate
  extend_locked_rate lock_id new_expiry = do
    found ← get_locked_rate lock_id
    extended lock_id new_expiry found

  unfoldable pub health : Run Error W (Unit {0})
  health = wrapping plain client.ping

  unfoldable pub get_cache_stats : Run Error W CacheStats
  get_cache_stats = do
    _ ← wrapping (because "failed to get Redis stats") (client.info "stats")
    size ← wrapping (because "failed to get DB size") client.db_size
    t ← now
    pure (record { hits = pos 0; misses = pos 0; size = size; last_update = t })

  unfoldable pub redis_repository : RateRepository F W
  unfolding save_rate get_rate save_locked_rate get_locked_rate delete_locked_rate
      extend_locked_rate health
  redis_repository = record {
    save_rate = save_rate;
    get_rate = get_rate;
    save_locked_rate = save_locked_rate;
    get_locked_rate = get_locked_rate;
    delete_locked_rate = delete_locked_rate;
    extend_locked_rate = extend_locked_rate;
    health = health;
  }
