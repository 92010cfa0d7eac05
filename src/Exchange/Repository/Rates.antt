-- ===== src/Exchange/Repository/Rates.antt =====
-- internal/repository/redis.go: the cache of rates.
use movra.Prelude.{String, ◌≡◌, Bool-cases, inl, inr, Option, none, some, if◌then◌else◌}
use movra.Prelude.Int.{ℤ}
use movra.Prelude.Action.{Fallible, ok, pure, total, catch, ◌>>=◌, ◌>>◌}
use movra.Platform.Time.{Time, after}
use movra.Platform.Float.{Floats}
use movra.Platform.Json.{Json, object}
use movra.Redis
use movra.Redis.{Client, Reply, value, nil, failure, IsAnswering, get-held}
use movra.Exchange.Interfaces.{Rate, Error, Host}
use movra.Exchange.Json.{rate_fields}
use movra.Exchange.Json.Roundtrip.{unmarshal_rate-rate_fields}
use movra.Exchange.Repository.{rate_key, save_rate, get_rate, read_rate, fresh_rate}
use movra.Exchange.Repository.Stored.{save_rate-stored}

module _ {F W : Type 0} (fl : Floats F) (client : Client (Json F) W) (host : Host F W)
    (peek : W → String → Option (Json F)) (laws : Redis.Laws client peek) where
  -- What a cached rate is answered with at a time.
  abbrev pub cached_at : Time → Rate F → Fallible Error (Option (Rate F))
  cached_at t r = if after t r.valid_until then ok none else ok (some r)

  -- The time at which `GetRate` compares.
  abbrev pub lookup_time : String → String → W → Time
  lookup_time source target w = (host.now (client.get (rate_key source target) w).1).0

  fresh_rate_lem :
      (key : String) (r : Rate F) (w : W)
      → (fresh_rate fl client host key r w).0 ≡ cached_at (host.now w).0 r
  unfolding ◌>>=◌ ◌>>◌ total pure catch
  fresh_rate_lem key r w = elim (Bool-cases (after (host.now w).0 r.valid_until)) [
    | inl y ↦ rw y
    | inr n ↦ rw n
  ]

  read_saved :
      (key : String) (r : Rate F) (a : Reply (Json F)) (w : W)
      → a ≡ value (object (rate_fields fl r))
      → (read_rate fl client host key a w).0 ≡ cached_at (host.now w).0 r
  read_saved key r a w e = rw (e, unmarshal_rate-rate_fields fl r) (fresh_rate_lem key r w)

  -- Over a Redis server that keeps its laws and answers each GET with what was stored, past its
  -- time to live or not: after `SaveRate` has succeeded, `GetRate` of the pair returns the rate,
  -- or finds none if its validity is over at the time of the answer.
  pub get-save_rate :
      IsAnswering client peek
      → (r : Rate F) (ttl : ℤ) (w : W) → (save_rate fl client host r ttl w).0 ≡ ok tt
      → (get_rate fl client host r.source_currency r.target_currency
          (save_rate fl client host r ttl w).1).0
        ≡ cached_at
            (lookup_time r.source_currency r.target_currency (save_rate fl client host r ttl w).1)
            r
  unfolding get_rate
  get-save_rate answering r ttl w saved =
      let w₁ = (save_rate fl client host r ttl w).1 in
      let key = rate_key r.source_currency r.target_currency in
      read_saved key r (client.get key w₁).0 (client.get key w₁).1 (
        get-held client peek answering key w₁ _
          (save_rate-stored fl client host peek laws r ttl w saved))
