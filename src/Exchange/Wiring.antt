-- ===== src/Exchange/Wiring.antt =====
-- cmd/server/main.go of the exchange-rate service: the rate service over the Redis repository and
-- the simulated provider.
use movra.Prelude.{String, ap, ◌∙◌, ◌*◌, Option, none, some, ◌==◌, if◌then◌else◌}
use movra.Prelude.Int.{pos}
use movra.Prelude.Action.{Result, ok, err}
use movra.Platform.Time.{second, seconds}
use movra.Platform.Float.{Floats}
use movra.Platform.Json.{Json}
use movra.Redis
use movra.Redis.{Client}
use movra.Exchange.Model.{LockedRate}
use movra.Exchange.Interfaces.{RateProvider, Host}
use movra.Exchange.Config.{Config}
use movra.Exchange.Simulated.{
  SimulatedProviderConfig, DriftState, Cell, default_simulated_config, simulated_provider,
}
use movra.Exchange.Json.Roundtrip.{unmarshal_locked-locked_fields}
use movra.Exchange.Repository.{redis_repository}
use movra.Exchange.Repository.Locks.{decoded_lock, stored_lock}
use movra.Exchange.Repository.Stored.{save_locked-stored}
use movra.Exchange.Service.{RateService}
use movra.Exchange.Service.Locking.{LockLaws}

module _ {F : Type 0} (fl : Floats F) where
  -- The `switch` on the type of the provider.
  unfoldable pub provider_config : Config F → SimulatedProviderConfig F
  provider_config c =
      if c.provider_type == "simulated"
      then record {
        base_spread = c.provider_spread;
        max_drift = c.provider_max_drift;
        rate_validity_duration = seconds c.rate_cache_ttl;
        drift_interval = pos (5 * second);
        seed = pos 0;
      }
      else default_simulated_config fl

module _ {F W : Type 0} (fl : Floats F) where
  unfoldable pub setup_provider : Host F W → Cell W (DriftState F) → Config F → RateProvider F W
  unfolding provider_config
  setup_provider host cell c = simulated_provider fl host cell (provider_config fl c)

  -- The service over any provider, and the Redis repository.
  unfoldable pub service_over :
      RateProvider F W → Client (Json F) W → Host F W → Config F → RateService F W
  unfolding redis_repository
  service_over provider client host c = record {
    provider = provider;
    repository = redis_repository fl client host;
    host = host;
    rate_cache_ttl = c.rate_cache_ttl;
    lock_duration = c.lock_duration;
  }

  unfoldable pub new_rate_service :
      Client (Json F) W → Host F W → Cell W (DriftState F) → Config F → RateService F W
  unfolding setup_provider service_over
  new_rate_service client host cell c = service_over (setup_provider host cell c) client host c

  -- Over a Redis server that keeps its laws, the repository keeps those that the service relies on.
  pub repository-LockLaws :
      (client : Client (Json F) W) (host : Host F W) (peek : W → String → Option (Json F))
      (laws : Redis.Laws client peek)
      → LockLaws (redis_repository fl client host) (stored_lock fl client host peek laws)
  unfolding redis_repository
  repository-LockLaws client host peek laws = record {
    save_ok = λ l w h.
        ap (decoded_lock fl client host peek laws)
          (save_locked-stored fl client host peek laws l w h)
        ∙ ap (λ (r : Result (LockedRate F)). elim r [ ok m ↦ some m | err e ↦ none ])
            (unmarshal_locked-locked_fields fl l);
  }
