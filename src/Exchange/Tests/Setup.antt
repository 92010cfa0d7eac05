-- ===== src/Exchange/Tests/Setup.antt =====
-- A service in memory, for the tests.
use movra.Prelude.{ℕ, ◌+◌, ◌*◌, true, false, none, [], ◌∷◌}
use movra.Prelude.Action.{ok, err}
use movra.Platform.Time.{second}
use movra.Platform.Json.{Json}
use movra.Redis.Memory.{World, counting}
use movra.Exchange.Model.{ExchangeRate, LockedRate}
use movra.Exchange.Interfaces.{Rate, Host, RateProvider}
use movra.Exchange.Config.{Environment, Config, load}
use movra.Exchange.Service.{RateService}
use movra.Exchange.Wiring.{service_over}
use movra.Exchange.Tests.Fixed.{fixed_point}

abbrev pub MemoryWorld : Type 0
MemoryWorld = World (Json ℕ)

abbrev pub bare : Environment
bare = record {
  getenv = λ key. "";
  atoi = λ s. err "invalid syntax";
  parse_bool = λ s. err "invalid syntax";
}

abbrev pub defaults : Config ℕ
defaults = load fixed_point bare

-- A clock that moves on by one at each reading.
abbrev pub memory_host : Host ℕ MemoryWorld
memory_host = record {
  now = λ w. (w.clock, record w { clock = w.clock + 1 });
  context_error = λ w. (none, w);
  new_uuid = λ w. ("c0ffee", w);
  random_float = λ w. (0, w);
}

abbrev pub flat_rate : Rate ℕ
flat_rate = record {
  source_currency = "SGD";
  target_currency = "PHP";
  mid_rate = 42_500_000;
  bid_rate = 42_393_750;
  ask_rate = 42_606_250;
  spread = 5_000;
  source = "flat";
  fetched_at = 7 * second;
  valid_until = 67 * second;
}

-- A provider with one rate.
abbrev pub flat_provider : RateProvider ℕ MemoryWorld
flat_provider = record {
  get_rate = λ from to w. (ok flat_rate, w);
  get_rates = λ pairs w. (ok (flat_rate ∷ []), w);
  name = "flat";
  supports_inverse = true;
}

abbrev pub memory_service : RateService ℕ MemoryWorld
memory_service = service_over fixed_point flat_provider counting memory_host defaults

abbrev pub empty_memory : MemoryWorld
empty_memory = record { entries = []; clock = 8 * second; faults = [] }

-- The rate as the service gives it.
abbrev pub served_rate : ExchangeRate ℕ
served_rate = record {
  source_currency = "SGD";
  target_currency = "PHP";
  mid_rate = 42_500_000;
  rate = "42.500000";
  buy_rate = "42.372500";
  bid_rate = 42_393_750;
  ask_rate = 42_606_250;
  spread = 5_000;
  margin_percentage = "0.30";
  source = "flat";
  fetched_at = 7 * second;
  expires_at = 67 * second;
}

-- Its lock, where ten minutes were asked for.
abbrev pub two_minutes : LockedRate ℕ
two_minutes = record {
  lock_id = "c0ffee";
  rate = served_rate;
  locked_at = 8 * second;
  expires_at = 128 * second;
  expired = false;
}
