-- ===== src/Exchange/Tests/Service.antt =====
-- Instances of the theorems on the rate service.
use movra.Prelude.{ℕ, ◌*◌, String, ◌≡◌, refl, ap, Option, some, arith}
use movra.Prelude.Int.{pos, ◌-ℤ◌, wrap}
use movra.Prelude.Action.{ok, ◌>>=◌, ◌>>◌, total, wrapping, catch, pure}
use movra.Platform.Time.{second, seconds}
use movra.Platform.Text.{decimal}
use movra.Redis.Memory.{peek, counting-Laws, counting, counting-IsAnswering}
use movra.Exchange.Model.{LockedRate, RateQuote, RateLockRequest}
use movra.Exchange.Repository.Locks.{stored_lock, read_time}
use movra.Exchange.Config.{load}
use movra.Exchange.Service
use movra.Exchange.Service.Locking.{IsLock, lock_rate-IsLock}
use movra.Exchange.Service.Caching.{Obtained, get_rate-Obtained}
use movra.Exchange.Service.Quotes.{Quoted, get_quote-Quoted}
use movra.Exchange.Wiring.{service_over, repository-LockLaws}
use movra.Exchange.Http
use movra.Exchange.Http.{lock_body, answer, reply_with}
use movra.Exchange.Http.Locks.{lock_reply, get_locked_rate-lock_rate}
use movra.Exchange.Tests.Fixed.{fixed_point, fixed_point-FloatLaws}
use movra.Exchange.Tests.Setup.{
  memory_service, memory_host, empty_memory, MemoryWorld, flat_provider, defaults, two_minutes,
}

abbrev held_lock : MemoryWorld → String → Option (LockedRate ℕ)
held_lock = stored_lock fixed_point counting memory_host peek counting-Laws

taken :
    (Service.lock_rate fixed_point memory_service "SGD" "PHP" (pos 600) empty_memory).0
    ≡ ok two_minutes
unfolding Service.lock_rate ◌>>=◌ Service.get_rate catch service_over pure wrapping
    Service.store_lock total ◌>>◌ ◌-ℤ◌ Service.new_lock seconds wrap Service.capped_duration decimal
taken = refl

lock_rate-IsLock_example :
    IsLock "SGD" "PHP" two_minutes
    × (held_lock
          (Service.lock_rate fixed_point memory_service "SGD" "PHP" (pos 600) empty_memory).1
          "c0ffee"
        ≡ some two_minutes)
unfolding service_over load
lock_rate-IsLock_example =
    lock_rate-IsLock fixed_point memory_service held_lock
      (repository-LockLaws fixed_point counting memory_host peek counting-Laws) (omega arith) "SGD"
      "PHP" (pos 600) empty_memory two_minutes taken

get_rate-Obtained_example :
    Obtained fixed_point memory_service "SGD" "PHP" empty_memory
      (Service.get_rate fixed_point memory_service "SGD" "PHP" empty_memory)
get_rate-Obtained_example = get_rate-Obtained fixed_point memory_service "SGD" "PHP" empty_memory

abbrev quote_100 : RateQuote ℕ
quote_100 = record {
  source_currency = "SGD";
  target_currency = "PHP";
  source_amount = 100_000_000;
  target_amount = 4_237_250_000;
  exchange_rate = 42_372_500;
  mid_market_rate = 42_500_000;
  fee = 3_000_000;
  total_cost = 103_000_000;
  valid_until = 67 * second;
  quote_id = "c0ffee";
}

get_quote-Quoted_example :
    Quoted fixed_point memory_service "SGD" "PHP" 100_000_000 empty_memory quote_100
unfolding Service.get_quote ◌>>=◌ catch service_over pure wrapping total decimal
get_quote-Quoted_example =
    get_quote-Quoted fixed_point memory_service "SGD" "PHP" 100_000_000 fixed_point-FloatLaws
      empty_memory quote_100 refl

abbrev ten_minutes : RateLockRequest
ten_minutes = record {
  source_currency = "SGD";
  target_currency = "PHP";
  duration_seconds = pos 600;
}

posted :
    (Http.lock_rate fixed_point memory_service (ok ten_minutes) empty_memory).0
    ≡ answer 200 (lock_body two_minutes)
unfolding Http.lock_rate
posted = ap (reply_with 500 lock_body) taken

get_locked_rate-lock_rate_example :
    (Http.get_locked_rate fixed_point memory_service "c0ffee"
      (Http.lock_rate fixed_point memory_service (ok ten_minutes) empty_memory).1).0
    ≡ lock_reply
        (read_time fixed_point counting memory_host peek counting-Laws "c0ffee"
          (Http.lock_rate fixed_point memory_service (ok ten_minutes) empty_memory).1)
        two_minutes
get_locked_rate-lock_rate_example =
    get_locked_rate-lock_rate fixed_point flat_provider counting memory_host defaults peek
      counting-Laws counting-IsAnswering ten_minutes empty_memory two_minutes posted
