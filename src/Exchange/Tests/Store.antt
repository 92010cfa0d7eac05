-- ===== src/Exchange/Tests/Store.antt =====
-- Instances of the theorems on the Redis repository of rates.
use movra.Prelude.{◌*◌, ◌≤◌, ◌≡◌, ◌≢◌, refl, none, some, [], ◌∷◌}
use movra.Prelude.Int.{pos}
use movra.Prelude.Action.{ok, ◌>>=◌, total, wrapping, pure}
use movra.Platform.Time.{second}
use movra.Redis.Memory.{peek, counting-Laws, counting, counting-IsAnswering, counting-DelLaws}
use movra.Exchange.Json.{locked_fields}
use movra.Platform.Json.{object}
use movra.Exchange.Repository.{locked_key, get_rate, save_rate, get_locked_rate, delete_locked_rate}
use movra.Exchange.Repository.Locks.{
  stored_lock, read_time, get_locked_rate-fresh, get-delete_locked_rate,
}
use movra.Exchange.Repository.Rates.{cached_at, lookup_time, get-save_rate}
use movra.Exchange.Tests.Fixed.{fixed_point}
use movra.Exchange.Tests.Setup.{memory_host, empty_memory, MemoryWorld, flat_rate, two_minutes}

-- A store that holds a lock.
abbrev locked_memory : MemoryWorld
locked_memory = record empty_memory {
  entries = ("locked:c0ffee", object (locked_fields fixed_point two_minutes)) ∷ [];
}

get_locked_rate-fresh_example :
    (stored_lock fixed_point counting memory_host peek counting-Laws locked_memory "c0ffee"
      ≡ some two_minutes)
    × (read_time fixed_point counting memory_host peek counting-Laws "c0ffee" locked_memory
        ≤ two_minutes.expires_at)
unfolding get_locked_rate locked_fields ◌>>=◌ total pure
get_locked_rate-fresh_example =
    get_locked_rate-fresh fixed_point counting memory_host peek counting-Laws "c0ffee" locked_memory
      two_minutes refl

get-delete_locked_rate_example :
    (peek locked_memory (locked_key "c0ffee") ≢ none)
    × ((get_locked_rate fixed_point counting memory_host "c0ffee"
          (delete_locked_rate fixed_point counting memory_host "c0ffee" locked_memory).1).0
        ≡ ok none)
unfolding delete_locked_rate ◌>>=◌ wrapping pure
get-delete_locked_rate_example =
    get-delete_locked_rate fixed_point counting memory_host peek counting-Laws counting-IsAnswering
      counting-DelLaws "c0ffee" locked_memory refl

get-save_rate_example :
    (get_rate fixed_point counting memory_host "SGD" "PHP"
      (save_rate fixed_point counting memory_host flat_rate (pos (60 * second)) empty_memory).1).0
    ≡ cached_at fixed_point counting memory_host peek counting-Laws
        (lookup_time fixed_point counting memory_host peek counting-Laws "SGD" "PHP"
          (save_rate fixed_point counting memory_host flat_rate (pos (60 * second)) empty_memory).1)
        flat_rate
unfolding save_rate wrapping
get-save_rate_example =
    get-save_rate fixed_point counting memory_host peek counting-Laws counting-IsAnswering flat_rate
      (pos (60 * second)) empty_memory refl
