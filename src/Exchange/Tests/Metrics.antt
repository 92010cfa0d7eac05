-- ===== src/Exchange/Tests/Metrics.antt =====
-- The metrics over a registry in memory.
use movra.Prelude.{ℕ, ◌≡◌, refl, true, false, List, [], ◌∷◌}
use movra.Prelude.Int.{pos}
use movra.Prelude.Action.{pure}
use movra.Platform.Prometheus.{is_plain}
use movra.Platform.Prometheus.Memory.{World, memory, view, memory-Laws}
use movra.Exchange.Metrics.{
  chosen_namespace, new_metrics, record_rate_request, record_rate_lock, record_rate_lock_expired,
}
use movra.Exchange.Metrics.Recordings.{Recording, record_all, record_one, make_and_record}
use movra.Exchange.Metrics.Recordings.Recording.{rate_request, rate_lock, rate_lock_expired}
use movra.Exchange.Metrics.Recorded.{Counts, make_and_record-Counts}

abbrev empty : World
empty = record { registered = []; sample = λ n ls. 0; level = λ n. pos 0 }

abbrev recordings : List (Recording ℕ)
recordings =
    rate_request "SGD" "PHP" "ok" 12 true
    ∷ rate_lock "SGD" "PHP" 30
    ∷ rate_lock_expired
    ∷ rate_request "SGD" "PHP" "ok" 7 false
    ∷ []

two_requests :
    (make_and_record (memory {F = ℕ}) "" recordings empty).1.sample
      "exchange_rate_service_rate_requests_total"
      ("SGD" ∷ "PHP" ∷ "ok" ∷ [])
    ≡ 2
unfolding make_and_record new_metrics pure record_all record_one record_rate_request
    record_rate_lock record_rate_lock_expired
two_requests = refl

is_plain-chosen_namespace : is_plain (chosen_namespace "") ≡ true
unfolding chosen_namespace
is_plain-chosen_namespace = refl

make_and_record-Counts_example :
    Counts memory view memory-Laws "" is_plain-chosen_namespace recordings empty
      (make_and_record memory "" recordings empty)
make_and_record-Counts_example =
    make_and_record-Counts memory view memory-Laws "" is_plain-chosen_namespace recordings empty
      (λ n k i. refl)
