-- ===== src/Exchange/Tests/Streaming.antt =====
-- Instances of the theorems on the stream of rates, over a world that is the stream's messages.
use movra.Prelude.{ℕ, String, ◌≡◌, refl, none, true, List, [], ◌∷◌, append}
use movra.Prelude.Int.{pos}
use movra.Prelude.Action.{Fallible, ok, err, ◌>>=◌, catch, wrapping, pure}
use movra.Exchange.Service.{RateService}
use movra.Exchange.Service
use movra.Exchange.Grpc.Messages.{RateUpdate}
use movra.Exchange.Grpc.Stream.{RateStream, stream_rates}
use movra.Exchange.Grpc.Stream.Sent.{StreamLaws, Streamed, stream_rates-Streamed}
use movra.Exchange.Tests.Fixed.{fixed_point}
use movra.Exchange.Tests.Setup.{flat_rate}

abbrev Log : Type 0
Log = List RateUpdate

abbrev log_service : RateService ℕ Log
log_service = record {
  provider = record {
    get_rate = λ from to w. (ok flat_rate, w);
    get_rates = λ pairs w. (ok [], w);
    name = "flat";
    supports_inverse = true;
  };
  repository = record {
    save_rate = λ r ttl w. (ok tt, w);
    get_rate = λ from to w. (ok none, w);
    save_locked_rate = λ l w. (ok tt, w);
    get_locked_rate = λ id w. (ok none, w);
    delete_locked_rate = λ id w. (ok tt, w);
    extend_locked_rate = λ id t w. (ok tt, w);
    health = λ w. (ok tt, w);
  };
  host = record {
    now = λ w. (0, w);
    context_error = λ w. (none, w);
    new_uuid = λ w. ("", w);
    random_float = λ w. (0, w);
  };
  rate_cache_ttl = pos 60;
  lock_duration = pos 30;
}

abbrev log_stream : RateStream Log
log_stream = record { send = λ u w. (ok tt, append w (u ∷ [])); next_tick = λ w. (none, w) }

log_stream-StreamLaws : StreamLaws fixed_point log_service log_stream (λ w. w)
unfolding Service.get_rate Service.fetch_rate ◌>>=◌ catch wrapping pure
log_stream-StreamLaws = record {
  send_ok = λ u w h. refl;
  send_err = λ u w h. absurd (ok_ne h);
  tick_apart = λ w. refl;
  service_apart = λ from to w. refl;
}
  where
    ok_ne : {e : String} → ◌≡◌ {A = Fallible String (Unit {0})} (ok tt) (err e) → ⊥
    ok_ne h = cc

-- The first sends, and two rounds.
stream_rates-Streamed_example :
    Streamed fixed_point log_service log_stream
      (λ w. w)
      log_stream-StreamLaws
      2
      ("SGD:PHP" ∷ "SGD:USD" ∷ [])
      []
      (stream_rates fixed_point log_service log_stream 2 ("SGD:PHP" ∷ "SGD:USD" ∷ []) [])
stream_rates-Streamed_example =
    stream_rates-Streamed fixed_point log_service log_stream (λ w. w) log_stream-StreamLaws 2
      ("SGD:PHP" ∷ "SGD:USD" ∷ []) []
