-- ===== src/Exchange/Grpc/Stream.antt =====
-- `StreamRates` of internal/grpc/server.go. The loop that only the end of the stream leaves is run for
-- a number of rounds.
pub mod Pairs
pub mod Requests
pub mod Sent
use Prim.Native.String.{◌++◌}
use movra.Prelude.{
  ℕ, zero, suc, String, Bool, true, false, ◌||◌, Option, none, some, List, ◌∷◌, if◌then◌else◌, ◌==◌,
  eqb,
}
use movra.Prelude.Action.{Fallible, ok, err, Run, Result}
use movra.Platform.Text.{split_on}
use movra.Platform.Float.{Floats}
use movra.Exchange.Model.{ExchangeRate}
use movra.Exchange.Interfaces.{Error, CurrencyPair}
use movra.Exchange.Service.{RateService}
use movra.Exchange.Service
use movra.Exchange.Grpc.{model_rate_to_proto}
use movra.Exchange.Grpc.Messages.{RateUpdate}

-- What a client's stream ends with.
pub data End : Type 0 where
  -- an error with the code InvalidArgument
  invalid_argument : String → End
  -- the error of `Send`
  send_failed : String → End
  -- the error of the context
  context_ended : String → End
  -- the rounds have run out, and the loop goes on
  streaming : End

-- The stream of a call, and the `select` on its context and the ticker: the context's error, or a
-- tick.
pub record RateStream (W : Type 0) : Type 0 where
  pub send : RateUpdate → W → Result (Unit {0}) × W
  pub next_tick : W → Option String × W

abbrev named : Option (String × String) → Option CurrencyPair
named none = none
named (some (source, target)) =
    if (source == "") || (target == "")
    then none
    else some (record { source = source; target = target })

-- The pair that a text names; none, if a part is empty.
unfoldable pub parse_pair : String → Option CurrencyPair
unfolding split_on
parse_pair text = named (split_on ":" text)

abbrev pair_or :
    String
    → Option CurrencyPair
    → Fallible End (List CurrencyPair)
    → Fallible End (List CurrencyPair)
pair_or text none rest =
    err (invalid_argument ("invalid currency pair format: " ++ (text ++ " (expected 'XXX:YYY')")))
pair_or text (some pair) (ok pairs) = ok (pair ∷ pairs)
pair_or text (some pair) (err e) = err e

unfoldable pub parse_pairs : List String → Fallible End (List CurrencyPair)
unfolding parse_pair
parse_pairs List.[] = ok List.[]
parse_pairs (text ∷ texts) = pair_or text (parse_pair text) (parse_pairs texts)

abbrev step_on : {W : Type 0} → Result (Unit {0}) → (W → Option String × W) → W → Option String × W
step_on (ok u) rest w = rest w
step_on (err e) rest w = (some e, w)

abbrev unless_failed : {W : Type 0} → Option String → (W → End × W) → W → End × W
unless_failed none rest w = rest w
unless_failed (some e) rest w = (send_failed e, w)

abbrev ticked : {W : Type 0} → Option String → (W → Option String × W) → (W → End × W) → W → End × W
ticked (some e) body rest w = (context_ended e, w)
ticked none body rest w = let (o, w') = body w in unless_failed o rest w'

module _ {F W : Type 0} (fl : Floats F) (s : RateService F W) (stream : RateStream W) where
  -- A rate that cannot be obtained is left out.
  abbrev sent : Fallible Error (ExchangeRate F) → (W → Option String × W) → W → Option String × W
  sent (err e) rest w = rest w
  sent (ok r) rest w =
      let (o, w') = stream.send (record { rate = some (model_rate_to_proto r) }) w in
      step_on o rest w'

  -- One round over the pairs: the error of `Send`, which ends it.
  unfoldable pub send_rates : List CurrencyPair → W → Option String × W
  send_rates List.[] w = (none, w)
  send_rates (p ∷ ps) w =
      let (r, w') = Service.get_rate fl s p.source p.target w in sent r (send_rates ps) w'

  unfoldable pub rounds : ℕ → List CurrencyPair → W → End × W
  rounds zero pairs w = (streaming, w)
  rounds (suc n) pairs w =
      let (o, w') = stream.next_tick w in ticked o (send_rates pairs) (rounds n pairs) w'

  abbrev stream_pairs : ℕ → Fallible End (List CurrencyPair) → W → End × W
  stream_pairs n (err e) w = (e, w)
  stream_pairs n (ok pairs) w =
      let (o, w') = send_rates pairs w in unless_failed o (rounds n pairs) w'

  unfoldable pub stream_rates : ℕ → List String → W → End × W
  unfolding parse_pairs
  stream_rates n List.[] w = (invalid_argument "at least one currency pair is required", w)
  stream_rates n (text ∷ texts) w = stream_pairs n (parse_pairs (text ∷ texts)) w
