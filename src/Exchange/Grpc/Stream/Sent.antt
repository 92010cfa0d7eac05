-- ===== src/Exchange/Grpc/Stream/Sent.antt =====
-- What `StreamRates`, in internal/grpc/server.go, sends on its stream.
use movra.Prelude.{
  ℕ, zero, suc, String, ◌≡◌, refl, ap, ◌∙◌, Option, none, some, List, [], ◌∷◌, append,
}
use movra.Prelude.Action.{Result, Fallible, ok, err}
use movra.Platform.Float.{Floats}
use movra.Exchange.Model.{ExchangeRate}
use movra.Exchange.Interfaces.{Error, CurrencyPair}
use movra.Exchange.Service.{RateService}
use movra.Exchange.Service
use movra.Exchange.Grpc.{model_rate_to_proto}
use movra.Exchange.Grpc.Messages.{RateUpdate}
use movra.Exchange.Grpc.Stream.{
  End, invalid_argument, send_failed, context_ended, streaming, RateStream, parse_pairs, step_on,
  unless_failed, ticked, sent, send_rates, rounds, stream_pairs, stream_rates,
}
use movra.Exchange.Grpc.Stream.Requests.{
  AllNamed, HasUnnamed, Parsed, accepted, rejected, parse_pairs-Parsed,
}

append_nil : (us : List RateUpdate) → us ≡ append us []
append_nil [] = refl
append_nil (u ∷ us) = ap (λ vs. u ∷ vs) (append_nil us)

append_assoc : (us vs ws : List RateUpdate) → append (append us vs) ws ≡ append us (append vs ws)
append_assoc [] vs ws = refl
append_assoc (u ∷ us) vs ws = ap (λ xs. u ∷ xs) (append_assoc us vs ws)

-- What a stream's messages are, and that the service does not touch them.
pub record StreamLaws {F W : Type 0} (fl : Floats F) (s : RateService F W) (stream : RateStream W)
    (messages : W → List RateUpdate) : Type 0 where
  pub send_ok :
      (u : RateUpdate) (w : W)
      → (stream.send u w).0 ≡ ok tt
      → messages (stream.send u w).1 ≡ append (messages w) (u ∷ [])
  pub send_err :
      (u : RateUpdate) (w : W) {e : String}
      → (stream.send u w).0 ≡ err e
      → messages (stream.send u w).1 ≡ messages w
  pub tick_apart : (w : W) → messages (stream.next_tick w).1 ≡ messages w
  pub service_apart :
      (from to : String) (w : W) → messages (Service.get_rate fl s from to w).1 ≡ messages w

module _ {F W : Type 0} (fl : Floats F) (s : RateService F W) (stream : RateStream W) where
  abbrev update : ExchangeRate F → RateUpdate
  update r = record { rate = some (model_rate_to_proto r) }

  -- What the service answers for a pair in the world `w`, and the world that it leaves.
  abbrev asked : CurrencyPair → W → Fallible Error (ExchangeRate F) × W
  asked p w = Service.get_rate fl s p.source p.target w

  -- A round over the pairs, from the first world to the last: its messages, and the error of `Send`
  -- that ended it, if one did. The service is asked for each pair in turn, in the world that the
  -- pair before has left; what it returns is sent, and a pair that it refuses has no message.
  pub data Round : List CurrencyPair → W → List RateUpdate → Option String → W → Type 0 where
    done : {w : W} → Round [] w [] none w
    skipped :
        {p : CurrencyPair} {ps : List CurrencyPair} {us : List RateUpdate} {o : Option String}
        {w w' : W} (e : Error)
        → (asked p w).0 ≡ err e
        → Round ps (asked p w).1 us o w'
        → Round (p ∷ ps) w us o w'
    sent_one :
        {p : CurrencyPair} {ps : List CurrencyPair} {us : List RateUpdate} {o : Option String}
        {w w' : W} (r : ExchangeRate F)
        → (asked p w).0 ≡ ok r
        → (stream.send (update r) (asked p w).1).0 ≡ ok tt
        → Round ps (stream.send (update r) (asked p w).1).1 us o w'
        → Round (p ∷ ps) w (update r ∷ us) o w'
    stopped :
        {p : CurrencyPair} {ps : List CurrencyPair} {w : W} (r : ExchangeRate F) (e : String)
        → (asked p w).0 ≡ ok r
        → (stream.send (update r) (asked p w).1).0 ≡ err e
        → Round (p ∷ ps) w [] (some e) (stream.send (update r) (asked p w).1).1

  -- Up to `n` rounds, each in the world that its tick has left: their messages, and how they ended.
  pub data Rounds (ps : List CurrencyPair) : ℕ → W → List RateUpdate → End → W → Type 0 where
    all : {w : W} → Rounds ps 0 w [] streaming w
    ended :
        {n : ℕ} {w : W} (e : String)
        → (stream.next_tick w).0 ≡ some e
        → Rounds ps (suc n) w [] (context_ended e) (stream.next_tick w).1
    failed :
        {n : ℕ} {us : List RateUpdate} {w w' : W} (e : String)
        → (stream.next_tick w).0 ≡ none
        → Round ps (stream.next_tick w).1 us (some e) w'
        → Rounds ps (suc n) w us (send_failed e) w'
    one_more :
        {n : ℕ} {us vs : List RateUpdate} {end : End} {w w' w'' : W}
        → (stream.next_tick w).0 ≡ none
        → Round ps (stream.next_tick w).1 us none w'
        → Rounds ps n w' vs end w''
        → Rounds ps (suc n) w (append us vs) end w''

  -- A first round that comes at once, and up to `n` more.
  pub data Began (n : ℕ) (ps : List CurrencyPair) (w : W) : List RateUpdate → End → W → Type 0 where
    failed_at_once :
        {us : List RateUpdate} {w' : W} (e : String)
        → Round ps w us (some e) w'
        → Began n ps w us (send_failed e) w'
    went_on :
        {us vs : List RateUpdate} {end : End} {w' w'' : W}
        → Round ps w us none w'
        → Rounds ps n w' vs end w''
        → Began n ps w (append us vs) end w''

  module _ (messages : W → List RateUpdate) (laws : StreamLaws fl s stream messages) where
    -- A round from the world `w`.
    abbrev Ran : List CurrencyPair → W → Option String × W → Type 0
    Ran ps w run =
        (us : List RateUpdate) × (messages run.1 ≡ append (messages w) us)
        × Round ps w us run.0 run.1

    sent-Ran :
        (p : CurrencyPair) (ps : List CurrencyPair) (w : W) (r : Fallible Error (ExchangeRate F))
        → (asked p w).0 ≡ r
        → ((v : W) → Ran ps v (send_rates fl s stream ps v))
        → Ran (p ∷ ps) w (sent fl s stream r (send_rates fl s stream ps) (asked p w).1)
    sent-Ran p ps w (err e) got rest =
        let (us, grown, round) = rest (asked p w).1 in
        (
          us,
          grown ∙ ap (λ m. append m us) (laws.service_apart p.source p.target w),
          skipped e got round,
        )
    sent-Ran p ps w (ok x) got rest = after (stream.send (update x) v).0 refl
      where
        v : W
        v = (asked p w).1

        u : RateUpdate
        u = update x

        same : messages v ≡ messages w
        same = laws.service_apart p.source p.target w

        after :
            (o : Result (Unit {0}))
            → (stream.send u v).0 ≡ o
            → Ran (p ∷ ps) w (step_on o (send_rates fl s stream ps) (stream.send u v).1)
        after (ok t) e =
            let (us, grown, round) = rest (stream.send u v).1 in
            (
              u ∷ us,
              grown
                  ∙ ap (λ m. append m us) (laws.send_ok u v e ∙ ap (λ m. append m (u ∷ [])) same)
                  ∙ append_assoc (messages w) (u ∷ []) us,
              sent_one x got e round,
            )
        after (err y) e =
            ([], laws.send_err u v e ∙ same ∙ append_nil (messages w), stopped x y got e)

    send_rates-Ran : (ps : List CurrencyPair) (w : W) → Ran ps w (send_rates fl s stream ps w)
    unfolding send_rates
    send_rates-Ran [] w = ([], append_nil (messages w), done)
    send_rates-Ran (p ∷ ps) w = sent-Ran p ps w (asked p w).0 refl (send_rates-Ran ps)

    -- Up to `n` rounds from the world `w`.
    RanRounds : ℕ → List CurrencyPair → W → End × W → Type 0
    RanRounds n ps w run =
        (us : List RateUpdate) × (messages run.1 ≡ append (messages w) us)
        × Rounds ps n w us run.0 run.1

    next-RanRounds :
        (n : ℕ) (ps : List CurrencyPair) (w : W) (run : Option String × W)
        → (stream.next_tick w).0 ≡ none
        → Ran ps (stream.next_tick w).1 run
        → ((u : W) → RanRounds n ps u (rounds fl s stream n ps u))
        → RanRounds (suc n) ps w (unless_failed run.0 (rounds fl s stream n ps) run.1)
    unfolding RanRounds
    next-RanRounds n ps w (some e, u) tick (us, grown, round) rest =
        (us, grown ∙ ap (λ m. append m us) (laws.tick_apart w), failed e tick round)
    next-RanRounds n ps w (none, u) tick (us, grown, round) rest =
        let (vs, more, others) = rest u in
        (
          append us vs,
          more
              ∙ ap (λ m. append m vs) (grown ∙ ap (λ m. append m us) (laws.tick_apart w))
              ∙ append_assoc (messages w) us vs,
          one_more tick round others,
        )

    ticked-RanRounds :
        (n : ℕ) (ps : List CurrencyPair) (w : W) (o : Option String)
        → (stream.next_tick w).0 ≡ o
        → ((u : W) → RanRounds n ps u (rounds fl s stream n ps u))
        → RanRounds
            (suc n)
            ps
            w
            (ticked o (send_rates fl s stream ps) (rounds fl s stream n ps) (stream.next_tick w).1)
    unfolding RanRounds
    ticked-RanRounds n ps w (some e) tick rest =
        ([], laws.tick_apart w ∙ append_nil (messages w), ended e tick)
    ticked-RanRounds n ps w none tick rest =
        let v = (stream.next_tick w).1 in
        next-RanRounds n ps w (send_rates fl s stream ps v) tick (send_rates-Ran ps v) rest

    rounds-RanRounds :
        (n : ℕ) (ps : List CurrencyPair) (w : W) → RanRounds n ps w (rounds fl s stream n ps w)
    unfolding rounds RanRounds
    rounds-RanRounds zero ps w = ([], append_nil (messages w), all)
    rounds-RanRounds (suc n) ps w =
        ticked-RanRounds n ps w (stream.next_tick w).0 refl (rounds-RanRounds n ps)

    -- What becomes of a request with these texts, from the world `w`: it is refused with nothing
    -- sent, since it has no text or one that names no pair; or a first round over the pairs that the
    -- texts name comes at once, and the others after ticks.
    pub data Streamed (n : ℕ) (texts : List String) (w : W) (run : End × W) : Type 0 where
      empty :
          texts ≡ []
          → run ≡ (invalid_argument "at least one currency pair is required", w)
          → Streamed n texts w run
      refused :
          (m : String) → HasUnnamed texts → run ≡ (invalid_argument m, w) → Streamed n texts w run
      streamed :
          (ps : List CurrencyPair) (us : List RateUpdate)
          → AllNamed texts ps
          → Began n ps w us run.0 run.1
          → messages run.1 ≡ append (messages w) us
          → Streamed n texts w run

    -- The first round and the others, from the world that it left.
    began-Streamed :
        (n : ℕ) (texts : List String) (ps : List CurrencyPair) (w : W) (run : Option String × W)
        → AllNamed texts ps
        → Ran ps w run
        → Streamed n texts w (unless_failed run.0 (rounds fl s stream n ps) run.1)
    unfolding RanRounds
    began-Streamed n texts ps w (some e, u) named (us, grown, round) =
        streamed ps us named (failed_at_once e round) grown
    began-Streamed n texts ps w (none, u) named (us, grown, round) =
        let (vs, more, others) = rounds-RanRounds n ps u in
        streamed ps (append us vs) named (went_on round others)
          (more ∙ ap (λ m. append m vs) grown ∙ append_assoc (messages w) us vs)

    stream_pairs-Streamed :
        (n : ℕ) (texts : List String) (w : W) (r : Fallible End (List CurrencyPair))
        → Parsed texts r
        → Streamed n texts w (stream_pairs fl s stream n r w)
    stream_pairs-Streamed n texts w _ (rejected m unnamed) = refused m unnamed refl
    stream_pairs-Streamed n texts w _ (accepted ps named) =
        began-Streamed n texts ps w (send_rates fl s stream ps w) named (send_rates-Ran ps w)

    -- For a stream whose messages only `Send` changes: `StreamRates` refuses a request that has no
    -- text, or one that names no pair, and sends nothing; for every other request, a first round
    -- comes at once and up to n more, each after its own tick. In a round the service is asked for
    -- each pair of the texts in turn, in the world that the run has come to: the rate that it then
    -- returns is sent, a pair that it then refuses is left out, and a `Send` that fails ends the
    -- stream with its error, as the end of the context does between rounds. The messages are
    -- exactly those that the rounds have sent, after those that were there.
    pub stream_rates-Streamed :
        (n : ℕ) (texts : List String) (w : W)
        → Streamed n texts w (stream_rates fl s stream n texts w)
    unfolding stream_rates
    stream_rates-Streamed n [] w = empty refl refl
    stream_rates-Streamed n (text ∷ texts) w =
        stream_pairs-Streamed n (text ∷ texts) w (parse_pairs (text ∷ texts))
          (parse_pairs-Parsed (text ∷ texts))
