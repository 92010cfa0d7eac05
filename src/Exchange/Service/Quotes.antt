-- ===== src/Exchange/Service/Quotes.antt =====
-- `GetQuote` of internal/service/rate_service.go: fees, conversion and refusals.
use mathlib.Core.Path.{subst}
use movra.Prelude.{
  String, ◌≡◌, refl, sym, ◌∙◌, ap, Bool, true, false, Option, none, some, if◌then◌else◌,
}
use movra.Prelude.Action.{Fallible, ok, pure, fail, total, bind-ok, ◌>>=◌}
use movra.Platform.Float.{Floats, FloatLaws, hundred}
use movra.Exchange.Model.{ExchangeRate, RateQuote, Corridor}
use movra.Exchange.Corridors.{get_corridor}
use movra.Exchange.Interfaces.{Error}
use movra.Exchange.Pricing.{parsed, fee_of}
use movra.Exchange.Service.{RateService, new_quote, quote_for, get_rate, get_quote}

module _ {F : Type 0} (fl : Floats F) where
  -- A quote for an amount over a corridor, on a rate of the service.
  pub record IsQuote (from to : String) (amount : F) (rate : ExchangeRate F) (c : Corridor)
      (q : RateQuote F) : Type 0 where
    pub pair : (q.source_currency ≡ from) × (q.target_currency ≡ to)
    pub converted : q.target_amount ≡ fl.times amount (parsed fl rate.buy_rate)
    pub fee_least : fl.less q.fee (parsed fl c.fee_minimum.amount) ≡ false
    pub fee_share :
        fl.less
            (fl.times amount (fl.over (parsed fl c.fee_percentage) (hundred fl)))
            (parsed fl c.fee_minimum.amount)
          ≡ false
        → q.fee ≡ fl.times amount (fl.over (parsed fl c.fee_percentage) (hundred fl))
    pub total : q.total_cost ≡ fl.plus amount q.fee
    pub validity : q.valid_until ≡ rate.expires_at

  fee_of-least :
      FloatLaws fl
      → (c : Corridor) (amount : F)
      → fl.less (fee_of fl c amount) (parsed fl c.fee_minimum.amount) ≡ false
  unfolding fee_of
  fee_of-least laws c amount = least (fl.less x m) refl
    where
      m : F
      m = parsed fl c.fee_minimum.amount

      x : F
      x = fl.times amount (fl.over (parsed fl c.fee_percentage) (hundred fl))

      least : (b : Bool) → fl.less x m ≡ b → fl.less (if b then m else x) m ≡ false
      least true e = laws.less_irrefl m
      least false e = e

  fee_of-share :
      (c : Corridor) (amount : F)
      → fl.less
          (fl.times amount (fl.over (parsed fl c.fee_percentage) (hundred fl)))
          (parsed fl c.fee_minimum.amount)
        ≡ false
      → fee_of fl c amount ≡ fl.times amount (fl.over (parsed fl c.fee_percentage) (hundred fl))
  unfolding fee_of
  fee_of-share c amount e = rw e

  module _ {W : Type 0} (s : RateService F W) (from to : String) (amount : F) where
    -- What a quote rests on: a rate of the service and a corridor.
    pub record Quoted (w : W) (q : RateQuote F) : Type 0 where
      pub rate : ExchangeRate F
      pub corridor : Corridor
      pub rated : (get_rate fl s from to w).0 ≡ ok rate
      pub served : get_corridor from to ≡ some corridor
      pub quote : IsQuote from to amount rate corridor q

    new_quote-IsQuote :
        FloatLaws fl
        → (rate : ExchangeRate F) (c : Corridor) (quote_id : String)
        → IsQuote from to amount rate c (new_quote fl s from to rate c amount quote_id)
    unfolding new_quote
    new_quote-IsQuote laws rate c quote_id = record {
      pair = (refl, refl);
      converted = refl;
      fee_least = fee_of-least laws c amount;
      fee_share = fee_of-share c amount;
      total = refl;
      validity = refl;
    }

    quote_for-Quoted :
        FloatLaws fl
        → (w w₁ : W) (rate : ExchangeRate F) (o : Option Corridor) (q : RateQuote F)
        → (get_rate fl s from to w).0 ≡ ok rate
        → get_corridor from to ≡ o
        → (quote_for fl s from to amount rate o w₁).0 ≡ ok q
        → Quoted w q
    unfolding ◌>>=◌ total pure fail
    quote_for-Quoted laws w w₁ rate none q got e h = cc
    quote_for-Quoted laws w w₁ rate (some c) q got e h = record {
      rate = rate;
      corridor = c;
      rated = got;
      served = e;
      quote =
          subst (IsQuote from to amount rate c) (same h)
            (new_quote-IsQuote laws rate c (s.host.new_uuid w₁).0);
    }
      where
        same :
            ◌≡◌ {A = Fallible Error (RateQuote F)}
              (ok (new_quote fl s from to rate c amount (s.host.new_uuid w₁).0))
              (ok q)
            → new_quote fl s from to rate c amount (s.host.new_uuid w₁).0 ≡ q
        same e = cc

    -- For numbers that keep `FloatLaws`, a quote that `GetQuote` returns is over a corridor of the
    -- table and on the service's rate for the pair: it converts at the rate's buy rate, its fee is
    -- not less than the corridor's minimum and is the corridor's share wherever that share is not
    -- less, its total adds the fee to the amount, and it holds as long as the rate.
    pub get_quote-Quoted :
        FloatLaws fl
        → (w : W) (q : RateQuote F) → (get_quote fl s from to amount w).0 ≡ ok q
        → Quoted w q
    unfolding get_quote
    get_quote-Quoted laws w q h =
        let (rate, got, rest) =
          bind-ok (get_rate fl s from to)
            (λ rate. quote_for fl s from to amount rate (get_corridor from to)) w q h in
        quote_for-Quoted laws w (get_rate fl s from to w).1 rate (get_corridor from to) q got refl
          (ap (λ (x : Fallible Error (RateQuote F) × W). x.0) (sym rest) ∙ h)
