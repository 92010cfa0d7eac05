-- ===== src/Exchange/Tests/Provider.antt =====
-- Instances of the theorems on the simulated provider.
use movra.Prelude.{ℕ, ◌*◌, ◌≡◌, refl, none, [], ◌∷◌}
use movra.Prelude.Int.{◌-ℤ◌}
use movra.Prelude.Action.{ok, ◌>>=◌, total, pure}
use movra.Platform.Time.{second}
use movra.Exchange.Model.{corridors}
use movra.Exchange.Corridors.{get_corridor}
use movra.Exchange.Interfaces.{Rate, Host}
use movra.Exchange.Simulated.{
  DriftState, Cell, get_mid_rate, get_rate, default_simulated_config, base_rates,
}
use movra.Exchange.Simulated.Mid.{
  mid_reference, or_unsupported, get_mid_rate-reference, get_corridor-priced_mid,
}
use movra.Exchange.Simulated.Spread.{IsSpread, IsQuoted, get_rate-IsQuoted}
use movra.Exchange.Tests.{usd_php}
use movra.Exchange.Tests.Fixed.{fixed_point, fixed_point-FloatLaws}

-- One pair has drifted by a tenth of a percent.
abbrev drifted : DriftState ℕ
drifted = record { current_drift = ("USD/EUR", 1_000) ∷ []; last_drift = 9 * second }

abbrev drift_cell : Cell (DriftState ℕ) (DriftState ℕ)
drift_cell = record { read = λ w. w; write = λ d w. d }

abbrev still_host : Host ℕ (DriftState ℕ)
still_host = record {
  now = λ w. (10 * second, w);
  context_error = λ w. (none, w);
  new_uuid = λ w. ("", w);
  random_float = λ w. (500_000, w);
}

-- A cross rate, by way of the dollar.
get_mid_rate-reference_example :
    get_mid_rate fixed_point 2 drifted "SGD" "EUR"
    ≡ or_unsupported fixed_point drifted "SGD" "EUR" (mid_reference fixed_point drifted "SGD" "EUR")
get_mid_rate-reference_example = get_mid_rate-reference fixed_point drifted 0 "SGD" "EUR"

get_corridor-priced_mid_example : (x : ℕ) × (get_mid_rate fixed_point 2 drifted "USD" "PHP" ≡ ok x)
unfolding get_corridor corridors
get_corridor-priced_mid_example =
    get_corridor-priced_mid fixed_point drifted 0 "USD" "PHP" usd_php refl

abbrev usd_eur : Rate ℕ
usd_eur = record {
  source_currency = "USD";
  target_currency = "EUR";
  mid_rate = 925_925;
  bid_rate = 923_610;
  ask_rate = 928_239;
  spread = 500_000;
  source = "simulated";
  fetched_at = 10 * second;
  valid_until = 40 * second;
}

default_spread : IsSpread fixed_point (default_simulated_config fixed_point)
unfolding default_simulated_config
default_spread = record {
  half_finite = refl;
  half_nonneg = refl;
  below_finite = refl;
  above_finite = refl;
}

get_rate-IsQuoted_example :
    IsQuoted fixed_point (default_simulated_config fixed_point) "USD" "EUR" usd_eur
unfolding get_rate ◌>>=◌ total ◌-ℤ◌ default_simulated_config pure get_mid_rate base_rates
get_rate-IsQuoted_example =
    get_rate-IsQuoted fixed_point (default_simulated_config fixed_point) still_host drift_cell
      fixed_point-FloatLaws default_spread "USD" "EUR" drifted usd_eur refl refl refl
