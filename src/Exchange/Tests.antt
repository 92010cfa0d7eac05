-- ===== src/Exchange/Tests.antt =====
-- Instances of the theorems on corridors.
pub mod Fixed
pub mod Setup
pub mod Service
pub mod Store
pub mod Provider
pub mod Streaming
mod Metrics
mod Routing
use movra.Prelude.{IsIn, ◌≡◌, refl, ◌↔◌, ◌⊎◌, true, String, [], ◌∷◌}
use movra.Exchange.Model.{Corridor, corridors}
use movra.Exchange.Corridors.{
  get_corridor, get_corridors, Lookup, get_corridor-Lookup, get_corridors-IsIn, get_corridor-priced,
}

abbrev pub usd_php : Corridor
usd_php = record {
  source_currency = "USD";
  target_currency = "PHP";
  enabled = true;
  fee_percentage = "0.4";
  fee_minimum = record { currency = "USD"; amount = "2.00" };
  margin_percentage = "0.25";
  payout_methods = "BANK_ACCOUNT" ∷ "MOBILE_WALLET" ∷ "CASH_PICKUP" ∷ [];
}

get_corridor-Lookup_example : Lookup "USD" "PHP" corridors (get_corridor "USD" "PHP")
get_corridor-Lookup_example = get_corridor-Lookup "USD" "PHP"
