-- ===== src/Exchange/Simulated/Pairs.antt =====
-- `NewSimulatedProvider` and `GetSupportedPairs` of internal/provider/simulated.go. What the provider
-- draws at random stands in the host, so the seed is used no further.
use movra.Prelude.{String, ◌||◌, Option, none, some, List, [], ◌∷◌, if◌then◌else◌, ◌==◌}
use movra.Prelude.Int.{ℤ, pos, eqb_ℤ}
use movra.Platform.Time.{unix_nano, zero_time}
use movra.Platform.Text.{split_on}
use movra.Platform.Float.{Floats}
use movra.Exchange.Interfaces.{CurrencyPair, Host}
use movra.Exchange.Simulated.{SimulatedProviderConfig, DriftState, base_rates}

unfoldable pub new_seed : {F W : Type 0} → Host F W → SimulatedProviderConfig F → W → ℤ × W
new_seed host c w =
    let (t, w') = host.now w in if eqb_ℤ c.seed (pos 0) then (unix_nano t, w') else (c.seed, w)

unfoldable pub new_drift : {F : Type 0} → DriftState F
new_drift = record { current_drift = []; last_drift = zero_time }

abbrev with_pair : Option (String × String) → List CurrencyPair → List CurrencyPair
with_pair none pairs = pairs
with_pair (some (source, target)) pairs =
    if (source == "") || (target == "")
    then pairs
    else record { source = source; target = target } ∷ pairs

abbrev pairs_of : {F : Type 0} → List (String × F) → List CurrencyPair
pairs_of [] = []
pairs_of ((key, rate) ∷ rates) = let rest = pairs_of rates in with_pair (split_on "/" key) rest

unfoldable pub get_supported_pairs : {F : Type 0} → Floats F → List CurrencyPair
unfolding base_rates split_on
get_supported_pairs fl = pairs_of (base_rates fl)
