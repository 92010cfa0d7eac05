-- ===== src/Exchange/Interfaces.antt =====
-- internal/provider/provider.go and internal/repository/repository.go: rates as providers give them,
-- the errors that the service tells apart, and what it asks of its provider and of its store.
use Prim.Native.String.{◌++◌}
use movra.Prelude.{String, Bool, Option, List}
use movra.Prelude.Int.{ℤ}
use movra.Prelude.Action.{Run}
use movra.Platform.Time.{Time}
use movra.Exchange.Model.{LockedRate}

pub record CurrencyPair : Type 0 where
  pub source : String
  pub target : String

pub record Rate (F : Type 0) : Type 0 where
  pub source_currency : String
  pub target_currency : String
  pub mid_rate : F
  pub bid_rate : F
  pub ask_rate : F
  pub spread : F
  pub source : String
  pub fetched_at : Time
  pub valid_until : Time

pub record ProviderConfig (F : Type 0) : Type 0 where
  pub default_spread : F
  pub rate_validity_duration : ℤ
  pub supported_pairs : List CurrencyPair

pub record CacheStats : Type 0 where
  pub hits : ℤ
  pub misses : ℤ
  pub size : ℤ
  pub last_update : Time

-- The error types of the two packages, other errors by their text, and `fmt.Errorf("…: %w", err)`,
-- which hides the type of the error from a type assertion.
pub data Error : Type 0 where
  unsupported_pair : (source target : String) → Error
  provider_unavailable : (provider reason : String) → Error
  not_found : (key : String) → Error
  expired : (lock_id : String) → Error
  plain : String → Error
  wrapped : String → Error → Error

unfoldable pub error_text : Error → String
error_text (unsupported_pair source target) =
    "unsupported currency pair: " ++ (source ++ ("/" ++ target))
error_text (provider_unavailable provider reason) =
    "provider " ++ (provider ++ (" unavailable: " ++ reason))
error_text (not_found key) = "not found: " ++ key
error_text (expired lock_id) = "rate lock expired: " ++ lock_id
error_text (plain text) = text
error_text (wrapped text e) = text ++ (": " ++ error_text e)

pub record RateProvider (F W : Type 0) : Type 0 where
  pub get_rate : String → String → Run Error W (Rate F)
  pub get_rates : List CurrencyPair → Run Error W (List (Rate F))
  pub name : String
  pub supports_inverse : Bool

-- A pointer that may be nil without an error is an option.
pub record RateRepository (F W : Type 0) : Type 0 where
  pub save_rate : Rate F → ℤ → Run Error W (Unit {0})
  pub get_rate : String → String → Run Error W (Option (Rate F))
  pub save_locked_rate : LockedRate F → Run Error W (Unit {0})
  pub get_locked_rate : String → Run Error W (Option (LockedRate F))
  pub delete_locked_rate : String → Run Error W (Unit {0})
  pub extend_locked_rate : String → Time → Run Error W (Unit {0})
  pub health : Run Error W (Unit {0})

-- What the service takes from its host: the clock, the error of the request's context, new UUIDs,
-- and `rng.Float64()`.
pub record Host (F W : Type 0) : Type 0 where
  pub now : W → Time × W
  pub context_error : W → Option String × W
  pub new_uuid : W → String × W
  pub random_float : W → F × W
