-- ===== src/Settlement/Wiring/Defaults.antt =====
-- The provider that cmd/server/main.go chooses for an environment.
use movra.Prelude.{◌*◌, String, ◌≡◌, ◌≢◌, ◌⊎◌, inl, inr, Bool-cases, ◌==◌, test_of_ne}
use movra.Prelude.Int.{ℤ, pos}
use movra.Prelude.Action.{Result, err}
use movra.Platform.Time.{second}
use movra.Settlement.Config.{Environment, get_env, get_env_int, get_env_duration, load}
use movra.Settlement.Wiring.{configured_provider}

-- A variable that the configuration reads as a number falls back to its default.
abbrev pub FallsBack : Environment → (String → Result ℤ) → String → Type 0
FallsBack env parse key = (env.getenv key ≡ "") ⊎ ((e : String) × (parse (env.getenv key) ≡ err e))

default_int :
    (env : Environment) (key : String) (d : ℤ)
    → FallsBack env env.atoi key
    → get_env_int env key d ≡ d
unfolding get_env_int
default_int env key d (inl e) = rw e
default_int env key d (inr (x, e)) = elim (Bool-cases (env.getenv key == "")) [
  | inl t ↦ rw t
  | inr n ↦ rw (n, e)
]

default_duration :
    (env : Environment) (key : String) (d : ℤ)
    → FallsBack env env.parse_duration key
    → get_env_duration env key d ≡ d
unfolding get_env_duration
default_duration env key d (inl e) = rw e
default_duration env key d (inr (x, e)) = elim (Bool-cases (env.getenv key == "")) [
  | inl t ↦ rw t
  | inr n ↦ rw (n, e)
]

-- The provider that the program starts with fails one time in ten and takes two seconds if the
-- environment names another type of provider than "simulated", whatever else it sets, and also if
-- it names none, or that one, and sets neither number to something that can be read.
pub configured_provider-load :
    (env : Environment)
    → ((env.getenv "PROVIDER_TYPE" ≢ "") × (env.getenv "PROVIDER_TYPE" ≢ "simulated"))
      ⊎ (FallsBack env env.atoi "PROVIDER_FAILURE_RATE"
          × FallsBack env env.parse_duration "PROVIDER_PROCESSING_TIME")
    → configured_provider (load env)
      ≡ record { failure_rate = pos 10; processing_time = pos (2 * second) }
unfolding configured_provider load
configured_provider-load env (inl (set, other)) =
    unfold get_env in
    rw (
      test_of_ne (env.getenv "PROVIDER_TYPE") "" set,
      test_of_ne (env.getenv "PROVIDER_TYPE") "simulated" other,
    )
configured_provider-load env (inr (rate, duration)) =
    rw
      (
        default_int env "PROVIDER_FAILURE_RATE" (pos 10) rate,
        default_duration env "PROVIDER_PROCESSING_TIME" (pos (2 * second)) duration,
      )
      (elim (Bool-cases (get_env env "PROVIDER_TYPE" "simulated" == "simulated")) [
        | inl t ↦ rw t
        | inr n ↦ rw n
      ])
