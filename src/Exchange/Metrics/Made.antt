-- ===== src/Exchange/Metrics/Made.antt =====
-- `NewMetrics` of internal/metrics/metrics.go: the registration of the ten metrics.
use mathlib.Core.Path.{subst}
use movra.Prelude.{
  ℕ, suc, ◌≤◌, String, ◌≡◌, ◌≢◌, refl, sym, ap, ◌∙◌, true, false, List, [], ◌∷◌, some,
  if◌then◌else◌, ◌==◌, test_of_ne, arith,
}
use movra.Prelude.Int.{ℤ}
use movra.Prelude.Action.{Action, Fallible, ok, bind_result, ◌>>=◌, pure}
use movra.Platform.Prometheus.{
  Registry, View, Laws, Changed, Description, unchanged, level_unchanged, Changed-refl,
  Changed-trans, is_plain, well_formed,
}
use movra.Exchange.Metrics.Opts
use movra.Exchange.Metrics.{Metrics, new_metrics, chosen_namespace}

-- The names of the ten metrics.
pub data IsMetric : String → ℕ → Type 0 where
  rate_requests : IsMetric "rate_requests_total" 0
  rate_durations : IsMetric "rate_request_duration_seconds" 1
  hits : IsMetric "cache_hits_total" 2
  misses : IsMetric "cache_misses_total" 3
  active_locks : IsMetric "locked_rates_active" 4
  lock_durations : IsMetric "rate_lock_duration_seconds" 5
  provider_requests : IsMetric "provider_requests_total" 6
  provider_errors : IsMetric "provider_errors_total" 7
  provider_durations : IsMetric "provider_request_duration_seconds" 8
  quotes : IsMetric "quotes_generated_total" 9

-- The position of a metric among the ten, by its name.
abbrev number : String → ℕ
number n =
    if n == "rate_requests_total"
    then 0
    else if n == "rate_request_duration_seconds"
    then 1
    else if n == "cache_hits_total"
    then 2
    else if n == "cache_misses_total"
    then 3
    else if n == "locked_rates_active"
    then 4
    else if n == "rate_lock_duration_seconds"
    then 5
    else if n == "provider_requests_total"
    then 6
    else if n == "provider_errors_total"
    then 7
    else if n == "provider_request_duration_seconds"
    then 8
    else 9

IsMetric-number : {n : String} {i : ℕ} → IsMetric n i → number n ≡ i
IsMetric-number rate_requests = refl
IsMetric-number rate_durations = refl
IsMetric-number hits = refl
IsMetric-number misses = refl
IsMetric-number active_locks = refl
IsMetric-number lock_durations = refl
IsMetric-number provider_requests = refl
IsMetric-number provider_errors = refl
IsMetric-number provider_durations = refl
IsMetric-number quotes = refl

module _ {W V : Type 0} (view : View W V) where
  -- Handles and what they were registered as.
  abbrev Held : List (V × Description) → W → Type 0
  Held [] w = Unit
  Held ((v, d) ∷ vs) w = (view.description w v ≡ some d) × Held vs w

  Held-Changed :
      {f : String → List String → ℕ → ℕ} {g : String → ℤ → ℤ} {w w' : W}
      (vs : List (V × Description))
      → Changed view f g w w'
      → Held vs w
      → Held vs w'
  Held-Changed [] a h = tt
  Held-Changed ((v, d) ∷ vs) a (h, hs) = (a.keeps v d h, Held-Changed vs a hs)

module _ {F W V : Type 0} (reg : Registry F W V) (view : View W V) (laws : Laws reg view)
    (given : String) (plain : is_plain (chosen_namespace given) ≡ true) where
  abbrev pub ns : String
  ns = chosen_namespace given

  abbrev pub full : String → String
  full n = reg.full_name ns n

  -- The metrics from a position on are not registered.
  abbrev pub Fresh : ℕ → W → Type 0
  Fresh i w = (n : String) (k : ℕ) → IsMetric n k → i ≤ k → view.taken w (full n) ≡ false

  record State (w₀ : W) (i : ℕ) (vs : List (V × Description)) (w : W) : Type 0 where
    held : Held view vs w
    fresh : Fresh i w
    changed : Changed view unchanged level_unchanged w₀ w

  full-other :
      {n m : String} {k j : ℕ}
      → IsMetric n k
      → IsMetric m j
      → suc k ≤ j
      → (full m == full n) ≡ false
  full-other {n} {m} {k} {j} a b h =
      test_of_ne (full m) (full n) (λ e. differ (laws.full_name_inj ns m n e))
    where
      differ : m ≢ n
      differ e =
          let nk : number n ≡ k = IsMetric-number a in
          let mj : number m ≡ j = IsMetric-number b in
          let same : number m ≡ number n = ap number e in omega (arith, h)

  -- The registration of the metric whose turn it is.
  next :
      {A : Type 0} {w₀ w : W} {k : ℕ} {vs : List (V × Description)} (d : Description)
      → IsMetric d.name k
      → d.namespace ≡ ns
      → well_formed d ≡ true
      → (f : V → Action W A) (P : Fallible String A × W → Type 0) → State w₀ k vs w
      → ((v : V) (w' : W) → State w₀ (suc k) ((v, d) ∷ vs) w' → P (f v w'))
      → P ((reg.register d >>= f) w)
  unfolding ◌>>=◌
  next {A} {w₀} {w} {k} {vs} d named spaced good f P s rest =
      let (v, returned, described) =
        laws.register_ok d w (subst (λ x. is_plain x ≡ true) (sym spaced) plain) good (
          subst (λ x. view.taken w (reg.full_name x d.name) ≡ false) (sym spaced)
            (s.fresh d.name k named (omega arith))) in
      let w' = (reg.register d w).1 in
      let c = laws.register_changed d w in
      subst (λ r. P (bind_result r w' f)) (sym returned)
        (rest v w' record {
          held = (described, Held-Changed view vs c s.held);
          fresh = λ n j b h.
              laws.register_taken d w (full n) (
                subst (λ x. (full n == reg.full_name x d.name) ≡ false) (sym spaced)
                  (full-other named b h))
              ∙ s.fresh n j b (omega (arith, h));
          changed = Changed-trans s.changed c;
        })

  -- The metrics stand for what they should.
  pub record Ready (m : Metrics V) (w : W) : Type 0 where
    pub rate_requests_total :
        view.description w m.rate_requests_total ≡ some (Opts.rate_requests_total ns)
    pub rate_request_duration :
        view.description w m.rate_request_duration ≡ some (Opts.rate_request_duration ns)
    pub cache_hits_total : view.description w m.cache_hits_total ≡ some (Opts.cache_hits_total ns)
    pub cache_misses_total :
        view.description w m.cache_misses_total ≡ some (Opts.cache_misses_total ns)
    pub locked_rates_active :
        view.description w m.locked_rates_active ≡ some (Opts.locked_rates_active ns)
    pub rate_lock_duration :
        view.description w m.rate_lock_duration ≡ some (Opts.rate_lock_duration ns)
    pub provider_requests_total :
        view.description w m.provider_requests_total ≡ some (Opts.provider_requests_total ns)
    pub provider_errors_total :
        view.description w m.provider_errors_total ≡ some (Opts.provider_errors_total ns)
    pub provider_request_duration :
        view.description w m.provider_request_duration ≡ some (Opts.provider_request_duration ns)
    pub quotes_generated_total :
        view.description w m.quotes_generated_total ≡ some (Opts.quotes_generated_total ns)

  abbrev vectors : Metrics V → List (V × Description)
  vectors m =
      (m.quotes_generated_total, Opts.quotes_generated_total ns)
      ∷ (m.provider_request_duration, Opts.provider_request_duration ns)
      ∷ (m.provider_errors_total, Opts.provider_errors_total ns)
      ∷ (m.provider_requests_total, Opts.provider_requests_total ns)
      ∷ (m.rate_lock_duration, Opts.rate_lock_duration ns)
      ∷ (m.locked_rates_active, Opts.locked_rates_active ns)
      ∷ (m.cache_misses_total, Opts.cache_misses_total ns)
      ∷ (m.cache_hits_total, Opts.cache_hits_total ns)
      ∷ (m.rate_request_duration, Opts.rate_request_duration ns)
      ∷ (m.rate_requests_total, Opts.rate_requests_total ns)
      ∷ []

  ready_of : (m : Metrics V) (w : W) → Held view (vectors m) w → Ready m w
  ready_of m w (q, (pd, (pe, (pr, (ld, (al, (cm, (ch, (rd, (rr, u)))))))))) = record {
    rate_requests_total = rr;
    rate_request_duration = rd;
    cache_hits_total = ch;
    cache_misses_total = cm;
    locked_rates_active = al;
    rate_lock_duration = ld;
    provider_requests_total = pr;
    provider_errors_total = pe;
    provider_request_duration = pd;
    quotes_generated_total = q;
  }

  pub ready_after :
      {f : String → List String → ℕ → ℕ} {g : String → ℤ → ℤ} {w w' : W} {m : Metrics V}
      → Changed view f g w w'
      → Ready m w
      → Ready m w'
  ready_after c h = record {
    rate_requests_total = c.keeps _ _ h.rate_requests_total;
    rate_request_duration = c.keeps _ _ h.rate_request_duration;
    cache_hits_total = c.keeps _ _ h.cache_hits_total;
    cache_misses_total = c.keeps _ _ h.cache_misses_total;
    locked_rates_active = c.keeps _ _ h.locked_rates_active;
    rate_lock_duration = c.keeps _ _ h.rate_lock_duration;
    provider_requests_total = c.keeps _ _ h.provider_requests_total;
    provider_errors_total = c.keeps _ _ h.provider_errors_total;
    provider_request_duration = c.keeps _ _ h.provider_request_duration;
    quotes_generated_total = c.keeps _ _ h.quotes_generated_total;
  }

  pub record Made (w₀ : W) (r : Fallible String (Metrics V) × W) : Type 0 where
    pub metrics : Metrics V
    pub returned : r.0 ≡ ok metrics
    pub ready : Ready metrics r.1
    pub changed : Changed view unchanged level_unchanged w₀ r.1

  pub new_metrics-Made : (w : W) → Fresh 0 w → Made w (new_metrics reg given w)
  unfolding new_metrics pure
  new_metrics-Made w fresh =
      next (Opts.rate_requests_total ns) rate_requests refl refl _ (Made w) start λ a w1 s1.
        next (Opts.rate_request_duration ns) rate_durations refl refl _ (Made w) s1 λ b w2 s2.
          next (Opts.cache_hits_total ns) hits refl refl _ (Made w) s2 λ c w3 s3.
            next (Opts.cache_misses_total ns) misses refl refl _ (Made w) s3 λ d w4 s4.
              next (Opts.locked_rates_active ns) active_locks refl refl _ (Made w) s4 λ e w5 s5.
                next (Opts.rate_lock_duration ns) lock_durations refl refl _ (Made w) s5 λ f w6 s6.
                  next (Opts.provider_requests_total ns) provider_requests refl refl _ (Made w) s6
                    λ g w7 s7.
                      next (Opts.provider_errors_total ns) provider_errors refl refl _ (Made w) s7
                        λ h w8 s8.
                          next (Opts.provider_request_duration ns) provider_durations refl refl _
                            (Made w) s8
                            λ i w9 s9.
                              next (Opts.quotes_generated_total ns) quotes refl refl _ (Made w) s9
                                λ j w10 s10. record {
                                  metrics = _;
                                  returned = refl;
                                  ready = ready_of _ w10 s10.held;
                                  changed = s10.changed;
                                }
    where
      start : State w 0 [] w
      start = record { held = tt; fresh = fresh; changed = Changed-refl w }
