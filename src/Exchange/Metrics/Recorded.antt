-- ===== src/Exchange/Metrics/Recorded.antt =====
-- What the metrics of internal/metrics/metrics.go show after any recordings.
use mathlib.Core.Path.{subst}
use movra.Prelude.{
  ℕ, String, ◌≡◌, refl, sym, ap, true, false, List, [], ◌∷◌, some, if◌then◌else◌, length,
}
use movra.Prelude.Int.{ℤ}
use movra.Prelude.Action.{Action, Fallible, ok, bind_result, ◌>>=◌, ◌>>◌, pure, total}
use movra.Platform.Prometheus.{
  Registry, View, Laws, Changed, Description, bump, level_unchanged, Changed-refl, Changed-trans,
  is_plain, counter, histogram,
}
use movra.Exchange.Metrics.Recordings.{
  Recording, counted, moved, counted_all, moved_all, record_one, record_all, make_and_record,
}
use movra.Exchange.Metrics.Recordings.Recording.{
  rate_request, cache_hit, cache_miss, rate_lock, rate_lock_expired, provider_request,
  provider_error, quote_generated,
}
use movra.Exchange.Metrics.{
  Metrics, new_metrics, chosen_namespace, record_rate_request, record_cache_hit, record_cache_miss,
  record_rate_lock, record_rate_lock_expired, record_provider_request, record_provider_error,
  record_quote_generated,
}
use movra.Exchange.Metrics.Made.{IsMetric, Ready, ready_after, new_metrics-Made}

module _ {W V : Type 0} (view : View W V) where
  -- A run that has not panicked, and what it has changed.
  record Does (f : String → List String → ℕ → ℕ) (g : String → ℤ → ℤ) (w : W)
      (r : Fallible String (Unit {0}) × W) : Type 0 where
    returned : r.0 ≡ ok tt
    changed : Changed view f g w r.1

  Does-then :
      {f f' : String → List String → ℕ → ℕ} {g g' : String → ℤ → ℤ} {w : W}
      (m k : Action W (Unit {0}))
      → Does f g w (m w)
      → Does f' g' (m w).1 (k (m w).1)
      → Does (λ n ks c. f' n ks (f n ks c)) (λ n z. g' n (g n z)) w ((m >> k) w)
  unfolding ◌>>◌ ◌>>=◌
  Does-then {f} {f'} {g} {g'} {w} m k a b =
      subst
        (λ r.
          Does (λ n ks c. f' n ks (f n ks c)) (λ n z. g' n (g n z)) w
            (bind_result r (m w).1 (λ _. k)))
        (sym a.returned)
        (record { returned = b.returned; changed = Changed-trans a.changed b.changed })

module _ {F W V : Type 0} (reg : Registry F W V) (view : View W V) (laws : Laws reg view)
    (given : String) (plain : is_plain (chosen_namespace given) ≡ true) where
  abbrev full : String → String
  full n = reg.full_name (chosen_namespace given) n

  counts :
      {v : V} {d : Description} {w : W} (ls : List String)
      → view.description w v ≡ some d
      → d.kind ≡ counter
      → length ls ≡ length d.labels
      → Does view (bump (reg.full_name d.namespace d.name) ls) level_unchanged w (reg.count v ls w)
  counts {v} {d} {w} ls h k e =
      let (r, c) = laws.count_ok v d ls w h k e in record { returned = r; changed = c }

  observes :
      {v : V} {d : Description} {b : _} {w : W} (ls : List String) (x : F)
      → view.description w v ≡ some d
      → d.kind ≡ histogram b
      → length ls ≡ length d.labels
      → Does view
          (bump (reg.full_name d.namespace d.name) ls)
          level_unchanged
          w
          (reg.observe v ls x w)
  observes {v} {d} {b} {w} ls x h k e =
      let (r, c) = laws.observe_ok v d b ls x w h k e in record { returned = r; changed = c }

  record_one-Does :
      (m : Metrics V) (r : Recording F) (w : W)
      → Ready reg view laws given plain m w
      → Does view (counted full r) (moved full r) w (record_one reg m r w)
  unfolding record_one record_rate_request record_cache_hit record_cache_miss record_rate_lock
      record_rate_lock_expired record_provider_request record_provider_error record_quote_generated
      total
  record_one-Does m (rate_request s t st d hit) w h =
      let ks = s ∷ t ∷ st ∷ [] in
      let ls = s ∷ t ∷ (if hit then "true" else "false") ∷ [] in
      let first = counts ks h.rate_requests_total refl refl in
      Does-then view (reg.count m.rate_requests_total ks) (reg.observe m.rate_request_duration ls d)
        first
        (observes ls d (ready_after reg view laws given plain first.changed h).rate_request_duration
          refl refl)
  record_one-Does m (cache_hit ty) w h = counts (ty ∷ []) h.cache_hits_total refl refl
  record_one-Does m (cache_miss ty) w h = counts (ty ∷ []) h.cache_misses_total refl refl
  record_one-Does m (rate_lock s t d) w h =
      let c = laws.raise_changed _ _ w h.locked_rates_active refl in
      let ls = s ∷ t ∷ [] in
      Does-then view (total (λ u. (tt, reg.raise m.locked_rates_active u)))
        (reg.observe m.rate_lock_duration ls d) (record { returned = refl; changed = c })
        (observes ls d (ready_after reg view laws given plain c h).rate_lock_duration refl refl)
  record_one-Does m rate_lock_expired w h = record {
    returned = refl;
    changed = laws.lower_changed _ _ w h.locked_rates_active refl;
  }
  record_one-Does m (provider_request p st d) w h =
      let ks = p ∷ st ∷ [] in
      let first = counts ks h.provider_requests_total refl refl in
      Does-then view (reg.count m.provider_requests_total ks)
        (reg.observe m.provider_request_duration (p ∷ []) d) first
        (observes (p ∷ []) d
          (ready_after reg view laws given plain first.changed h).provider_request_duration refl
          refl)
  record_one-Does m (provider_error p ty) w h =
      counts (p ∷ ty ∷ []) h.provider_errors_total refl refl
  record_one-Does m (quote_generated s t) w h =
      counts (s ∷ t ∷ []) h.quotes_generated_total refl refl

  record_all-Does :
      (m : Metrics V) (rs : List (Recording F)) (w : W)
      → Ready reg view laws given plain m w
      → Does view (counted_all full rs) (moved_all full rs) w (record_all reg m rs w)
  unfolding record_all pure
  record_all-Does m [] w h = record { returned = refl; changed = Changed-refl w }
  record_all-Does m (r ∷ rs) w h =
      let first = record_one-Does m r w h in
      Does-then view (record_one reg m r) (record_all reg m rs) first
        (record_all-Does m rs _ (ready_after reg view laws given plain first.changed h))

  -- The outcome and the counts of recordings that start at `w`.
  abbrev pub Counts : List (Recording F) → W → Fallible String (Unit {0}) × W → Type 0
  Counts rs w r =
      (r.0 ≡ ok tt)
      × (((n : String) (ls : List String)
            → view.sample r.1 n ls ≡ counted_all full rs n ls (view.sample w n ls))
          × ((n : String) → view.level r.1 n ≡ moved_all full rs n (view.level w n)))

  -- For a registry that keeps its laws, with none of the ten full names in use, and a namespace
  -- that is empty or plain (lower-case letters and underscores): `NewMetrics` and then any
  -- sequence of calls of the `Record` methods do not panic; every series counts one more for each
  -- recording that is about it, the gauge of active locks goes up with each lock and down with
  -- each expiry, and nothing else changes.
  pub make_and_record-Counts :
      (rs : List (Recording F)) (w : W)
      → ((n : String) (k : ℕ) → IsMetric n k → view.taken w (full n) ≡ false)
      → Counts rs w (make_and_record reg given rs w)
  unfolding make_and_record ◌>>=◌
  make_and_record-Counts rs w free =
      let made = new_metrics-Made reg view laws given plain w (λ n k i h. free n k i) in
      let d = record_all-Does made.metrics rs (new_metrics reg given w).1 made.ready in
      let all = Changed-trans made.changed d.changed in
      subst (Counts rs w)
        (sym (
          ap (λ x. bind_result x (new_metrics reg given w).1 (λ m. record_all reg m rs))
            made.returned))
        (d.returned, (all.samples, all.levels))
