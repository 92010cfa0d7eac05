-- ===== src/Exchange/Service/Locking.antt =====
-- `LockRate` of internal/service/rate_service.go: the lock that it returns.
use mathlib.Core.Path.{subst}
use movra.Prelude.{
  ℕ, ◌+◌, ◌*◌, ◌<◌, ◌≤◌, String, ◌≡◌, refl, sym, ◌∙◌, ap, false, Option, none, some, arith,
}
use movra.Prelude.Int.{ℤ, pos, negsuc, ◌<ℤ◌, ◌≤ℤ◌, wrap}
use movra.Prelude.Action.{
  Fallible, ok, err, map_error, bind_result, pure, total, wrapping, catch, bind-ok, Ensures,
  Keeps-of, Ensures-bind, Ensures-pure, Returned, ◌>>=◌, ◌>>◌,
}
use movra.Platform.Time.{Time, second, seconds}
use movra.Platform.Float.{Floats}
use movra.Exchange.Model.{ExchangeRate, LockedRate}
use movra.Exchange.Interfaces.{Rate, Error, wrapped, RateRepository}
use movra.Exchange.Pricing.{provider_rate_to_model}
use movra.Exchange.Service.{
  RateService, get_rate, fetch_rate, after_lookup, capped_duration, new_lock, store_lock, lock_rate,
}

-- What the service relies on: a lock that was saved is held under its id.
pub record LockLaws {F W : Type 0} (repository : RateRepository F W)
    (held : W → String → Option (LockedRate F)) : Type 0 where
  pub save_ok :
      (l : LockedRate F) (w : W)
      → (repository.save_locked_rate l w).0 ≡ ok tt
      → held (repository.save_locked_rate l w).1 l.lock_id ≡ some l

seconds-small : (n : ℕ) → n ≤ 120 → seconds (pos n) ≡ pos (n * second)
unfolding seconds wrap
seconds-small n h = ground arith

small_number : (d : ℤ) → pos 0 <ℤ d → d ≤ℤ pos 120 → (n : ℕ) × (d ≡ pos n) × (0 < n) × (n ≤ 120)
small_number (pos n) a b = (n, refl, omega arith, omega arith)
small_number (negsuc n) a b = absurd (omega arith)

-- A lock on the rate of a pair, which lasts for some seconds, and for two minutes at most.
pub record IsLock {F : Type 0} (from to : String) (l : LockedRate F) : Type 0 where
  pub source_currency : l.rate.source_currency ≡ from
  pub target_currency : l.rate.target_currency ≡ to
  pub unexpired : l.expired ≡ false
  pub lasts : l.locked_at < l.expires_at
  pub short : l.expires_at ≤ l.locked_at + 120 * second

module _ {F W : Type 0} (fl : Floats F) (s : RateService F W) where
  open s use {provider, repository, host, lock_duration}

  capped_duration-bounds :
      (requested : ℤ)
      → pos 0 <ℤ lock_duration
      → (pos 0 <ℤ capped_duration fl s requested) × (capped_duration fl s requested ≤ℤ pos 120)
  unfolding capped_duration
  capped_duration-bounds requested h = ground arith

  new_lock-times :
      (rate : ExchangeRate F) (d : ℤ) (lock_id : String) (t : Time) (n : ℕ)
      → d ≡ pos n
      → 0 < n
      → n ≤ 120
      → (t < (new_lock fl s rate d lock_id t).expires_at)
        × ((new_lock fl s rate d lock_id t).expires_at ≤ t + 120 * second)
  unfolding new_lock
  new_lock-times rate d lock_id t n e a b = rw (e, seconds-small n b) (omega arith, omega arith)

  -- The rates of the service are for the pair that was asked for.
  after_lookup-pair :
      (from to : String)
      → Ensures
          (λ _. Unit {0})
          (λ r. (r.source_currency ≡ from) × (r.target_currency ≡ to))
          (get_rate fl s from to)
  unfolding get_rate fetch_rate provider_rate_to_model
  after_lookup-pair from to =
      Ensures-bind (Keeps-of (catch (repository.get_rate from to)) λ _ _. tt)
        λ cached _. looked_up cached
    where
      fetched :
          Ensures
            (λ _. Unit {0})
            (λ r. (r.source_currency ≡ from) × (r.target_currency ≡ to))
            (fetch_rate fl s from to)
      fetched = Ensures-bind (Keeps-of (wrapping _ (provider.get_rate from to)) λ _ _. tt) λ rate _.
          Ensures-bind (Keeps-of (catch (repository.save_rate rate _)) λ _ _. tt)
            λ _ _. Ensures-pure _ (refl, refl)

      looked_up :
          (r : Fallible Error (Option (Rate F)))
          → Ensures
              (λ _. Unit {0})
              (λ r. (r.source_currency ≡ from) × (r.target_currency ≡ to))
              (after_lookup fl s from to r)
      looked_up (ok (some rate)) = Ensures-pure _ (refl, refl)
      looked_up (ok none) = fetched
      looked_up (err e) = fetched

  get_rate-pair :
      (from to : String) (w : W) (rate : ExchangeRate F)
      → (get_rate fl s from to w).0 ≡ ok rate
      → (rate.source_currency ≡ from) × (rate.target_currency ≡ to)
  get_rate-pair from to w rate e =
      pair (get_rate fl s from to w).0 e ((after_lookup-pair from to).returns w tt)
    where
      pair :
          (r : Fallible Error (ExchangeRate F))
          → r ≡ ok rate
          → Returned (λ x. (x.source_currency ≡ from) × (x.target_currency ≡ to)) r
          → (rate.source_currency ≡ from) × (rate.target_currency ≡ to)
      pair (ok x) e q =
          subst (λ y. (y.source_currency ≡ from) × (y.target_currency ≡ to)) (same x e) q
        where
          same :
              (x : ExchangeRate F)
              → ◌≡◌ {A = Fallible Error (ExchangeRate F)} (ok x) (ok rate)
              → x ≡ rate
          same x e = cc
      pair (err x) e q = cc

  -- A save that comes last, before the lock is returned.
  pub saved_last :
      (f : Error → Error) (l m : LockedRate F) (r : Fallible Error (Unit {0})) (w : W)
      → (bind_result (map_error f r) w (λ _. pure {E = Error} l)).0 ≡ ok m
      → (r ≡ ok tt) × (l ≡ m) × ((bind_result (map_error f r) w (λ _. pure {E = Error} l)).1 ≡ w)
  unfolding pure
  saved_last f l m (ok u) w h = (refl, same h, refl)
    where
      same : ◌≡◌ {A = Fallible Error (LockedRate F)} (ok l) (ok m) → l ≡ m
      same e = cc
  saved_last f l m (err e) w h = cc

  -- The lock that is stored for a rate and a duration of `n` seconds.
  store_lock-IsLock :
      (held : W → String → Option (LockedRate F))
      → LockLaws repository held
      → (rate : ExchangeRate F) (d : ℤ) (n : ℕ) (w : W) (l : LockedRate F) → d ≡ pos n
      → 0 < n
      → n ≤ 120
      → (store_lock fl s rate d w).0 ≡ ok l
      → IsLock rate.source_currency rate.target_currency l
        × (held (store_lock fl s rate d w).1 l.lock_id ≡ some l)
  unfolding store_lock ◌>>=◌ ◌>>◌ total wrapping
  store_lock-IsLock held laws rate d n w l e a b h =
      let t = (host.now (host.new_uuid w).1).0 in
      let made = new_lock fl s rate d (host.new_uuid w).0 t in
      let w₁ = (host.now (host.new_uuid w).1).1 in
      let (saved, same, world) =
        saved_last (wrapped "failed to lock rate") made l (repository.save_locked_rate made w₁).0
          (repository.save_locked_rate made w₁).1 h in
      let (lasts, short) = new_lock-times rate d (host.new_uuid w).0 t n e a b in
      (
        subst (IsLock rate.source_currency rate.target_currency) same (
            unfold new_lock in
            record {
              source_currency = refl;
              target_currency = refl;
              unexpired = refl;
              lasts = lasts;
              short = short;
            }),
        ap (λ v. held v l.lock_id) world
            ∙ subst
                (λ (m : LockedRate F).
                  held (repository.save_locked_rate made w₁).1 m.lock_id ≡ some m)
                same (laws.save_ok made w₁ saved),
      )

  -- Over a store that holds each lock that it has saved without an error, with a positive default
  -- duration, and whatever duration is asked for: a lock that `LockRate` returns is on a rate for
  -- the two currencies, is not expired, ends after it starts and within two minutes of it, and is
  -- what the store holds under its id.
  pub lock_rate-IsLock :
      (held : W → String → Option (LockedRate F))
      → LockLaws repository held
      → pos 0 <ℤ lock_duration
      → (from to : String) (requested : ℤ) (w : W) (l : LockedRate F)
      → (lock_rate fl s from to requested w).0 ≡ ok l
      → IsLock from to l × (held (lock_rate fl s from to requested w).1 l.lock_id ≡ some l)
  unfolding lock_rate
  lock_rate-IsLock held laws positive from to requested w l h =
      let d = capped_duration fl s requested in
      let (low, high) = capped_duration-bounds requested positive in
      let (n, e, a, b) = small_number d low high in
      let (rate, got, rest) =
        bind-ok (get_rate fl s from to) (λ rate. store_lock fl s rate d) w l h in
      let (source, target) = get_rate-pair from to w rate got in
      let (lock, holds) =
        store_lock-IsLock held laws rate d n (get_rate fl s from to w).1 l e a b
          (ap (λ (x : Fallible Error (LockedRate F) × W). x.0) (sym rest) ∙ h) in
      (
        subst (λ y. IsLock from y l) target
            (subst (λ x. IsLock x rate.target_currency l) source lock),
        ap (λ (x : Fallible Error (LockedRate F) × W). held x.1 l.lock_id) rest ∙ holds,
      )
