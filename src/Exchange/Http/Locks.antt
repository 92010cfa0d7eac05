-- ===== src/Exchange/Http/Locks.antt =====
-- internal/handler/http_handler.go over the rate service and the Redis repository: a lock that is
-- taken, and then asked for.
use mathlib.Core.Path.{subst}
use movra.Prelude.{
  String, ◌≡◌, refl, sym, ◌∙◌, ap, false, Bool-cases, inl, inr, Option, if◌then◌else◌,
}
use movra.Prelude.Int.{ℤ}
use movra.Prelude.Action.{Fallible, ok, err, total, wrapping, bind-ok, ◌>>=◌, ◌>>◌}
use movra.Platform.Time.{Time, after}
use movra.Platform.Float.{Floats}
use movra.Platform.Json.{Json}
use movra.Redis
use movra.Redis.{Client, IsAnswering}
use movra.Exchange.Model.{ExchangeRate, LockedRate, RateLockRequest}
use movra.Exchange.Interfaces.{Error, wrapped, Host, RateProvider}
use movra.Exchange.Config.{Config}
use movra.Exchange.Wiring.{service_over}
use movra.Exchange.Repository
use movra.Exchange.Repository.{redis_repository}
use movra.Exchange.Repository.Locks.{read_time, answer_at, get-save_locked_rate}
use movra.Exchange.Service.{RateService, new_lock, store_lock, capped_duration, answer_lock}
use movra.Exchange.Service
use movra.Exchange.Service.Locking.{saved_last}
use movra.Exchange.Http
use movra.Exchange.Http.{
  Response, Body, lock_body, error_body, expired_body, answer, reply_with, locked_reply,
}

module _ {F W : Type 0} (fl : Floats F) (s : RateService F W) where
  open s use {repository, host}

  -- Where a lock that was returned has been saved.
  record SavedLast (l : LockedRate F) (after : W) : Type 0 where
    before : W
    save_ok : (repository.save_locked_rate l before).0 ≡ ok tt
    left : after ≡ (repository.save_locked_rate l before).1
    unexpired : l.expired ≡ false

  store_lock-SavedLast :
      (rate : ExchangeRate F) (d : ℤ) (w : W) (l : LockedRate F)
      → (store_lock fl s rate d w).0 ≡ ok l
      → SavedLast l (store_lock fl s rate d w).1
  unfolding store_lock ◌>>=◌ ◌>>◌ total wrapping
  store_lock-SavedLast rate d w l h =
      let t = (host.now (host.new_uuid w).1).0 in
      let made = new_lock fl s rate d (host.new_uuid w).0 t in
      let w₁ = (host.now (host.new_uuid w).1).1 in
      let (saved, same, world) =
        saved_last fl s (wrapped "failed to lock rate") made l
          (repository.save_locked_rate made w₁).0 (repository.save_locked_rate made w₁).1 h in
      record {
        before = w₁;
        save_ok = subst (λ m. (repository.save_locked_rate m w₁).0 ≡ ok tt) same saved;
        left = world ∙ ap (λ m. (repository.save_locked_rate m w₁).1) same;
        unexpired = subst (λ (m : LockedRate F). m.expired ≡ false) same (unfold new_lock in refl);
      }

  lock_rate-SavedLast :
      (from to : String) (requested : ℤ) (w : W) (l : LockedRate F)
      → (Service.lock_rate fl s from to requested w).0 ≡ ok l
      → SavedLast l (Service.lock_rate fl s from to requested w).1
  unfolding Service.lock_rate
  lock_rate-SavedLast from to requested w l h =
      let d = capped_duration fl s requested in
      let (rate, got, rest) =
        bind-ok (Service.get_rate fl s from to) (λ rate. store_lock fl s rate d) w l h in
      subst (SavedLast l) (ap (λ (x : Fallible Error (LockedRate F) × W). x.1) (sym rest)) (
        store_lock-SavedLast rate d (Service.get_rate fl s from to w).1 l
          (ap (λ (x : Fallible Error (LockedRate F) × W). x.0) (sym rest) ∙ h))

  -- A POST that is answered with a lock has been given one by the service.
  locked_by_service :
      (req : RateLockRequest) (w : W) (l : LockedRate F)
      → (Http.lock_rate fl s (ok req) w).0 ≡ answer 200 (lock_body l)
      → (Service.lock_rate fl s req.source_currency req.target_currency req.duration_seconds w).0
        ≡ ok l
  unfolding Http.lock_rate
  locked_by_service req w l h = result _ h
    where
      result :
          (r : Fallible Error (LockedRate F))
          → reply_with 500 lock_body r ≡ answer 200 (lock_body l)
          → r ≡ ok l
      result (ok m) e = cc
      result (err x) e = cc

-- What a lock is answered with at a time.
abbrev pub lock_reply : {F : Type 0} → Time → LockedRate F → Response F
lock_reply t l =
    if after t l.expires_at
    then answer 410 (expired_body "Rate lock expired")
    else answer 200 (lock_body l)

module _ {F W : Type 0} (fl : Floats F) (provider : RateProvider F W) (client : Client (Json F) W)
    (host : Host F W) (c : Config F) (peek : W → String → Option (Json F))
    (laws : Redis.Laws client peek) where
  abbrev service : RateService F W
  service = service_over fl provider client host c

  found_reply :
      (t : Time) (l : LockedRate F)
      → l.expired ≡ false
      → locked_reply
          (answer_lock fl service l.lock_id (answer_at fl client host peek laws t l.lock_id l))
        ≡ lock_reply t l
  found_reply t l e = elim (Bool-cases (after t l.expires_at)) [ inl y ↦ rw y | inr n ↦ rw (n, e) ]

  -- Over a Redis server that keeps its laws and answers each GET with what was stored, past its
  -- time to live or not, and any provider: if a POST to lock a rate is answered with a lock and
  -- status 200, a GET of the lock's id that follows is answered with the same lock and status 200,
  -- or with status 410 if the lock's expiry is past at the time of that answer.
  pub get_locked_rate-lock_rate :
      IsAnswering client peek
      → (req : RateLockRequest) (w : W) (l : LockedRate F)
      → (Http.lock_rate fl service (ok req) w).0 ≡ answer 200 (lock_body l)
      → (Http.get_locked_rate fl service l.lock_id (Http.lock_rate fl service (ok req) w).1).0
        ≡ lock_reply
            (read_time fl client host peek laws l.lock_id (Http.lock_rate fl service (ok req) w).1)
            l
  unfolding Http.get_locked_rate Http.lock_rate Service.get_locked_rate service_over
      redis_repository
  get_locked_rate-lock_rate answering req w l h =
      let locked =
        lock_rate-SavedLast fl service req.source_currency req.target_currency req.duration_seconds
          w l (locked_by_service fl service req w l h) in
      let w₁ =
        (Service.lock_rate fl service req.source_currency req.target_currency req.duration_seconds
          w).1 in
      ap
        (λ v. locked_reply (
          answer_lock fl service l.lock_id
            (Repository.get_locked_rate fl client host l.lock_id v).0))
        locked.left
      ∙ ap (λ r. locked_reply (answer_lock fl service l.lock_id r))
          (get-save_locked_rate fl client host peek laws answering l locked.before locked.save_ok)
      ∙ ap
          (λ v. locked_reply (
            answer_lock fl service l.lock_id (
              answer_at fl client host peek laws (read_time fl client host peek laws l.lock_id v)
                l.lock_id l)))
          (sym locked.left)
      ∙ found_reply (read_time fl client host peek laws l.lock_id w₁) l locked.unexpired
