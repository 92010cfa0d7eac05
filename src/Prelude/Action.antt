-- ===== src/Prelude/Action.antt =====
-- Go functions that return `(A, error)` and act on a world `W`: the databases, the clock and the
-- other effects that they reach. An error is known by its text, and the world that a failing call
-- leaves behind is kept.
use Prim.Native.String.{String}
use mathlib.Core.Path.{◌≡◌, refl, ap}

pub data Fallible {ℓ} (E : Type 0) (A : Type ℓ) : Type ℓ where
  ok : A → Fallible E A
  err : E → Fallible E A

-- An error that is known by its text.
abbrev pub Result {ℓ} : Type ℓ → Type ℓ
Result A = Fallible String A

abbrev pub Run : Type 0 → Type 0 → Type 0 → Type 0
Run E W A = W → Fallible E A × W

abbrev pub Action : Type 0 → Type 0 → Type 0
Action W A = Run String W A

abbrev pub map_error {ℓ} : {A : Type ℓ} {E E' : Type 0} → (E → E') → Fallible E A → Fallible E' A
map_error f (ok a) = ok a
map_error f (err e) = err (f e)

module _ {E W A : Type 0} where
  unfoldable pub pure : A → Run E W A
  pure a w = (ok a, w)

  unfoldable pub fail : E → Run E W A
  fail e w = (err e, w)

  -- A call that cannot fail.
  unfoldable pub total : (W → A × W) → Run E W A
  total f w = (ok (f w).0, (f w).1)

  -- A call whose error is looked at, or dropped, by the caller.
  unfoldable pub catch : {E' : Type 0} → Run E' W A → Run E W (Fallible E' A)
  catch m w = (ok (m w).0, (m w).1)

  -- `fmt.Errorf("…: %w", err)`.
  unfoldable pub wrapping : {E' : Type 0} → (E' → E) → Run E' W A → Run E W A
  wrapping f m w = (map_error f (m w).0, (m w).1)

module _ {E W A B : Type 0} where
  abbrev pub bind_result : Fallible E A → W → (A → Run E W B) → Fallible E B × W
  bind_result (ok a) w f = f a w
  bind_result (err e) w f = (err e, w)

  infixl 5 ◌>>=◌ ◌>>◌
  unfoldable pub ◌>>=◌ : Run E W A → (A → Run E W B) → Run E W B
  ◌>>=◌ m f w = bind_result (m w).0 (m w).1 f

  unfoldable pub ◌>>◌ : Run E W A → Run E W B → Run E W B
  unfolding ◌>>=◌
  m >> k = m >>= λ _. k

-- A result, if there is one, satisfies `Q`.
abbrev pub Returned {ℓ} : {E : Type 0} {A : Type ℓ} → (A → Type 0) → Fallible E A → Type 0
Returned Q (ok a) = Q a
Returned Q (err e) = Unit

-- From a world where `I` holds, a call leaves one where it holds, also if it fails, and a result
-- satisfies `Q`.
pub record Ensures {E W A : Type 0} (I : W → Type 0) (Q : A → Type 0) (m : Run E W A) : Type 0 where
  pub keeps : (w : W) → I w → I (m w).1
  pub returns : (w : W) → I w → Returned Q (m w).0

abbrev pub Keeps : {E W A : Type 0} → (W → Type 0) → Run E W A → Type 0
Keeps I = Ensures I (λ _. Unit {0})

pub Returned-any {ℓ} : {E : Type 0} {A : Type ℓ} (r : Fallible E A) → Returned (λ _. Unit {0}) r
Returned-any (ok a) = tt
Returned-any (err e) = tt

pub Returned-map_error {ℓ} :
    {E E' : Type 0} {A : Type ℓ} (Q : A → Type 0) (f : E → E') (r : Fallible E A)
    → Returned Q r
    → Returned Q (map_error f r)
Returned-map_error Q f (ok a) h = h
Returned-map_error Q f (err e) h = h

module _ {E W A : Type 0} {I : W → Type 0} where
  pub Keeps-of : (m : Run E W A) → ((w : W) → I w → I (m w).1) → Keeps I m
  Keeps-of m k = record { keeps = k; returns = λ w _. Returned-any (m w).0 }

  pub Ensures-pure : {Q : A → Type 0} (a : A) → Q a → Ensures {E = E} I Q (pure a)
  unfolding pure
  Ensures-pure a q = record { keeps = λ w h. h; returns = λ w h. q }

  pub Ensures-fail : {Q : A → Type 0} (e : E) → Ensures I Q (fail e)
  unfolding fail
  Ensures-fail e = record { keeps = λ w h. h; returns = λ w h. tt }

  pub Keeps-total : (f : W → A × W) → ((w : W) → I w → I (f w).1) → Keeps {E = E} I (total f)
  unfolding total
  Keeps-total f k = record { keeps = k; returns = λ w h. tt }

  pub Keeps-catch :
      {E' : Type 0} {m : Run E W A} {Q : A → Type 0} → Ensures I Q m → Keeps {E = E'} I (catch m)
  unfolding catch
  Keeps-catch k = record { keeps = k.keeps; returns = λ w h. tt }

  pub Ensures-wrapping :
      {E' : Type 0} {Q : A → Type 0} {m : Run E W A} (f : E → E')
      → Ensures I Q m
      → Ensures I Q (wrapping f m)
  unfolding wrapping
  Ensures-wrapping {Q} {m} f k = record {
    keeps = k.keeps;
    returns = λ w h. Returned-map_error Q f (m w).0 (k.returns w h);
  }

module _ {E W A B : Type 0} {I : W → Type 0} where
  pub Ensures-bind :
      {Q : A → Type 0} {R : B → Type 0} {m : Run E W A} {f : A → Run E W B}
      → Ensures I Q m
      → ((a : A) → Q a → Ensures I R (f a))
      → Ensures I R (m >>= f)
  unfolding ◌>>=◌
  Ensures-bind {Q} {R} {m} {f} km kf = record {
    keeps = λ w h. after (m w).0 (m w).1 (km.keeps w h) (km.returns w h);
    returns = λ w h. value (m w).0 (m w).1 (km.keeps w h) (km.returns w h);
  }
    where
      after : (r : Fallible E A) (w : W) → I w → Returned Q r → I (bind_result r w f).1
      after (ok a) w h q = (kf a q).keeps w h
      after (err e) w h q = h

      value : (r : Fallible E A) (w : W) → I w → Returned Q r → Returned R (bind_result r w f).0
      value (ok a) w h q = (kf a q).returns w h
      value (err e) w h q = tt

  pub Ensures-then :
      {Q : A → Type 0} {R : B → Type 0} {m : Run E W A} {k : Run E W B}
      → Ensures I Q m
      → Ensures I R k
      → Ensures I R (m >> k)
  unfolding ◌>>◌
  Ensures-then km kk = Ensures-bind km (λ a _. kk)

-- A chain that has returned: its first call has, and the rest went on from there.
pub bind-ok :
    {E W A B : Type 0} (m : Run E W A) (f : A → Run E W B) (w : W) (b : B)
    → ((m >>= f) w).0 ≡ ok b
    → (a : A) × ((m w).0 ≡ ok a) × ((m >>= f) w ≡ f a (m w).1)
unfolding ◌>>=◌
bind-ok {E} {W} {A} {B} m f w b h = first (m w).0 refl h
  where
    first :
        (r : Fallible E A)
        → (m w).0 ≡ r
        → (bind_result r (m w).1 f).0 ≡ ok b
        → (a : A) × ((m w).0 ≡ ok a) × (bind_result (m w).0 (m w).1 f ≡ f a (m w).1)
    first (ok a) e h = (a, e, ap (λ x. bind_result x (m w).1 f) e)
    first (err x) e h = cc
