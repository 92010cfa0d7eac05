-- ===== src/Platform/Prometheus.antt =====
-- The client library of Prometheus, as github.com/prometheus/client_golang documents it: vectors of
-- counters and histograms, which are kept by label values, and gauges. A call that panics is an error.
pub mod Memory
use Prim.Native.Char.{Char, code}
use Prim.Native.String
use movra.Prelude.{
  ℕ, String, ◌≡◌, Bool, true, false, not, ◌&&◌, ◌||◌, Option, some, refl, ap, ◌∙◌, List, [], ◌∷◌,
  ltb, leb, eqb, length, ◌==◌, suc, if◌then◌else◌,
}
use movra.Prelude.Int.{ℤ, pos, negsuc, ◌+ℤ◌}
use movra.Prelude.Action.{Action, Result, ok}

-- The upper bounds are whole numbers wherever they are given.
pub data Buckets : Type 0 where
  def_buckets : Buckets
  upper_bounds : List ℕ → Buckets

pub data Kind : Type 0 where
  counter : Kind
  histogram : Buckets → Kind
  gauge : Kind

-- `CounterOpts`, `HistogramOpts` or `GaugeOpts`, with the names of the labels.
pub record Description : Type 0 where
  pub kind : Kind
  pub namespace : String
  pub name : String
  pub help : String
  pub labels : List String

-- Handles on what is registered are values of `V`, durations of `F`.
pub record Registry (F W V : Type 0) : Type 0 where
  -- `BuildFQName`, without a subsystem
  pub full_name : String → String → String
  -- `promauto.NewCounterVec`, `NewHistogramVec` and `NewGauge`
  pub register : Description → Action W V
  -- `WithLabelValues(...).Inc()`
  pub count : V → List String → Action W (Unit {0})
  -- `WithLabelValues(...).Observe(...)`
  pub observe : V → List String → F → Action W (Unit {0})
  -- `Inc()` and `Dec()` of a gauge
  pub raise : V → W → W
  pub lower : V → W → W

-- What can be seen of a registry: the names in use, what a handle stands for, and by full names, how
-- often label values were counted or observed, and where a gauge stands.
pub record View (W V : Type 0) : Type 0 where
  pub taken : W → String → Bool
  pub description : W → V → Option Description
  pub sample : W → String → List String → ℕ
  pub level : W → String → ℤ

abbrev is_lower : Char → Bool
is_lower c = leb 97 (code c) && leb (code c) 122

abbrev all_plain : String → Bool
all_plain Prim.Native.String.[] = true
all_plain (Prim.Native.String.◌∷◌ c rest) = (is_lower c || eqb (code c) 95) && all_plain rest

-- A lower-case letter, followed by lower-case letters and underscores: a valid name.
abbrev pub is_plain : String → Bool
is_plain Prim.Native.String.[] = false
is_plain (Prim.Native.String.◌∷◌ c rest) = is_lower c && all_plain rest

abbrev is_in : String → List String → Bool
is_in s [] = false
is_in s (x ∷ xs) = (s == x) || is_in s xs

-- Plain, distinct, and not the label that histograms reserve.
abbrev good_labels : List String → Bool
good_labels [] = true
good_labels (l ∷ ls) = (is_plain l && (not (l == "le") && not (is_in l ls))) && good_labels ls

abbrev increasing : List ℕ → Bool
increasing [] = true
increasing (x ∷ []) = true
increasing (x ∷ (y ∷ ys)) = ltb x y && increasing (y ∷ ys)

abbrev good_kind : Kind → Bool
good_kind counter = true
good_kind gauge = true
good_kind (histogram def_buckets) = true
good_kind (histogram (upper_bounds bs)) = increasing bs

-- A description, apart from its namespace, that no registry refuses.
abbrev pub well_formed : Description → Bool
well_formed d = good_kind d.kind && (is_plain d.name && good_labels d.labels)

abbrev pub same_labels : List String → List String → Bool
same_labels [] [] = true
same_labels [] (y ∷ ys) = false
same_labels (x ∷ xs) [] = false
same_labels (x ∷ xs) (y ∷ ys) = (x == y) && same_labels xs ys

-- One more for the series of a name and label values.
abbrev pub bump : String → List String → String → List String → ℕ → ℕ
bump name ls n ks c = if (n == name) && same_labels ks ls then suc c else c

abbrev pub shift : String → ℤ → String → ℤ → ℤ
shift name by n z = if n == name then z +ℤ by else z

-- From `w` to `w'`, handles stay what they are, samples change by `f` and levels by `g`.
pub record Changed {W V : Type 0} (view : View W V) (f : String → List String → ℕ → ℕ)
    (g : String → ℤ → ℤ) (w w' : W) : Type 0 where
  pub keeps :
      (v : V) (d : Description) → view.description w v ≡ some d → view.description w' v ≡ some d
  pub samples : (n : String) (ks : List String) → view.sample w' n ks ≡ f n ks (view.sample w n ks)
  pub levels : (n : String) → view.level w' n ≡ g n (view.level w n)

abbrev pub unchanged : String → List String → ℕ → ℕ
unchanged n ks c = c

abbrev pub level_unchanged : String → ℤ → ℤ
level_unchanged n z = z

module _ {W V : Type 0} {view : View W V} where
  pub Changed-refl : (w : W) → Changed view unchanged level_unchanged w w
  Changed-refl w = record { keeps = λ v d h. h; samples = λ n ks. refl; levels = λ n. refl }

  pub Changed-trans :
      {f f' : String → List String → ℕ → ℕ} {g g' : String → ℤ → ℤ} {w w' w'' : W}
      → Changed view f g w w'
      → Changed view f' g' w' w''
      → Changed view (λ n ks c. f' n ks (f n ks c)) (λ n z. g' n (g n z)) w w''
  Changed-trans {f} {f'} {g} {g'} a b = record {
    keeps = λ v d h. b.keeps v d (a.keeps v d h);
    samples = λ n ks. b.samples n ks ∙ ap (f' n ks) (a.samples n ks);
    levels = λ n. b.levels n ∙ ap (g' n) (a.levels n);
  }

-- What the library documents: descriptions with plain names and free full names register; label
-- values as many as the labels are counted and observed; and nothing else changes.
pub record Laws {F W V : Type 0} (reg : Registry F W V) (view : View W V) : Type 0 where
  pub full_name_inj : (ns a b : String) → reg.full_name ns a ≡ reg.full_name ns b → a ≡ b
  pub register_ok :
      (d : Description) (w : W)
      → is_plain d.namespace ≡ true
      → well_formed d ≡ true
      → view.taken w (reg.full_name d.namespace d.name) ≡ false
      → (v : V) × ((reg.register d w).0 ≡ ok v) × (view.description (reg.register d w).1 v ≡ some d)
  pub register_taken :
      (d : Description) (w : W) (n : String)
      → (n == reg.full_name d.namespace d.name) ≡ false
      → view.taken (reg.register d w).1 n ≡ view.taken w n
  pub register_changed :
      (d : Description) (w : W) → Changed view unchanged level_unchanged w (reg.register d w).1
  pub count_ok :
      (v : V) (d : Description) (ls : List String) (w : W)
      → view.description w v ≡ some d
      → d.kind ≡ counter
      → length ls ≡ length d.labels
      → ((reg.count v ls w).0 ≡ ok tt)
        × Changed view
            (bump (reg.full_name d.namespace d.name) ls)
            level_unchanged
            w
            (reg.count v ls w).1
  pub observe_ok :
      (v : V) (d : Description) (b : Buckets) (ls : List String) (x : F) (w : W)
      → view.description w v ≡ some d
      → d.kind ≡ histogram b
      → length ls ≡ length d.labels
      → ((reg.observe v ls x w).0 ≡ ok tt)
        × Changed view
            (bump (reg.full_name d.namespace d.name) ls)
            level_unchanged
            w
            (reg.observe v ls x w).1
  pub raise_changed :
      (v : V) (d : Description) (w : W)
      → view.description w v ≡ some d
      → d.kind ≡ gauge
      → Changed view unchanged (shift (reg.full_name d.namespace d.name) (pos 1)) w (reg.raise v w)
  pub lower_changed :
      (v : V) (d : Description) (w : W)
      → view.description w v ≡ some d
      → d.kind ≡ gauge
      → Changed view unchanged
          (shift (reg.full_name d.namespace d.name) (negsuc 0))
          w
          (reg.lower v w)
