-- ===== src/Platform/Prometheus/Memory.antt =====
-- A registry in memory that keeps the laws of `Prometheus`.
use text.Mathlib.TextLemmas.{append_cancel_left}
use Prim.Native.String.{◌++◌}
use movra.Prelude.{
  ℕ, String, ◌≡◌, refl, sym, ap, ◌∙◌, Bool, true, false, ◌&&◌, Bool-cases, inl, inr, Option, none,
  some, List, [], ◌∷◌, if◌then◌else◌, ◌==◌, eqb, length, eq_iff, eq_refl, arith,
}
use mathlib.Core.Path.{subst}
use mathlib.Core.Bool.{false≢true}
use movra.Prelude.Int.{ℤ, pos, negsuc}
use movra.Prelude.Action.{Result, Action, ok, err}
use movra.Platform.Prometheus.{
  Registry, View, Laws, Changed, Description, bump, shift, unchanged, level_unchanged, is_plain,
  well_formed,
}

-- What is registered, by full names, with a count for each series and a level for each name.
pub record World : Type 0 where
  pub registered : List (String × Description)
  pub sample : String → List String → ℕ
  pub level : String → ℤ

abbrev find : String → List (String × Description) → Option Description
find n [] = none
find n ((m, d) ∷ ds) = if n == m then some d else find n ds

abbrev is_some : Option Description → Bool
is_some none = false
is_some (some d) = true

abbrev full_name : String → String → String
full_name namespace name = (namespace ++ "_") ++ name

abbrev pub view : View World String
view = record {
  taken = λ w n. is_some (find n w.registered);
  description = λ w v. find v w.registered;
  sample = λ w. w.sample;
  level = λ w. w.level;
}

-- One more for label values of a registered name, if they are as many as its labels.
abbrev counted : Option Description → List String → World → Result (Unit {0}) × World
counted none ls w = (err "not registered", w)
counted (some d) ls w =
    if eqb (length ls) (length d.labels)
    then (
      ok tt,
      record w { sample = λ n ks. bump (full_name d.namespace d.name) ls n ks (w.sample n ks) },
    )
    else (err "inconsistent label cardinality", w)

abbrev moved : Option Description → ℤ → World → World
moved none by w = w
moved (some d) by w = record w {
  level = λ n. shift (full_name d.namespace d.name) by n (w.level n);
}

abbrev pub register_in : Description → Action World String
register_in d w =
    let n = full_name d.namespace d.name in
    if is_some (find n w.registered)
    then (err "duplicate metrics collector registration attempted", w)
    else if is_plain d.namespace && well_formed d
    then (ok n, record w { registered = (n, d) ∷ w.registered })
    else (err "invalid metric", w)

abbrev pub memory : {F : Type 0} → Registry F World String
memory = record {
  full_name = full_name;
  register = register_in;
  count = λ v ls w. counted (find v w.registered) ls w;
  observe = λ v ls x w. counted (find v w.registered) ls w;
  raise = λ v w. moved (find v w.registered) (pos 1) w;
  lower = λ v w. moved (find v w.registered) (negsuc 0) w;
}

same : (w : World) → Changed view unchanged level_unchanged w w
same w = record { keeps = λ v d h. h; samples = λ n ks. refl; levels = λ n. refl }

find_other :
    (v n : String) (d d' : Description) (ds : List (String × Description))
    → is_some (find n ds) ≡ false
    → find v ds ≡ some d'
    → find v ((n, d) ∷ ds) ≡ some d'
find_other v n d d' ds free h = elim (Bool-cases (v == n)) [
  | inl e ↦
      let held : find n ds ≡ some d' = subst (λ k. find k ds ≡ some d') ((eq_iff v n).0 e) h in
      absurd (false≢true (sym free ∙ ap is_some held))
  | inr e ↦ rw e h
]

find_own :
    (n : String) (d : Description) (ds : List (String × Description))
    → find n ((n, d) ∷ ds) ≡ some d
find_own n d ds = rw (eq_refl n) refl

register_in-cases :
    (P : Result String × World → Type 0) (d : Description) (w : World)
    → ((e : String) → P (err e, w))
    → (is_some (find (full_name d.namespace d.name) w.registered) ≡ false
        → P (
          ok (full_name d.namespace d.name),
          record w { registered = (full_name d.namespace d.name, d) ∷ w.registered },
        ))
    → P (register_in d w)
register_in-cases P d w refused made =
    elim (Bool-cases (is_some (find (full_name d.namespace d.name) w.registered))) [
      | inl e ↦ rw e (refused _)
      | inr e ↦ elim (Bool-cases (is_plain d.namespace && well_formed d)) [
        | inl g ↦ rw (e, g) (made e)
        | inr g ↦ rw (e, g) (refused _)
      ]
    ]

moved-Changed :
    (v : String) (d : Description) (by : ℤ) (w : World)
    → view.description w v ≡ some d
    → Changed view unchanged
        (shift (full_name d.namespace d.name) by)
        w
        (moved (find v w.registered) by w)
moved-Changed v d by w h =
    rw h (record { keeps = λ v d h. h; samples = λ n ks. refl; levels = λ n. refl })

counted-Changed :
    (v : String) (d : Description) (ls : List String) (w : World)
    → view.description w v ≡ some d
    → length ls ≡ length d.labels
    → ((counted (find v w.registered) ls w).0 ≡ ok tt)
      × Changed view
          (bump (full_name d.namespace d.name) ls)
          level_unchanged
          w
          (counted (find v w.registered) ls w).1
counted-Changed v d ls w h e =
    let test : eqb (length ls) (length d.labels) ≡ true = ground arith in
    rw (h, test) (refl, record { keeps = λ v d h. h; samples = λ n ks. refl; levels = λ n. refl })

pub memory-Laws : {F : Type 0} → Laws (memory {F = F}) view
memory-Laws = record {
  full_name_inj = λ ns a b e. append_cancel_left (ns ++ "_") a b e;
  register_ok = λ d w plain good free.
      let n = full_name d.namespace d.name in
      (n, rw (free, plain, good) refl, rw (free, plain, good) (find_own n d w.registered));
  register_taken = λ d w n other.
      register_in-cases (λ r. view.taken r.1 n ≡ view.taken w n) d w (λ e. refl)
        (λ free. rw other refl);
  register_changed = λ d w.
      register_in-cases (λ r. Changed view unchanged level_unchanged w r.1) d w (λ e. same w)
        (λ free. record {
          keeps = λ v d' h. find_other v (full_name d.namespace d.name) d d' w.registered free h;
          samples = λ n ks. refl;
          levels = λ n. refl;
        });
  count_ok = λ v d ls w h k e. counted-Changed v d ls w h e;
  observe_ok = λ v d b ls x w h k e. counted-Changed v d ls w h e;
  raise_changed = λ v d w h k. moved-Changed v d (pos 1) w h;
  lower_changed = λ v d w h k. moved-Changed v d (negsuc 0) w h;
}
