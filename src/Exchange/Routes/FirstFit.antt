-- ===== src/Exchange/Routes/FirstFit.antt =====
-- A router that keeps the laws of `Routes`: it takes the first route that fits, of a list in which no
-- route is more specific than one before it.
use mathlib.Core.Path.{subst}
use movra.Prelude.{
  String, ◌≡◌, refl, sym, ◌∙◌, ◌⊎◌, inl, inr, Bool, true, false, not, ◌&&◌, Option, none, some,
  List, [], ◌∷◌, IsIn, ◌==◌, eq_iff, eq_refl,
}
use movra.Exchange.Routes.{
  Segment, static, param, Route, Bindings, fit, more_specific, Router, RouterLaws,
}

abbrev attempt :
    Bool → Option Bindings → Route → Option (Route × Bindings) → Option (Route × Bindings)
attempt true (some bs) r rest = some (r, bs)
attempt true none r rest = rest
attempt false o r rest = rest

abbrev pub first_fit : List Route → Router
first_fit [] m path = none
first_fit (r ∷ rs) m path = attempt (r.method == m) (fit r.pattern path) r (first_fit rs m path)

abbrev none_more_specific : Route → List Route → Bool
none_more_specific r [] = true
none_more_specific r (x ∷ xs) = not (more_specific x.pattern r.pattern) && none_more_specific r xs

abbrev pub in_order : List Route → Bool
in_order [] = true
in_order (r ∷ rs) = none_more_specific r rs && in_order rs

-- What an attempt gives: its own route, or the rest.
attempt-cases :
    (r : Route) (m : String) (path : List String) (rest o : Option (Route × Bindings))
    → attempt (r.method == m) (fit r.pattern path) r rest ≡ o
    → ((bs : Bindings) × (r.method ≡ m) × ((fit r.pattern path ≡ some bs) × (o ≡ some (r, bs))))
      ⊎ ((rest ≡ o) × (r.method ≡ m → fit r.pattern path ≡ none))
attempt-cases r m path rest o h = by_test (r.method == m) refl (fit r.pattern path) refl h
  where
    by_test :
        (b : Bool)
        → (r.method == m) ≡ b
        → (q : Option Bindings) → fit r.pattern path ≡ q
        → attempt b q r rest ≡ o
        → ((bs : Bindings) × (r.method ≡ m) × ((fit r.pattern path ≡ some bs) × (o ≡ some (r, bs))))
          ⊎ ((rest ≡ o) × (r.method ≡ m → fit r.pattern path ≡ none))
    by_test true e (some bs) f h = inl (bs, (eq_iff r.method m).0 e, (f, sym h))
    by_test true e none f h = inr (h, λ k. f)
    by_test false e q f h = inr (h, λ k. absurd (differ k))
      where
        differ : r.method ≡ m → ⊥
        differ k = true_ne (sym (subst (λ x. (r.method == x) ≡ true) k (eq_refl r.method)) ∙ e)
          where
            true_ne : true ≡ false → ⊥
            true_ne e = cc

none_ne_some : {A : Type 0} {a : A} → none ≡ some a → ⊥
none_ne_some e = cc

pair_of : (x y : Route × Bindings) → some x ≡ some y → x ≡ y
pair_of x y e = cc

and_left : (a b : Bool) → (a && b) ≡ true → a ≡ true
and_left true b e = refl
and_left false b e = e

and_right : (a b : Bool) → (a && b) ≡ true → b ≡ true
and_right true b e = e
and_right false b e = cc

of_not : (a : Bool) → not a ≡ true → a ≡ false
of_not true e = sym e
of_not false e = refl

more_specific_self : (xs : List Segment) → more_specific xs xs ≡ false
more_specific_self [] = refl
more_specific_self (static t ∷ xs) = more_specific_self xs
more_specific_self (param n ∷ xs) = more_specific_self xs

takes_first :
    (rs : List Route) (m : String) (path : List String) (r : Route) (bs : Bindings)
    → first_fit rs m path ≡ some (r, bs)
    → IsIn r rs × ((r.method ≡ m) × (fit r.pattern path ≡ some bs))
takes_first [] m path r bs h = absurd (none_ne_some h)
takes_first (x ∷ rs) m path r bs h =
    elim (attempt-cases x m path (first_fit rs m path) (some (r, bs)) h) [
      | inl (cs, k, (e, s)) ↦
          subst
            (λ (y : Route × Bindings).
              IsIn y.0 (x ∷ rs) × ((y.0.method ≡ m) × (fit y.0.pattern path ≡ some y.1)))
            (sym (pair_of _ _ s)) (inl refl, (k, e))
      | inr (rest, no_fit) ↦ let (i, t) = takes_first rs m path r bs rest in (inr i, t)
    ]

misses_all :
    (rs : List Route) (m : String) (path : List String) (r : Route)
    → first_fit rs m path ≡ none
    → IsIn r rs
    → r.method ≡ m
    → fit r.pattern path ≡ none
misses_all [] m path r h i k = absurd i
misses_all (x ∷ rs) m path r h i k = elim (attempt-cases x m path (first_fit rs m path) none h) [
  | inl (cs, k', (e, s)) ↦ absurd (none_ne_some s)
  | inr (rest, no_fit) ↦ elim i [
    | inl same ↦
        subst (λ (y : Route). (y.method ≡ m) → (fit y.pattern path ≡ none)) (sym same) no_fit k
    | inr later ↦ misses_all rs m path r rest later k
  ]
]

none_more_specific-IsIn :
    (r : Route) (rs : List Route) (x : Route)
    → none_more_specific r rs ≡ true
    → IsIn x rs
    → more_specific x.pattern r.pattern ≡ false
none_more_specific-IsIn r [] x h i = absurd i
none_more_specific-IsIn r (y ∷ rs) x h i = elim i [
  | inl same ↦
      subst (λ (z : Route). more_specific z.pattern r.pattern ≡ false) (sym same)
        (of_not (more_specific y.pattern r.pattern) (and_left _ (none_more_specific r rs) h))
  | inr later ↦
      none_more_specific-IsIn r rs x (and_right (not (more_specific y.pattern r.pattern)) _ h) later
]

none_before :
    (rs : List Route) (m : String) (path : List String) (r r' : Route) (bs bs' : Bindings)
    → in_order rs ≡ true
    → first_fit rs m path ≡ some (r, bs)
    → IsIn r' rs
    → r'.method ≡ m
    → fit r'.pattern path ≡ some bs'
    → more_specific r'.pattern r.pattern ≡ false
none_before [] m path r r' bs bs' o h i k f = absurd i
none_before (x ∷ rs) m path r r' bs bs' o h i k f =
    elim (attempt-cases x m path (first_fit rs m path) (some (r, bs)) h) [
      | inl (cs, k', (e, s)) ↦
          subst (λ (y : Route × Bindings). more_specific r'.pattern y.0.pattern ≡ false)
            (sym (pair_of _ _ s))
            (elim i [
              | inl same ↦
                  subst (λ (y : Route). more_specific y.pattern x.pattern ≡ false) (sym same)
                    (more_specific_self x.pattern)
              | inr later ↦ none_more_specific-IsIn x rs r' (and_left _ (in_order rs) o) later
            ])
      | inr (rest, no_fit) ↦ elim i [
        | inl same ↦ absurd (
            none_ne_some (
              sym (
                subst (λ (y : Route). (y.method ≡ m) → (fit y.pattern path ≡ none)) (sym same)
                  no_fit k)
              ∙ f))
        | inr later ↦
            none_before rs m path r r' bs bs' (and_right (none_more_specific x rs) _ o) rest later k
              f
      ]
    ]

-- A list in that order routes as any list with the same routes does.
pub first_fit-RouterLaws :
    (rs routes : List Route)
    → in_order rs ≡ true
    → ((r : Route) → IsIn r rs → IsIn r routes)
    → ((r : Route) → IsIn r routes → IsIn r rs)
    → RouterLaws (first_fit rs) routes
first_fit-RouterLaws rs routes o to from = record {
  takes = λ m path r bs h. let (i, t) = takes_first rs m path r bs h in (to r i, t);
  misses = λ m path r h i k. misses_all rs m path r h (from r i) k;
  static_first =
      λ m path r r' bs bs' h i k f. none_before rs m path r r' bs bs' o h (from r' i) k f;
}
