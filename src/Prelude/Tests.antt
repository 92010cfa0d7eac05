-- ===== src/Prelude/Tests.antt =====
-- Boolean tests on the native numbers, the conditional, and case splits that keep the equation.
use Prim.Native.Nat.{ℕ, suc, compare, Ordering}
use mathlib.Core.Path.{◌≡◌, refl}
use mathlib.Core.Logic.{◌⊎◌, ◌↔◌, inl, inr}
use mathlib.Core.Bool.{Bool, true, false}
use mathlib.Core.Option.{Option, none, some}
use mathlib.Core.List.{List, [], ◌∷◌}

abbrev pub ltb : ℕ → ℕ → Bool
ltb a b = elim (compare a b) [ Ordering.lt ↦ true | _ ↦ false ]

abbrev pub leb : ℕ → ℕ → Bool
leb a b = elim (compare a b) [ Ordering.gt ↦ false | _ ↦ true ]

abbrev pub eqb : ℕ → ℕ → Bool
eqb a b = elim (compare a b) [ Ordering.eq ↦ true | _ ↦ false ]

infix 1 if◌then◌else◌
abbrev pub if◌then◌else◌ {ℓ} : {A : Type ℓ} → Bool → A → A → A
if true then x else y = x
if false then x else y = y

pub Bool-cases : (b : Bool) → (b ≡ true) ⊎ (b ≡ false)
Bool-cases true = inl refl
Bool-cases false = inr refl

pub Option-cases {ℓ} : {A : Type ℓ} (o : Option A) → (o ≡ none) ⊎ ((a : A) × (o ≡ some a))
Option-cases none = inl refl
Option-cases (some a) = inr (a, refl)

-- The length of a list, as a native number.
abbrev pub length {ℓ} : {A : Type ℓ} → List A → ℕ
length [] = 0
length (x ∷ xs) = suc (length xs)

-- `append(xs, ys...)`
abbrev pub append {ℓ} : {A : Type ℓ} → List A → List A → List A
append [] ys = ys
append (x ∷ xs) ys = x ∷ append xs ys

-- An element of a list.
abbrev pub IsIn : {A : Type 0} → A → List A → Type 0
IsIn x [] = ⊥
IsIn x (y ∷ ys) = (x ≡ y) ⊎ IsIn x ys

pub IsIn-append :
    {A : Type 0} (x y : A) (xs : List A) → IsIn x (append xs (y ∷ [])) ↔ (IsIn x xs ⊎ (x ≡ y))
IsIn-append x y [] = (
  λ i. elim i [ inl e ↦ inr e | inr b ↦ absurd b ],
  λ i. elim i [ inl b ↦ absurd b | inr e ↦ inl e ],
)
IsIn-append x y (z ∷ zs) =
    let h = IsIn-append x y zs in
    (
      λ i. elim i [
        | inl e ↦ inl (inl e)
        | inr j ↦ elim (h.0 j) [ inl k ↦ inl (inr k) | inr e ↦ inr e ]
      ],
      λ i. elim i [
        | inl j ↦ elim j [ inl e ↦ inl e | inr k ↦ inr (h.1 (inl k)) ]
        | inr e ↦ inr (h.1 (inr e))
      ],
    )
