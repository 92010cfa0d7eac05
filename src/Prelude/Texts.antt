-- ===== src/Prelude/Texts.antt =====
-- The test `==` of texts, as a decision.
use Prim.Native.String.{String}
use mathlib.Core.Path.{◌≡◌, sym, ◌∙◌}
use mathlib.Core.Logic.{◌≢◌, ◌⊎◌, inl, inr}
use mathlib.Core.Bool.{false, false≢true}
use text.Mathlib.Text.{◌==◌}
use text.Mathlib.TextEquality.{eq_iff}
use movra.Prelude.Tests.{Bool-cases}

pub ne_of_test : (a b : String) → (a == b) ≡ false → a ≢ b
ne_of_test a b h e = false≢true (sym h ∙ (eq_iff a b).1 e)

pub test_of_ne : (a b : String) → a ≢ b → (a == b) ≡ false
test_of_ne a b n = elim (Bool-cases (a == b)) [ inl y ↦ absurd (n ((eq_iff a b).0 y)) | inr e ↦ e ]

pub same_or_not : (a b : String) → (a ≡ b) ⊎ (a ≢ b)
same_or_not a b = elim (Bool-cases (a == b)) [
  | inl y ↦ inl ((eq_iff a b).0 y)
  | inr n ↦ inr (ne_of_test a b n)
]
