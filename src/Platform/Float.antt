-- ===== src/Platform/Float.antt =====
-- What the exchange-rate service does with `float64`, `strconv.ParseFloat` and `%.nf`, on a type `F`,
-- and the documented behaviour of IEEE 754 arithmetic that the results rely on.
use movra.Prelude.{ℕ, String, ◌≡◌, Bool, true, false, Option}

pub record Floats (F : Type 0) : Type 0 where
  -- the constant m / 10 ^ e, rounded
  pub literal : ℕ → ℕ → F
  pub plus : F → F → F
  pub minus : F → F → F
  pub times : F → F → F
  pub over : F → F → F
  pub less : F → F → Bool
  pub at_most : F → F → Bool
  -- the value and the error, which the code drops in places
  pub parse_float : String → F × Option String
  -- `%.nf`
  pub fixed : ℕ → F → String
  -- neither NaN nor infinite: what `encoding/json` accepts
  pub is_finite : F → Bool

-- 0, 1, 2 and 100 as constants.
module _ {F : Type 0} (fl : Floats F) where
  abbrev pub zero_float : F
  zero_float = fl.literal 0 0

  abbrev pub one : F
  one = fl.literal 1 0

  abbrev pub two : F
  two = fl.literal 2 0

  abbrev pub hundred : F
  hundred = fl.literal 100 0

  infix 4 ◌≼◌
  abbrev pub ◌≼◌ : F → F → Type 0
  a ≼ b = fl.at_most a b ≡ true

  abbrev pub Finite : F → Type 0
  Finite a = fl.is_finite a ≡ true

  -- Rounding is monotone, so sums and products of finite numbers keep the order of exact arithmetic.
  pub record FloatLaws : Type 0 where
    pub less_irrefl : (a : F) → fl.less a a ≡ false
    pub times_one : (a : F) → fl.times a one ≡ a
    pub times_mono :
        (x a b : F)
        → Finite x
        → Finite a
        → Finite b
        → zero_float ≼ x
        → a ≼ b
        → fl.times x a ≼ fl.times x b
    pub minus-le : (a y : F) → Finite a → Finite y → zero_float ≼ y → fl.minus a y ≼ a
    pub le-plus : (a y : F) → Finite a → Finite y → zero_float ≼ y → a ≼ fl.plus a y
    pub one_finite : Finite one
