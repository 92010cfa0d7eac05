-- ===== src/Exchange/Tests/Fixed.antt =====
-- Numbers with six decimals, in place of `float64`: they show that the laws can be met, and run the
-- tests.
use Prim.Native.String.{[], ◌∷◌, ◌++◌}
use Prim.Native.Char.{code}
use movra.Prelude.{
  ℕ, zero, suc, ◌+◌, ◌-◌, ◌*◌, ◌/◌, ◌%◌, ◌^◌, ◌≤◌, String, ◌≡◌, refl, true, Option, none, some,
  arith, ltb, leb, eqb, if◌then◌else◌, ◌||◌,
}
use movra.Platform.Text.{decimal, digit_text}
use movra.Platform.Float.{Floats, FloatLaws}

abbrev pub scale : ℕ
scale = 1_000_000

abbrev pub divided : ℕ → ℕ → ℕ
divided a zero = 0
divided a (suc b) = a * scale / suc b

-- The digits of a text, from `value` on; `unit` is what a digit after the point stands for.
abbrev pub parse_digits : (value : ℕ) (unit : Option ℕ) → String → ℕ × Option String
parse_digits value unit [] = (value, none)
parse_digits value none (c ∷ s) =
    let whole = parse_digits (value * 10 + (code c - 48) * scale) none s in
    let point = parse_digits value (some 100_000) s in
    if eqb (code c) 46
    then point
    else if ltb (code c) 48 || ltb 57 (code c)
    then (0, some "invalid syntax")
    else whole
parse_digits value (some unit) (c ∷ s) =
    let rest = parse_digits (value + (code c - 48) * unit) (some (unit / 10)) s in
    if ltb (code c) 48 || ltb 57 (code c) then (0, some "invalid syntax") else rest

abbrev pub decimals : ℕ → ℕ → String
decimals zero r = ""
decimals (suc n) r = digit_text (r * 10 / scale) ++ decimals n (r * 10 % scale)

abbrev pub fixed_point : Floats ℕ
fixed_point = record {
  literal = λ m e. m * scale / 10 ^ e;
  plus = λ a b. a + b;
  minus = λ a b. a - b;
  times = λ a b. a * b / scale;
  over = divided;
  less = ltb;
  at_most = leb;
  parse_float = parse_digits 0 none;
  fixed = λ n a. decimal (a / scale) ++ ("." ++ decimals n (a % scale));
  is_finite = λ a. true;
}

mul_mono : (x a b : ℕ) → a ≤ b → x * a ≤ x * b
mul_mono zero a b h = omega arith
mul_mono (suc x) a b h = omega (arith, mul_mono x a b h)

pub fixed_point-FloatLaws : FloatLaws fixed_point
fixed_point-FloatLaws = record {
  less_irrefl = λ a. ground arith;
  times_one = λ a. omega arith;
  times_mono = λ x a b _ _ _ _ h. scaled (x * a) (x * b) (mul_mono x a b (at_most a b h));
  minus-le = λ a y _ _ _. ground arith;
  le-plus = λ a y _ _ _. ground arith;
  one_finite = refl;
}
  where
    at_most : (a b : ℕ) → leb a b ≡ true → a ≤ b
    at_most a b h = ground arith

    scaled : (m n : ℕ) → m ≤ n → leb (m / scale) (n / scale) ≡ true
    scaled m n h = ground arith
