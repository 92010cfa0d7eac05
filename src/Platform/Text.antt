-- ===== src/Platform/Text.antt =====
-- `fmt.Sprintf` of numbers, and texts followed by texts.
use Prim.Native.String.{◌++◌}
use Prim.Native.Char.{Char, code}
use movra.Prelude.{
  ℕ, zero, suc, ◌/◌, ◌%◌, String, ◌≡◌, refl, List, [], ◌∷◌, if◌then◌else◌, ltb, eqb, Bool, true,
  false, Option, none, some,
}
use movra.Prelude.Int.{ℤ, pos, negsuc}

-- The digit `d < 10` as a character.
unfoldable pub digit_text : ℕ → String
digit_text zero = "0"
digit_text (suc zero) = "1"
digit_text (suc (suc zero)) = "2"
digit_text (suc (suc (suc zero))) = "3"
digit_text (suc (suc (suc (suc zero)))) = "4"
digit_text (suc (suc (suc (suc (suc zero))))) = "5"
digit_text (suc (suc (suc (suc (suc (suc zero)))))) = "6"
digit_text (suc (suc (suc (suc (suc (suc (suc zero))))))) = "7"
digit_text (suc (suc (suc (suc (suc (suc (suc (suc zero)))))))) = "8"
digit_text _ = "9"

-- Each round divides by ten, so `suc n` rounds are enough for `n`.
decimal_rounds : ℕ → ℕ → String
decimal_rounds zero n = ""
decimal_rounds (suc f) n =
    let rest = decimal_rounds f (n / 10) ++ digit_text (n % 10) in
    if ltb n 10 then digit_text n else rest

unfoldable pub decimal : ℕ → String
unfolding decimal_rounds digit_text
decimal n = decimal_rounds (suc n) n

-- `%d`
unfoldable pub int_text : ℤ → String
unfolding decimal
int_text (pos n) = decimal n
int_text (negsuc n) = "-" ++ decimal (suc n)

decimal_numbers : List String
unfolding int_text
decimal_numbers =
    int_text (pos 0) ∷ int_text (pos 1_767_312_000_000_000_907) ∷ int_text (negsuc 41) ∷ []

decimal_texts : decimal_numbers ≡ "0" ∷ "1767312000000000907" ∷ "-42" ∷ []
unfolding decimal_numbers int_text
decimal_texts = refl

abbrev pub split_in : Bool → Char → String → Option (String × String) → Option (String × String)
split_in true c rest o = some ("", rest)
split_in false c rest none = none
split_in false c rest (some (before, after)) = some (Prim.Native.String.◌∷◌ c before, after)

-- The loop that looks for the first `mark` in a text: the texts before and after it.
unfoldable pub split_on : Char → String → Option (String × String)
split_on mark Prim.Native.String.[] = none
split_on mark (Prim.Native.String.◌∷◌ c rest) =
    split_in (eqb (code c) (code mark)) c rest (split_on mark rest)
