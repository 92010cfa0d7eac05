-- ===== src/Exchange/Grpc/Stream/Pairs.antt =====
-- The texts of `StreamRates`, in internal/grpc/server.go: which pairs they name.
use mathlib.Core.Path.{subst}
use Prim.Native.String.{[], ◌++◌, ◌∷◌}
use Prim.Native.Char.{Char, code}
use text.Mathlib.TextEquality.{Char-path}
use text.Mathlib.TextLemmas.{nil-append, cons-append}
use movra.Prelude.{
  String, ◌≡◌, ◌≢◌, refl, sym, ap, ◌∙◌, ◌↔◌, Bool, true, false, ◌||◌, Option, none, some,
  if◌then◌else◌, ◌==◌, eqb, arith, ne_of_test, test_of_ne,
}
use movra.Exchange.Interfaces.{CurrencyPair}
use movra.Platform.Text.{split_on, split_in}
use movra.Exchange.Grpc.Stream.{named, parse_pair}

-- A text without a colon.
abbrev pub HasNoColon : String → Type 0
HasNoColon [] = Unit
HasNoColon (c ∷ s) = (eqb (code c) 58 ≡ false) × HasNoColon s

abbrev colon : Char
colon = ":"

is_colon : (c : Char) → eqb (code c) 58 ≡ true → c ≡ colon
is_colon c h = Char-path c colon (ground arith)

-- A colon in front.
colon-append : (b : String) → ":" ++ b ≡ colon ∷ b
colon-append b = cons-append colon "" b ∙ ap (λ t. colon ∷ t) (nil-append b)

split_on_sound :
    (s a b : String) → split_on colon s ≡ some (a, b) → (s ≡ a ++ (":" ++ b)) × HasNoColon a
unfolding split_on
split_on_sound [] a b h = cc
split_on_sound (c ∷ s) a b h =
    chosen (eqb (code c) 58) refl (split_on colon s) (λ x y. split_on_sound s x y) h
  where
    parts :
        (x y : String)
        → ◌≡◌ {A = Option (String × String)} (some (x, y)) (some (a, b))
        → (x ≡ a) × (y ≡ b)
    parts x y e = (cc, cc)

    Around : String → String → Type 0
    Around x y = (c ∷ s ≡ x ++ (":" ++ y)) × HasNoColon x

    chosen :
        (k : Bool)
        → eqb (code c) 58 ≡ k
        → (o : Option (String × String))
        → ((x y : String) → o ≡ some (x, y) → (s ≡ x ++ (":" ++ y)) × HasNoColon x)
        → split_in k c s o ≡ some (a, b)
        → Around a b
    chosen true k o e h =
        let (first, second) = parts "" s h in
        subst (λ x. Around x b) first
          (subst (Around "") second (
            sym (nil-append (":" ++ s) ∙ colon-append s ∙ ap (λ d. d ∷ s) (sym (is_colon c k))),
            tt,
          ))
    chosen false k none e h = cc
    chosen false k (some (x, y)) e h =
        let (first, second) = parts (c ∷ x) y h in
        let (whole, clear) = e x y refl in
        subst (λ v. Around v b) first
          (subst (Around (c ∷ x)) second
            (ap (λ t. c ∷ t) whole ∙ sym (cons-append c x (":" ++ y)), (k, clear)))

split_on_complete : (a b : String) → HasNoColon a → split_on colon (a ++ (":" ++ b)) ≡ some (a, b)
split_on_complete [] b n =
    ap (split_on colon) (nil-append (":" ++ b) ∙ colon-append b) ∙ unfold split_on in refl
split_on_complete (c ∷ a) b (k, n) =
    ap (split_on colon) (cons-append c a (":" ++ b)) ∙ after (split_on_complete a b n)
  where
    after :
        split_on colon (a ++ (":" ++ b)) ≡ some (a, b)
        → split_on colon (c ∷ (a ++ (":" ++ b))) ≡ some (c ∷ a, b)
    after e = unfold split_on in rw (k, e) refl

-- A text names a pair if it is the two codes with a colon between, neither is empty and the first
-- has no colon.
pub record Names (text : String) (p : CurrencyPair) : Type 0 where
  pub joined : text ≡ p.source ++ (":" ++ p.target)
  pub source_code : p.source ≢ ""
  pub target_code : p.target ≢ ""
  pub first_colon : HasNoColon p.source

-- `StreamRates` reads a pair from a text exactly if the text names it.
pub parse_pair-Names : (text : String) (p : CurrencyPair) → parse_pair text ≡ some p ↔ Names text p
unfolding parse_pair
parse_pair-Names text p = (read (split_on colon text) refl, named_by)
  where
    pair_of : String → String → CurrencyPair
    pair_of a b = record { source = a; target = b }

    checked :
        (a b : String) (k l : Bool)
        → (a == "") ≡ k
        → (b == "") ≡ l
        → (if k || l then none else some (pair_of a b)) ≡ some p
        → (a ≢ "") × (b ≢ "") × (pair_of a b ≡ p)
    checked a b true l e e' h = cc
    checked a b false true e e' h = cc
    checked a b false false e e' h = (ne_of_test a "" e, ne_of_test b "" e', same h)
      where
        same : {q : CurrencyPair} → some q ≡ some p → q ≡ p
        same e = cc

    read :
        (o : Option (String × String)) → split_on colon text ≡ o → named o ≡ some p → Names text p
    read none e h = cc
    read (some (a, b)) e h =
        let (left, right, same) = checked a b (a == "") (b == "") refl refl h in
        let (whole, clear) = split_on_sound text a b e in
        subst (Names text) same
          (record { joined = whole; source_code = left; target_code = right; first_colon = clear })

    named_by : Names text p → named (split_on colon text) ≡ some p
    named_by n =
        rw
          (
            n.joined,
            split_on_complete p.source p.target n.first_colon,
            test_of_ne p.source "" n.source_code,
            test_of_ne p.target "" n.target_code,
          )
          refl
