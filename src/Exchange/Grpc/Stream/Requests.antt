-- ===== src/Exchange/Grpc/Stream/Requests.antt =====
-- The requests of `StreamRates`, in internal/grpc/server.go, as pairs.
use movra.Prelude.{
  String, ◌≡◌, ◌≢◌, refl, sym, ◌∙◌, ◌⊎◌, inl, inr, Option, none, some, List, [], ◌∷◌,
}
use movra.Prelude.Action.{Fallible, ok, err}
use movra.Exchange.Interfaces.{CurrencyPair}
use movra.Exchange.Grpc.Stream.{End, invalid_argument, parse_pair, pair_or, parse_pairs}
use movra.Exchange.Grpc.Stream.Pairs.{Names, parse_pair-Names}

-- The texts name the pairs, one by one.
abbrev pub AllNamed : List String → List CurrencyPair → Type 0
AllNamed [] [] = Unit
AllNamed [] (p ∷ ps) = ⊥
AllNamed (text ∷ texts) [] = ⊥
AllNamed (text ∷ texts) (p ∷ ps) = Names text p × AllNamed texts ps

-- One of the texts names no pair.
abbrev pub HasUnnamed : List String → Type 0
HasUnnamed [] = ⊥
HasUnnamed (text ∷ texts) = ((p : CurrencyPair) → ¬ Names text p) ⊎ HasUnnamed texts

-- What the texts of a request are read as.
pub data Parsed (texts : List String) : Fallible End (List CurrencyPair) → Type 0 where
  accepted : (ps : List CurrencyPair) → AllNamed texts ps → Parsed texts (ok ps)
  rejected : (m : String) → HasUnnamed texts → Parsed texts (err (invalid_argument m))

pub parse_pairs-Parsed : (texts : List String) → Parsed texts (parse_pairs texts)
unfolding parse_pairs
parse_pairs-Parsed [] = accepted [] tt
parse_pairs-Parsed (text ∷ texts) =
    read (parse_pair text) refl (parse_pairs texts) (parse_pairs-Parsed texts)
  where
    none_ne : (p : CurrencyPair) → none ≢ some p
    none_ne p e = cc

    read :
        (o : Option CurrencyPair)
        → parse_pair text ≡ o
        → (r : Fallible End (List CurrencyPair)) → Parsed texts r
        → Parsed (text ∷ texts) (pair_or text o r)
    read none e r parsed =
        rejected _ (inl (λ p n. none_ne p (sym e ∙ (parse_pair-Names text p).1 n)))
    read (some p) e _ (accepted ps named) = accepted (p ∷ ps) ((parse_pair-Names text p).0 e, named)
    read (some p) e _ (rejected m unnamed) = rejected m (inr unnamed)
