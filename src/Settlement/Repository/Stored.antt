-- ===== src/Settlement/Repository/Stored.antt =====
-- The Redis repository (internal/repository/redis_repository.go) and the laws that the payout
-- service relies on.
use Prim.Native.String.{◌++◌}
use text.Mathlib.TextLemmas.{append_cancel_left, append_assoc}
use movra.Prelude.{
  String, ◌≡◌, refl, sym, ap, ◌∙◌, ◌⊎◌, inl, inr, ◌≢◌, Option, none, some, eq_refl, test_of_ne,
}
use movra.Prelude.Action.{Result, ok, err, map_error, wrapping}
use movra.Platform.Runtime.{Runtime}
use movra.Redis
use movra.Redis.{Client, Reply, value, nil, failure, Set, Writes, written}
use movra.Settlement.Model.{Payout}
use movra.Settlement.Json.{marshal_payout}
use movra.Settlement.Json.Roundtrip.{unmarshal-marshal_payout}
use movra.Settlement.Repository.{
  Bytes, json, payout_key_prefix, transfer_key_prefix, unmarshal, save_commands, save_payout,
  get_payout, read_payout,
}

-- No key of a payout with such an id is a key of the index.
abbrev pub IsPayoutId : String → Type 0
IsPayoutId id = (t : String) → id ≢ "transfer:" ++ t

-- The payout that a value holds.
abbrev pub decoded : Option Bytes → Option Payout
decoded none = none
decoded (some b) = elim (unmarshal b) [ ok p ↦ some p | err e ↦ none ]

abbrev pub payout_key : String → String
payout_key id = payout_key_prefix ++ id

abbrev pub transfer_key : String → String
transfer_key t = transfer_key_prefix ++ t

payout_key_inj : (a b : String) → payout_key a ≡ payout_key b → a ≡ b
payout_key_inj a b e = append_cancel_left payout_key_prefix a b e

transfer_key_ne : (t id : String) → IsPayoutId id → transfer_key t ≢ payout_key id
transfer_key_ne t id i e = i t (
    append_cancel_left payout_key_prefix id ("transfer:" ++ t)
      (sym e ∙ append_assoc "payout:" "transfer:" t))

pub map_error-ok : (f : String → String) (r : Result (Unit {0})) → map_error f r ≡ ok tt → r ≡ ok tt
map_error-ok f (ok u) e = refl
map_error-ok f (err x) e = cc

module _ {W : Type 0} (client : Client Bytes W) (runtime : Runtime W)
    (peek : W → String → Option Bytes) (laws : Redis.Laws client peek) where
  -- The payout that is held under an id.
  abbrev pub stored : W → String → Option Payout
  stored w id = decoded (peek w (payout_key id))

  -- A saved payout decodes to itself.
  decoded_saved : (p : Payout) → decoded (some (json (marshal_payout p))) ≡ some p
  unfolding unmarshal
  decoded_saved p = rw (unmarshal-marshal_payout p, decoded)

  -- Its two writes, seen at the payout's key.
  pub written_own :
      (p : Payout) (o : Option Bytes)
      → IsPayoutId p.id
      → written (save_commands p) (payout_key p.id) o ≡ some (json (marshal_payout p))
  unfolding save_commands
  written_own p o i = rw (
    test_of_ne (transfer_key p.transfer_id) (payout_key p.id)
        (transfer_key_ne p.transfer_id p.id i),
    eq_refl (payout_key p.id),
  )

  Writes-own :
      (p : Payout) (v : Bytes)
      → IsPayoutId p.id
      → Writes (save_commands p) (payout_key p.id) v
      → v ≡ json (marshal_payout p)
  unfolding save_commands
  Writes-own p v i (inl e) = sym e.1
  Writes-own p v i (inr (inl e)) = absurd (transfer_key_ne p.transfer_id p.id i e.0)
  Writes-own p v i (inr (inr e)) = absurd e

  Writes-other :
      (p : Payout) (v : Bytes) (j : String)
      → IsPayoutId j
      → j ≢ p.id
      → Writes (save_commands p) (payout_key j) v
      → ⊥
  unfolding save_commands
  Writes-other p v j i n (inl e) = n (sym (payout_key_inj p.id j e.0))
  Writes-other p v j i n (inr (inl e)) = transfer_key_ne p.transfer_id j i e.0
  Writes-other p v j i n (inr (inr e)) = e

  -- A save that succeeds, of a payout with an id that payouts may have, has stored the payout
  -- under its id.
  pub save_ok :
      (p : Payout) (w : W)
      → IsPayoutId p.id
      → (save_payout client runtime p w).0 ≡ ok tt
      → stored (save_payout client runtime p w).1 p.id ≡ some p
  unfolding save_payout wrapping
  save_ok p w i e =
      ap decoded (
        laws.exec_ok (save_commands p) w (map_error-ok _ _ e) (payout_key p.id)
        ∙ written_own p (peek w (payout_key p.id)) i)
      ∙ decoded_saved p

  -- One that fails may have stored it.
  pub save_written :
      (p : Payout) (w : W)
      → IsPayoutId p.id
      → (stored (save_payout client runtime p w).1 p.id ≡ some p)
        ⊎ (stored (save_payout client runtime p w).1 p.id ≡ stored w p.id)
  unfolding save_payout wrapping
  save_written p w i = elim (laws.exec_partial (save_commands p) w (payout_key p.id)) [
    | inl same ↦ inr (ap decoded same)
    | inr t ↦ inl (ap decoded (t.2 ∙ ap some (Writes-own p t.0 i t.1)) ∙ decoded_saved p)
  ]

  -- A save, whether it succeeds or fails, changes no payout with another id that payouts may have.
  pub save_others :
      (p : Payout) (w : W) (j : String)
      → IsPayoutId j
      → j ≢ p.id
      → stored (save_payout client runtime p w).1 j ≡ stored w j
  unfolding save_payout wrapping
  save_others p w j i n = elim (laws.exec_partial (save_commands p) w (payout_key j)) [
    | inl same ↦ ap decoded same
    | inr t ↦ absurd (Writes-other p t.0 j i n t.1)
  ]

  read_payout_ok :
      (id : String) (r : Reply Bytes) (p : Payout)
      → read_payout client runtime id r ≡ ok p
      → (b : Bytes) × (r ≡ value b) × (decoded (some b) ≡ some p)
  read_payout_ok id (value b) p e = (b, refl, decode (unmarshal b) e)
    where
      decode :
          (r : Result Payout)
          → map_error (λ x. "unmarshal payout: " ++ x) r ≡ ok p
          → (elim r [ ok q ↦ some q | err x ↦ none ]) ≡ some p
      decode (ok q) e = cc
      decode (err x) e = cc
  read_payout_ok id nil p e = cc
  read_payout_ok id (failure x) p e = cc

  -- A read returns what is stored, and changes nothing.
  pub get_found :
      (id : String) (w : W) {p : Payout}
      → (get_payout client runtime id w).0 ≡ ok p
      → stored w id ≡ some p
  unfolding get_payout
  get_found id w {p} e =
      let (b, r, d) = read_payout_ok id (client.get (payout_key id) w).0 p e in
      ap decoded (laws.get_value (payout_key id) w r) ∙ d

  pub get_keeps :
      (id : String) (w : W) (j : String) → stored (get_payout client runtime id w).1 j ≡ stored w j
  unfolding get_payout
  get_keeps id w j = ap decoded (laws.get_keeps (payout_key id) w (payout_key j))
