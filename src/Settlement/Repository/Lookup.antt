-- ===== src/Settlement/Repository/Lookup.antt =====
-- Looking a saved payout up, over a server that answers.
use movra.Prelude.{String, ◌≡◌, ◌∙◌, Option, some, eq_refl}
use movra.Prelude.Action.{ok, wrapping}
use movra.Platform.Runtime.{Runtime}
use movra.Redis
use movra.Redis.{Client, Reply, value, written, IsAnswering, get-held}
use movra.Settlement.Model.{Payout}
use movra.Settlement.Json.{marshal_payout}
use movra.Settlement.Json.Roundtrip.{unmarshal-marshal_payout}
use movra.Settlement.Repository.{
  Bytes, json, plain, unmarshal, save_commands, save_payout, get_payout, get_payout_by_transfer_id,
  follow_index,
}
use movra.Settlement.Repository.Stored.{
  IsPayoutId, payout_key, transfer_key, written_own, map_error-ok,
}

module _ {W : Type 0} (client : Client Bytes W) (runtime : Runtime W)
    (peek : W → String → Option Bytes) (laws : Redis.Laws client peek)
    (answering : IsAnswering client peek) where
  written_index :
      (p : Payout) (o : Option Bytes)
      → written (save_commands p) (transfer_key p.transfer_id) o ≡ some (plain p.id)
  unfolding save_commands
  written_index p o = rw (eq_refl (transfer_key p.transfer_id))

  read_saved :
      (p : Payout) (w : W)
      → peek w (payout_key p.id) ≡ some (json (marshal_payout p))
      → (get_payout client runtime p.id w).0 ≡ ok p
  unfolding get_payout unmarshal
  read_saved p w held =
      rw (get-held client peek answering (payout_key p.id) w _ held)
        (rw (unmarshal-marshal_payout p))

  follow_saved :
      (p : Payout) (t : String) (w : W) (r : Reply Bytes)
      → r ≡ value (plain p.id)
      → peek w (payout_key p.id) ≡ some (json (marshal_payout p))
      → (follow_index client runtime t r w).0 ≡ ok p
  follow_saved p t w r e held = rw e (read_saved p w held)

  -- Over a server that answers a GET with what is stored: after a save that succeeds, of a payout
  -- with an id that payouts may have, `GetPayout` returns the payout for its id and
  -- `GetPayoutByTransferID` for its transfer.
  pub save-get_payout_by_transfer_id :
      (p : Payout) (w : W)
      → IsPayoutId p.id
      → (save_payout client runtime p w).0 ≡ ok tt
      → ((get_payout client runtime p.id (save_payout client runtime p w).1).0 ≡ ok p)
        × ((get_payout_by_transfer_id client runtime p.transfer_id
              (save_payout client runtime p w).1).0
            ≡ ok p)
  unfolding get_payout_by_transfer_id save_payout wrapping
  save-get_payout_by_transfer_id p w i saved =
      let w₁ = (save_payout client runtime p w).1 in
      let done = map_error-ok _ _ saved in
      let own =
        laws.exec_ok (save_commands p) w done (payout_key p.id)
        ∙ written_own client runtime peek laws p _ i in
      let index =
        laws.exec_ok (save_commands p) w done (transfer_key p.transfer_id) ∙ written_index p _ in
      let k = transfer_key p.transfer_id in
      (
        read_saved p w₁ own,
        follow_saved p p.transfer_id (client.get k w₁).1 (client.get k w₁).0
            (get-held client peek answering k w₁ _ index)
            (laws.get_keeps k w₁ (payout_key p.id) ∙ own),
      )
