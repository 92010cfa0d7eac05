-- ===== src/Settlement/Repository.antt =====
-- internal/repository/redis_repository.go: payouts in Redis, as JSON under their id, with an index
-- from transfers to payouts.
pub mod Stored
pub mod Lookup
pub mod Page
pub mod Rounds
pub mod Listing
use Prim.Native.String.{◌++◌}
use text.Mathlib.Text.{starts_with}
use movra.Prelude.{
  ℕ, zero, suc, ◌*◌, String, Bool, true, false, Option, none, some, List, [], ◌∷◌, not, ◌&&◌, ◌||◌,
  if◌then◌else◌, ◌==◌, length, append,
}
use movra.Prelude.Int.{ℤ, pos, leb_ℤ, ltb_ℤ}
use movra.Prelude.Action.{
  Result, ok, err, Action, pure, fail, total, catch, wrapping, map_error, ◌>>=◌, ◌>>◌,
}
use movra.Platform.Time.{Time, hour}
use movra.Platform.Runtime.{Runtime}
use movra.Redis
use movra.Redis.{Client, Reply, value, nil, failure, Set}
use movra.Settlement.Model.{
  Payout, PayoutStatus, PayoutMethod, unspecified, unspecified_method, completed, picked_up,
}
use movra.Settlement.Interfaces.{PayoutRepository, PayoutFilter}
use movra.Settlement.Json.{PayoutJson, marshal_payout, unmarshal_payout}

abbrev pub payout_key_prefix : String
payout_key_prefix = "payout:"

abbrev pub transfer_key_prefix : String
transfer_key_prefix = "payout:transfer:"

-- Seven days.
abbrev pub payout_ttl : ℤ
payout_ttl = pos (7 * (24 * hour))

-- What is stored: the JSON of a payout, or the id in the index.
pub data Bytes : Type 0 where
  json : PayoutJson → Bytes
  plain : String → Bytes

-- `json.Unmarshal(data, &payout)`: an id in the index is no JSON.
unfoldable pub unmarshal : Bytes → Result Payout
unmarshal (json j) = unmarshal_payout j
unmarshal (plain s) = err "invalid character looking for beginning of value"

-- The text that `.Result()` gives; the printed JSON is left out, which an index key does not hold.
abbrev raw : Bytes → String
raw (plain s) = s
raw (json j) = ""

-- The filter of `ListPayouts`: an empty field of it passes all.
unfoldable pub passes : PayoutFilter → Payout → Bool
passes f p =
    (f.status == unspecified || p.status == f.status)
    && (f.method == unspecified_method || p.method == f.method)
    && (f.batch_id == "" || p.batch_id == f.batch_id)

-- `filter.Limit > 0 && len(payouts) >= filter.Limit`
unfoldable pub is_full : PayoutFilter → List Payout → Bool
is_full f ps = ltb_ℤ (pos 0) f.limit && leb_ℤ f.limit (pos (length ps))

-- The two writes of `SavePayout`.
unfoldable pub save_commands : Payout → List (Set Bytes)
save_commands p =
    record { key = payout_key_prefix ++ p.id; entry = json (marshal_payout p); ttl = payout_ttl }
    ∷ record { key = transfer_key_prefix ++ p.transfer_id; entry = plain p.id; ttl = payout_ttl }
    ∷ []

module _ {W : Type 0} (client : Client Bytes W) (runtime : Runtime W) where
  unfoldable pub save_payout : Payout → Action W (Unit {0})
  unfolding save_commands
  save_payout p = wrapping (λ e. "save payout: " ++ e) (client.exec (save_commands p))

  abbrev pub read_payout : String → Reply Bytes → Result Payout
  read_payout id (value b) = map_error (λ e. "unmarshal payout: " ++ e) (unmarshal b)
  read_payout id nil = err ("payout not found: " ++ id)
  read_payout id (failure e) = err ("get payout: " ++ e)

  unfoldable pub get_payout : String → Action W Payout
  unfolding unmarshal
  get_payout id w = let (r, w') = client.get (payout_key_prefix ++ id) w in (read_payout id r, w')

  abbrev pub follow_index : String → Reply Bytes → Action W Payout
  follow_index transfer_id (value b) = get_payout (raw b)
  follow_index transfer_id nil = fail ("payout not found for transfer: " ++ transfer_id)
  follow_index transfer_id (failure e) = fail ("get payout by transfer: " ++ e)

  unfoldable pub get_payout_by_transfer_id : String → Action W Payout
  unfolding get_payout
  get_payout_by_transfer_id transfer_id w =
      let (r, w') = client.get (transfer_key_prefix ++ transfer_id) w in
      follow_index transfer_id r w'

  -- The payout of one key of a scan, if the loop's tests let it through.
  abbrev pub accepted : PayoutFilter → Reply Bytes → Option Payout
  accepted f (value b) = elim (unmarshal b) [
    | ok p ↦ if passes f p then some p else none
    | err e ↦ none
  ]
  accepted f nil = none
  accepted f (failure e) = none

  unfoldable pub visit : PayoutFilter → String → W → Option Payout × W
  visit f key w =
      if starts_with key transfer_key_prefix
      then (none, w)
      else (let (r, w') = client.get key w in (accepted f r, w'))

  -- The loop over the keys of one scan; true if it has returned from the function.
  unfoldable pub visit_keys :
      PayoutFilter → List String → List Payout → W → (Bool × List Payout) × W
  visit_keys f [] ps w = ((false, ps), w)
  visit_keys f (key ∷ keys) ps w =
      let (found, w') = visit f key w in
      elim found [
        | none ↦ visit_keys f keys ps w'
        | some p ↦
            let ps' = append ps (p ∷ []) in
            let rest = visit_keys f keys ps' w' in if is_full f ps' then ((true, ps'), w') else rest
      ]

  -- The loop over the cursors, with as many rounds as there is fuel.
  unfoldable pub scan_from : ℕ → PayoutFilter → ℕ → List Payout → Action W (List Payout)
  scan_from zero f cursor ps = fail "out of fuel"
  scan_from (suc fuel) f cursor ps = do
    (keys, next) ← wrapping (λ e. "scan payouts: " ++ e) (client.scan cursor payout_key_prefix 100)
    (returned, ps') ← total (visit_keys f keys ps)
    elim returned [
      | true ↦ pure ps'
      | false ↦ elim next [ zero ↦ pure ps' | suc n ↦ scan_from fuel f (suc n) ps' ]
    ]

  unfoldable pub list_payouts : ℕ → PayoutFilter → Action W (List Payout)
  list_payouts fuel f = scan_from fuel f 0 []

  -- The payout of `UpdatePayoutStatus`, dated if it is completed or picked up.
  abbrev with_status : Payout → PayoutStatus → String → Time → Payout
  with_status p status reason t = record p {
    status = status;
    failure_reason = reason;
    updated_at = t;
  }

  unfoldable pub update_payout_status : String → PayoutStatus → String → Action W (Unit {0})
  unfolding get_payout save_payout
  update_payout_status id status reason = do
    p ← get_payout id
    t ← total runtime.now
    if status == completed || status == picked_up
        then (do
          u ← total runtime.now
          save_payout (record (with_status p status reason t) { completed_at = some u }))
        else save_payout (with_status p status reason t)

  -- The repository that the service is given.
  unfoldable pub redis_repository : ℕ → PayoutRepository W
  unfolding save_payout get_payout get_payout_by_transfer_id list_payouts update_payout_status
  redis_repository fuel = record {
    save_payout = save_payout;
    get_payout = get_payout;
    get_payout_by_transfer_id = get_payout_by_transfer_id;
    list_payouts = list_payouts fuel;
    update_payout_status = update_payout_status;
  }
