-- ===== src/Settlement/Grpc/Conversions.antt =====
-- The conversions of internal/grpc/server.go, there and back.
use mathlib.Core.Path.{subst}
use movra.Prelude.{ℕ, ◌≡◌, refl, sym, ap, ◌⊎◌, inl, inr, ◌≢◌, true, Bool-cases, some, arith, eq_iff}
use movra.Prelude.Int.{ℤ, pos, ◌≤ℤ◌, eqb_ℤ, eqb_ℤ→eq}
use movra.Settlement.Model.{
  PayoutStatus, PayoutMethod, Recipient, unspecified, pending, processing, completed, failed,
  cancelled, ready_for_pickup, picked_up, unspecified_method, bank_account, mobile_wallet,
  cash_pickup,
}
use movra.Settlement.Grpc.Convert.{
  model_status_to_proto, proto_status_to_model, model_method_to_proto, proto_method_to_model,
  model_recipient_to_proto, proto_recipient_to_model,
}

abbrev InRange : ℤ → Type 0
InRange n = (pos 1 ≤ℤ n) × (n ≤ℤ pos 7)

abbrev pub Returns : ℤ → ℤ → Type 0
Returns n r = (InRange n × (r ≡ n)) ⊎ (¬ (InRange n) × (r ≡ pos 0))

-- A number of the status enumeration, 1 to 7, comes back from the model as it was, and any other
-- comes back as 0, which stands for no status.
pub status_roundtrip : (n : ℤ) → Returns n (model_status_to_proto (proto_status_to_model n))
unfolding model_status_to_proto proto_status_to_model
status_roundtrip n = elim (Bool-cases (eqb_ℤ n (pos 1))) [
  | inl e ↦ at 1 e (omega arith, omega arith, refl)
  | inr n1 ↦ elim (Bool-cases (eqb_ℤ n (pos 2))) [
    | inl e ↦ at 2 e (omega arith, omega arith, refl)
    | inr n2 ↦ elim (Bool-cases (eqb_ℤ n (pos 3))) [
      | inl e ↦ at 3 e (omega arith, omega arith, refl)
      | inr n3 ↦ elim (Bool-cases (eqb_ℤ n (pos 4))) [
        | inl e ↦ at 4 e (omega arith, omega arith, refl)
        | inr n4 ↦ elim (Bool-cases (eqb_ℤ n (pos 5))) [
          | inl e ↦ at 5 e (omega arith, omega arith, refl)
          | inr n5 ↦ elim (Bool-cases (eqb_ℤ n (pos 6))) [
            | inl e ↦ at 6 e (omega arith, omega arith, refl)
            | inr n6 ↦ elim (Bool-cases (eqb_ℤ n (pos 7))) [
              | inl e ↦ at 7 e (omega arith, omega arith, refl)
              | inr n7 ↦ rw (n1, n2, n3, n4, n5, n6, n7) (inr (λ r. ground arith, refl))
            ]
          ]
        ]
      ]
    ]
  ]
]
  where
    at :
        (k : ℕ)
        → eqb_ℤ n (pos k) ≡ true
        → (pos 1 ≤ℤ pos k)
          × (pos k ≤ℤ pos 7)
          × (model_status_to_proto (proto_status_to_model (pos k)) ≡ pos k)
        → Returns n (model_status_to_proto (proto_status_to_model n))
    at k e h =
        subst (λ m. Returns m (model_status_to_proto (proto_status_to_model m)))
          (sym (eqb_ℤ→eq n (pos k) e)) (inl ((h.0, h.1), h.2))

-- A status of the model comes back from a message as it was, or it is none of the seven constants
-- and comes back empty.
pub model_status_roundtrip :
    (s : PayoutStatus)
    → (proto_status_to_model (model_status_to_proto s) ≡ s)
      ⊎ ((proto_status_to_model (model_status_to_proto s) ≡ unspecified)
          × (s ≢ pending)
          × (s ≢ processing)
          × (s ≢ completed)
          × (s ≢ failed)
          × (s ≢ cancelled)
          × (s ≢ ready_for_pickup)
          × (s ≢ picked_up))
unfolding model_status_to_proto proto_status_to_model
model_status_roundtrip s = ground (
  arith,
  eq_iff s pending,
  eq_iff s processing,
  eq_iff s completed,
  eq_iff s failed,
  eq_iff s cancelled,
  eq_iff s ready_for_pickup,
  eq_iff s picked_up,
)

-- The methods of payout that a message can name.
abbrev pub IsMethod : PayoutMethod → Type 0
IsMethod m =
    (m ≡ unspecified_method) ⊎ ((m ≡ bank_account) ⊎ ((m ≡ mobile_wallet) ⊎ (m ≡ cash_pickup)))

method_roundtrip :
    (m : PayoutMethod) → IsMethod m → proto_method_to_model (model_method_to_proto m) ≡ m
unfolding model_method_to_proto proto_method_to_model
method_roundtrip m (inl e) = rw e
method_roundtrip m (inr (inl e)) = rw e
method_roundtrip m (inr (inr (inl e))) = rw e
method_roundtrip m (inr (inr (inr e))) = rw e

-- A recipient whose type is a known method, or empty, comes back from its message as it was.
pub recipient_roundtrip :
    (r : Recipient)
    → IsMethod r.type
    → proto_recipient_to_model (some (model_recipient_to_proto r)) ≡ r
unfolding model_recipient_to_proto proto_recipient_to_model
recipient_roundtrip r h =
    ap (λ (t : PayoutMethod). record r { type = t }) (method_roundtrip r.type h)
