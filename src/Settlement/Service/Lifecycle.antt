-- ===== src/Settlement/Service/Lifecycle.antt =====
-- The life of a payout: the changes that the payout service makes to a payout it stores, and what
-- holds of a payout after any number of them.
use movra.Prelude.{String, ◌≡◌, refl, ◌∙◌, ◌⊎◌, inl, inr, ◌≢◌, none, some, arith, ne_of_test}
use movra.Prelude.Int.{ℤ, pos, ◌+ℤ◌, ◌≤ℤ◌, ◌<ℤ◌, int_laws}
use movra.Platform.Time.{Time}
use movra.Settlement.Model.{Payout, PayoutStatus, pending, processing, completed, failed, cancelled}
use movra.Settlement.Interfaces.{ProviderResult}
use movra.Settlement.Service.{with_result}

-- One save of the service, over the payout that it saved or read last.
pub data Step (max_retries : ℤ) : Payout → Payout → Type 0 where
  begin :
      (p : Payout) (t : Time)
      → p.status ≡ pending
      → Step max_retries p (record p { status = processing; updated_at = t })
  refuse :
      (p : Payout) (e : String) (t : Time)
      → p.status ≡ processing
      → Step max_retries p (record p { status = failed; failure_reason = e; updated_at = t })
  answer :
      (p : Payout) (r : ProviderResult) (t : Time)
      → p.status ≡ processing
      → r.status ≢ completed
      → Step max_retries p (with_result p r t)
  complete :
      (p : Payout) (r : ProviderResult) (t u : Time)
      → p.status ≡ processing
      → r.status ≡ completed
      → Step max_retries p (record (with_result p r t) { completed_at = some u })
  retry :
      (p : Payout) (t : Time)
      → p.status ≡ failed
      → p.retry_count <ℤ max_retries
      → Step max_retries p (record p {
        status = pending;
        retry_count = p.retry_count +ℤ pos 1;
        failure_reason = "";
        updated_at = t;
      })
  cancel :
      (p : Payout) (reason : String) (t : Time)
      → (p.status ≡ pending) ⊎ (p.status ≡ failed)
      → Step max_retries p
          (record p { status = cancelled; failure_reason = reason; updated_at = t })

pub data Evolves (max_retries : ℤ) (p : Payout) : Payout → Type 0 where
  here : Evolves max_retries p p
  next : {q r : Payout} → Evolves max_retries p q → Step max_retries q r → Evolves max_retries p r

-- What a payout is for: the fields that come with the request.
pub record SameOrder (p q : Payout) : Type 0 where
  pub id : q.id ≡ p.id
  pub transfer_id : q.transfer_id ≡ p.transfer_id
  pub method : q.method ≡ p.method
  pub amount : q.amount ≡ p.amount
  pub currency : q.currency ≡ p.currency
  pub recipient : q.recipient ≡ p.recipient
  pub batch_id : q.batch_id ≡ p.batch_id
  pub created_at : q.created_at ≡ p.created_at

pub SameOrder-trans : {p q r : Payout} → SameOrder p q → SameOrder q r → SameOrder p r
SameOrder-trans a b = record {
  id = b.id ∙ a.id;
  transfer_id = b.transfer_id ∙ a.transfer_id;
  method = b.method ∙ a.method;
  amount = b.amount ∙ a.amount;
  currency = b.currency ∙ a.currency;
  recipient = b.recipient ∙ a.recipient;
  batch_id = b.batch_id ∙ a.batch_id;
  created_at = b.created_at ∙ a.created_at;
}

-- The retry count of `q` has come from that of `p` by retries below the limit.
abbrev pub Counts : ℤ → Payout → Payout → Type 0
Counts m p q =
    (p.retry_count ≤ℤ q.retry_count) × ((q.retry_count ≤ℤ m) ⊎ (q.retry_count ≡ p.retry_count))

-- Neither pending, nor processing, nor failed.
abbrev pub IsSettled : PayoutStatus → Type 0
IsSettled s = (s ≢ pending) × (s ≢ processing) × (s ≢ failed)

-- A completed payout has its time of completion.
abbrev pub IsDated : Payout → Type 0
IsDated p = p.status ≡ completed → p.completed_at ≢ none

Counts-trans : (m : ℤ) (p q r : Payout) → Counts m p q → Counts m q r → Counts m p r
Counts-trans m p q r a (up, inl b) = (omega (arith, a.0), inl b)
Counts-trans m p q r (lo, inl b) (up, inr e) = (omega arith, inl (rw e b))
Counts-trans m p q r (lo, inr b) (up, inr e) = (omega arith, inr (e ∙ b))

module _ {m : ℤ} where
  Step-SameOrder : {p q : Payout} → Step m p q → SameOrder p q
  unfolding with_result
  Step-SameOrder (begin p t h) = ground arith
  Step-SameOrder (refuse p e t h) = ground arith
  Step-SameOrder (answer p r t h n) = ground arith
  Step-SameOrder (complete p r t u h c) = ground arith
  Step-SameOrder (retry p t h b) = ground arith
  Step-SameOrder (cancel p e t h) = ground arith

  -- After any number of steps of its life, a payout has the id, transfer, method, amount,
  -- currency, recipient, batch and creation time that it had.
  pub Evolves-SameOrder : {p q : Payout} → Evolves m p q → SameOrder p q
  Evolves-SameOrder {p} here = ground arith
  Evolves-SameOrder (next e s) = SameOrder-trans (Evolves-SameOrder e) (Step-SameOrder s)

  Step-Counts : {p q : Payout} → Step m p q → Counts m p q
  unfolding with_result
  Step-Counts (begin p t h) = (omega arith, inr refl)
  Step-Counts (refuse p e t h) = (omega arith, inr refl)
  Step-Counts (answer p r t h n) = (omega arith, inr refl)
  Step-Counts (complete p r t u h c) = (omega arith, inr refl)
  Step-Counts (retry p t h b) = (omega int_laws, inl (omega int_laws))
  Step-Counts (cancel p e t h) = (omega arith, inr refl)

  -- Over any number of steps of its life, the retry count of a payout does not fall, and it is at
  -- most the configured maximum or as it was.
  pub Evolves-Counts : {p q : Payout} → Evolves m p q → Counts m p q
  Evolves-Counts {p} here = (omega arith, inr refl)
  Evolves-Counts {p} (next {q} {r} e s) = Counts-trans m p q r (Evolves-Counts e) (Step-Counts s)

  Step-not-IsSettled : {p q : Payout} → Step m p q → ¬ (IsSettled p.status)
  Step-not-IsSettled (begin p t h) n = n.0 h
  Step-not-IsSettled (refuse p e t h) n = n.1 h
  Step-not-IsSettled (answer p r t h c) n = n.1 h
  Step-not-IsSettled (complete p r t u h c) n = n.1 h
  Step-not-IsSettled (retry p t h b) n = n.2 h
  Step-not-IsSettled (cancel p e t (inl h)) n = n.0 h
  Step-not-IsSettled (cancel p e t (inr h)) n = n.2 h

  -- A payout that is neither pending, processing nor failed is not changed by any steps of its
  -- life.
  pub Evolves-settled : {p q : Payout} → IsSettled p.status → Evolves m p q → q ≡ p
  Evolves-settled n here = refl
  Evolves-settled {p} n (next {q} e s) =
      let same : q ≡ p = Evolves-settled n e in absurd (Step-not-IsSettled s (rw same n))

  Step-IsDated : {p q : Payout} → Step m p q → IsDated p → IsDated q
  unfolding with_result
  Step-IsDated (begin p t h) d = λ x. absurd (ne_of_test processing completed refl x)
  Step-IsDated (refuse p e t h) d = λ x. absurd (ne_of_test failed completed refl x)
  Step-IsDated (answer p r t h c) d = λ e. absurd (c e)
  Step-IsDated (complete p r t u h c) d = λ e x. cc
  Step-IsDated (retry p t h b) d = λ x. absurd (ne_of_test pending completed refl x)
  Step-IsDated (cancel p e t h) d = λ x. absurd (ne_of_test cancelled completed refl x)

  -- A payout that is completed has its time of completion, after any changes.
  pub Evolves-IsDated : {p q : Payout} → Evolves m p q → IsDated p → IsDated q
  Evolves-IsDated here d = d
  Evolves-IsDated (next e s) d = Step-IsDated s (Evolves-IsDated e d)
