-- ===== src/Db/Allocation.antt =====
-- backend/src/db.rs, `claim_address`, over histories of statements.
use shuestand.Prelude.{
  String, ℕ, List, Bool, true, false, ◌==◌, ◌≡◌, ◌≢◌, refl, subst, ap, ◌∙◌, inl, inr, arith,
  update_where, count_where, count_where-zero, update_where-none, exists_row,
  exists_row-update_where, exists_row-count_where, update_where-All, All, All-update_where,
  Bool-cases, eq_iff, str_eq,
}
use shuestand.Db.Tables.{Tables, Address, ok}
use shuestand.Db.Addresses.{
  NewAddress, has_id, has_address, claims_row, allocate, new_row, insert_address, claim_address,
}
use shuestand.Db.Withdrawals.Cases.{locked_keeps}
use shuestand.Db.Deposits.Cases.{claim_keeps}
use shuestand.Db.Statements.{Statement, apply, run, run-keeps}

-- The address is there, and no row of it is free.
abbrev IsTaken : String → Tables → Type 0
IsTaken id t =
    (exists_row (has_id id) t.addresses ≡ true) × All (λ a. claims_row id a ≡ false) t.addresses

module _ (id : String) where
  update-IsTaken :
      (p : Address → Bool) (f : Address → Address) (t : Tables)
      → ((a : Address) → (f a).id ≡ a.id)
      → ((a : Address) → claims_row id a ≡ false → claims_row id (f a) ≡ false)
      → IsTaken id t
      → IsTaken id (record t { addresses = update_where p f t.addresses })
  update-IsTaken p f t same_id closed h = (
    exists_row-update_where (has_id id) p f t.addresses (λ a. rw (same_id a)) ∙ h.0,
    All-update_where _ p f t.addresses (λ a _. closed a) h.1,
  )

  insert-IsTaken : (a : NewAddress) (t : Tables) → IsTaken id t → IsTaken id (insert_address a t).1
  unfolding insert_address new_row exists_row
  insert-IsTaken a t h = elim (Bool-cases (exists_row (has_address a.address) t.addresses)) [
    | inl old ↦ rw old h
    | inr new ↦ elim (Bool-cases (exists_row (has_id a.id) t.addresses)) [
      | inl known ↦ rw (new, known) h
      | inr fresh ↦ elim (Bool-cases (str_eq a.id id)) [
        | inl e ↦
            cc (fresh, h.0, ap (λ i. exists_row (has_id i) t.addresses) ((eq_iff a.id id).0 e))
        | inr other ↦ rw (new, fresh, other) (h.0, (refl, h.1))
      ]
    ]
  ]

  apply-IsTaken : (s : Statement) (t : Tables) → IsTaken id t → IsTaken id (apply s t)
  unfolding apply allocate
  apply-IsTaken (Statement.insert_address a) t h = insert-IsTaken a t h
  apply-IsTaken (Statement.claim_address x d now) t h =
      update-IsTaken _ _ t (λ a. refl) (λ a c. ground arith) h
  apply-IsTaken (Statement.update_address_observation d x n now) t h =
      update-IsTaken _ _ t (λ a. refl) (λ a c. c) h
  apply-IsTaken (Statement.claim_deposit_pickup x y now) t h =
      claim_keeps (IsTaken id) x y now t h (λ m. h)
  apply-IsTaken (Statement.record_payment_request_token_locked scale x y a raw now) t h =
      locked_keeps (IsTaken id) scale x y a raw now t h h
  apply-IsTaken _ t h = ground arith

  claimed-IsTaken :
      (deposit : String) (now : ℕ) (t t' : Tables)
      → claim_address id deposit now t ≡ (ok true, t')
      → IsTaken id t'
  unfolding claim_address allocate
  claimed-IsTaken deposit now t t' e = subst (IsTaken id) (ap (λ r. r.1) e) (
    exists_row-update_where (has_id id) _ _ t.addresses (λ a. refl)
        ∙ exists_row-count_where (claims_row id) (has_id id) t.addresses (λ a c. ground arith)
            (one_there t.addresses (ap (λ r. r.0) e)),
    update_where-All (claims_row id) _ t.addresses (λ a _. ground arith),
  )
    where
      one_there :
          (as' : List Address)
          → ok (count_where (claims_row id) as' == 1) ≡ ok true
          → count_where (claims_row id) as' ≢ 0
      one_there as' e = ground arith

  taken_refuses :
      (deposit : String) (now : ℕ) (t : Tables)
      → IsTaken id t
      → claim_address id deposit now t ≡ (ok false, t)
  unfolding claim_address
  taken_refuses deposit now t h =
      rw (count_where-zero _ t.addresses h.1, update_where-none _ _ t.addresses h.1)

-- An address that was claimed for a deposit is claimed once: whatever statements run after it, a
-- claim for any deposit answers that it did nothing, and changes nothing.
pub claim_address_once :
    (id deposit : String) (now : ℕ) (t t' : Tables)
    → claim_address id deposit now t ≡ (ok true, t')
    → (history : List Statement) (other : String) (later : ℕ)
    → claim_address id other later (run history t') ≡ (ok false, run history t')
claim_address_once id deposit now t t' e history other later =
    taken_refuses id other later (run history t')
      (run-keeps (IsTaken id) (apply-IsTaken id) history t' (claimed-IsTaken id deposit now t t' e))
