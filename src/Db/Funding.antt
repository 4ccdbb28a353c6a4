-- ===== src/Db/Funding.antt =====
-- backend/src/db.rs: the ways to fund a withdrawal, and its invoice's expiry, over histories of
-- statements. All of them guard their UPDATE by the funding state.
use shuestand.Prelude.{
  String, ℕ, List, Bool, true, false, ◌&&◌, ◌==◌, ◌≡◌, refl, subst, sym, ap, arith, update_where,
  count_where, Bool-cases, ◌≢◌, inl, inr, All, count_where-zero, find_row-exists_row,
  find_row-holds, All-find_row, All-mono, is_some, update_where-none,
}
use shuestand.Db.Tables.{Tables, Withdrawal, Result, ok, err, row_not_found}
use shuestand.Db.States.Withdrawal.{funding, same}
use shuestand.Db.Withdrawals.{
  update_or_missing, update_one, has_id, is_funding, inserted, queue_with_token,
  record_payment_request_token, record_lightning_invoice_funded, mark_lightning_invoice_expired,
  record_payment_request_token_locked, record_locked_row, recorded, not_accepting,
}
use shuestand.Db.Withdrawals.Closed.{
  Closed, update-Closed, update_or_missing-Closed, insert-Closed, moved-Closed, counted_one,
}
use shuestand.Db.Withdrawals.Cases.{locked_keeps, locked-Recorded}
use shuestand.Db.Deposits.Cases.{claim_keeps}
use shuestand.Db.Statements.{Statement, Onward, onward, apply, run, run-keeps}

-- The withdrawal is there, and its row is not open for funding.
abbrev IsPastFunding : String → Tables → Type 0
IsPastFunding id = Closed (is_funding id) id

-- No state that a caller moves a withdrawal to is the funding state.
onward_closed : (s : Onward) (b : Bool) → (b && same (onward s) funding) ≡ false
onward_closed s b = ground arith

module _ (id : String) where
  apply-IsPastFunding :
      (s : Statement) (t : Tables) → IsPastFunding id t → IsPastFunding id (apply s t)
  unfolding apply queue_with_token inserted
  apply-IsPastFunding (Statement.insert_withdrawal w) t h =
      insert-Closed (is_funding id) id w t (λ other. rw other) h
  apply-IsPastFunding (Statement.update_withdrawal_chain_state x s now) t h =
      update_or_missing-Closed (is_funding id) id _ _ t (λ w. refl) (λ w c. onward_closed s _) h
  apply-IsPastFunding (Statement.manual_update_withdrawal_state x s y e reset now) t h =
      update_or_missing-Closed (is_funding id) id _ _ t (λ w. refl) (λ w c. onward_closed s _) h
  apply-IsPastFunding (Statement.record_withdrawal_attempt x s v y e now) t h =
      update-Closed (is_funding id) id _ _ t (λ w. refl) (λ w c. onward_closed s _) h
  apply-IsPastFunding (Statement.record_token_consumed x a fee now) t h =
      update-Closed (is_funding id) id _ _ t (λ w. refl) (λ w c. c) h
  apply-IsPastFunding (Statement.mark_withdrawal_transaction_counted x now) t h =
      update-Closed (is_funding id) id _ _ t (λ w. refl) (λ w c. c) h
  apply-IsPastFunding (Statement.record_payment_request_token x y now) t h =
      update_or_missing-Closed (is_funding id) id _ _ t (λ w. refl)
        (λ w c. onward_closed Onward.to_queued _) h
  apply-IsPastFunding (Statement.record_lightning_invoice_funded x a at) t h =
      update-Closed (is_funding id) id _ _ t (λ w. refl) (λ w c. onward_closed Onward.to_queued _) h
  apply-IsPastFunding (Statement.mark_lightning_invoice_expired x now) t h =
      update-Closed (is_funding id) id _ _ t (λ w. refl) (λ w c. onward_closed Onward.to_failed _) h
  apply-IsPastFunding (Statement.record_payment_request_token_locked scale x y a raw now) t h =
      locked_keeps (IsPastFunding id) scale x y a raw now t h (
        update-Closed (is_funding id) id _ _ t (λ w. refl) (λ w c. onward_closed Onward.to_queued _)
          h)
  apply-IsPastFunding (Statement.delete_expired_sessions now) t h =
      update-Closed (is_funding id) id _ _ t (λ w. refl) (λ w c. c) h
  apply-IsPastFunding (Statement.claim_deposit_pickup x y now) t h =
      claim_keeps (IsPastFunding id) x y now t h (λ m. h)
  apply-IsPastFunding (Statement.insert_deposit d) t h = ground arith
  apply-IsPastFunding _ t h = ground arith

-- An UPDATE of a withdrawal that took it out of the funding state.
moved-IsPastFunding :
    (id : String) (f : Withdrawal → Withdrawal) (t : Tables)
    → ((w : Withdrawal) → (f w).id ≡ w.id)
    → ((w : Withdrawal) → is_funding id (f w) ≡ false)
    → (count_where (is_funding id) t.withdrawals ≡ 0 → ⊥)
    → IsPastFunding id (record t { withdrawals = update_where (is_funding id) f t.withdrawals })
moved-IsPastFunding id f t same_id closed =
    moved-Closed (is_funding id) id f t same_id (λ w e. ground arith) (λ w _. closed w)

-- The UPDATEs that take a withdrawal from its funding state into the queue.
pub data Funds (id : String) (t t' : Tables) : Type 0 where
  by_token :
      (token : String) (now : ℕ)
      → record_payment_request_token id token now t ≡ (ok tt, t')
      → Funds id t t'
  by_locked :
      (scale : ℕ → ℕ) (token : String) (amount raw now : ℕ)
      → record_payment_request_token_locked scale id token amount raw now t ≡ (ok recorded, t')
      → Funds id t t'
  by_invoice :
      (amount paid_at : ℕ)
      → record_lightning_invoice_funded id amount paid_at t ≡ (ok true, t')
      → Funds id t t'

-- What a successful answer says of the three kinds of UPDATE.
updated :
    (p : Withdrawal → Bool) (f : Withdrawal → Withdrawal) (t t' : Tables)
    → update_or_missing p f t ≡ (ok tt, t')
    → (count_where p t.withdrawals ≢ 0)
      × (record t { withdrawals = update_where p f t.withdrawals } ≡ t')
updated p f t t' e = elim (Bool-cases (count_where p t.withdrawals == 0)) [
  | inl z ↦
      let e' : ◌≡◌ {A = Result (Unit {0}) × Tables} (err row_not_found, t) (ok tt, t') =
        rw z at e in
      cc
  | inr z ↦
      let e' : ◌≡◌ {A = Result (Unit {0}) × Tables}
          (ok tt, record t { withdrawals = update_where p f t.withdrawals }) (ok tt, t') =
        rw z at e in
      (ground arith, ap (λ r. r.1) e')
]

Funds-IsPastFunding : (id : String) (t t' : Tables) → Funds id t t' → IsPastFunding id t'
unfolding record_payment_request_token record_lightning_invoice_funded queue_with_token
Funds-IsPastFunding id t t' (by_token token now e) =
    let (there, after) = updated (is_funding id) _ t t' e in
    subst (IsPastFunding id) after
      (moved-IsPastFunding id _ t (λ w. refl) (λ w. onward_closed Onward.to_queued _) there)
Funds-IsPastFunding id t t' (by_locked scale token amount raw now e) =
    let done = locked-Recorded scale id token amount raw now t t' e in
    subst (IsPastFunding id) (sym done.after)
      (moved-IsPastFunding id _ t (λ w. refl) (λ w. onward_closed Onward.to_queued _) done.updates)
Funds-IsPastFunding id t t' (by_invoice amount at e) = subst (IsPastFunding id) (ap (λ r. r.1) e) (
    moved-IsPastFunding id _ t (λ w. refl) (λ w. onward_closed Onward.to_queued _)
      (counted_one _ t.withdrawals (ap (λ r. r.0) e)))

refused_locked_row :
    (scale : ℕ → ℕ) (id token : String) (amount raw now : ℕ) (w : Withdrawal) (t : Tables)
    → same w.state funding ≡ false
    → record_locked_row scale id token amount raw now w t ≡ (ok not_accepting, t)
unfolding record_locked_row
refused_locked_row scale id token amount raw now w t e = rw e

refused_locked :
    (scale : ℕ → ℕ) (id token : String) (amount raw now : ℕ) (t : Tables)
    → IsPastFunding id t
    → record_payment_request_token_locked scale id token amount raw now t ≡ (ok not_accepting, t)
unfolding record_payment_request_token_locked
refused_locked scale id token amount raw now t h =
    let (w, hit) = find_row-exists_row (has_id id) t.withdrawals h.0 in
    let past = All-find_row _ (has_id id) t.withdrawals w h.1 hit in
    let own = find_row-holds (has_id id) t.withdrawals w hit in
    rw (hit, record_payment_request_token_locked)
      (refused_locked_row scale id token amount raw now w t (ground arith))

-- An UPDATE whose test no row meets.
update_or_missing-none :
    (p : Withdrawal → Bool) (f : Withdrawal → Withdrawal) (t : Tables)
    → All (λ w. p w ≡ false) t.withdrawals
    → update_or_missing p f t ≡ (err row_not_found, t)
update_or_missing-none p f t h = rw (count_where-zero p t.withdrawals h)

update_one-none :
    (p : Withdrawal → Bool) (f : Withdrawal → Withdrawal) (t : Tables)
    → All (λ w. p w ≡ false) t.withdrawals
    → update_one p f t ≡ (ok false, t)
update_one-none p f t h =
    rw (count_where-zero p t.withdrawals h, update_where-none p f t.withdrawals h)

not_expiring :
    (id : String) (ws : List Withdrawal)
    → All (λ w. is_funding id w ≡ false) ws
    → All (λ w. (is_funding id w && is_some w.lightning_quote_id) ≡ false) ws
not_expiring id ws = All-mono _ _ ws (λ w e. ground arith)

-- Each way to fund or expire the withdrawal answers that it did nothing, and changes nothing.
abbrev pub FundsNoMore : String → Tables → Type 0
FundsNoMore id u =
    ((token : String) (now : ℕ)
      → record_payment_request_token id token now u ≡ (err row_not_found, u))
    × ((scale : ℕ → ℕ) (token : String) (amount raw now : ℕ)
        → record_payment_request_token_locked scale id token amount raw now u
          ≡ (ok not_accepting, u))
    × ((amount now : ℕ) → record_lightning_invoice_funded id amount now u ≡ (ok false, u))
    × ((now : ℕ) → mark_lightning_invoice_expired id now u ≡ (ok false, u))

-- Once one UPDATE has taken a withdrawal from its funding state into the queue, whatever statements
-- run after it, no later token, locked token or paid invoice funds it again, and its invoice does
-- not expire: each answers that it did nothing, and none changes the row.
pub fund_once :
    (id : String) (t t' : Tables)
    → Funds id t t'
    → (history : List Statement) → FundsNoMore id (run history t')
unfolding record_payment_request_token record_lightning_invoice_funded
    mark_lightning_invoice_expired
fund_once id t t' f history =
    let u = run history t' in
    let past =
      run-keeps (IsPastFunding id) (apply-IsPastFunding id) history t'
        (Funds-IsPastFunding id t t' f) in
    (
      λ token now. update_or_missing-none _ _ u past.1,
      λ scale token amount raw now. refused_locked scale id token amount raw now u past,
      λ amount now. update_one-none _ _ u past.1,
      λ now. update_one-none _ _ u (not_expiring id u.withdrawals past.1),
    )
