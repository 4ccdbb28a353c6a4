-- ===== src/Db/Counting.antt =====
-- backend/src/db.rs, `mark_withdrawal_transaction_counted`, over histories of statements.
use shuestand.Prelude.{
  String, ℕ, List, true, false, ◌≡◌, refl, subst, ap, arith, count_where-zero, update_where-none,
}
use shuestand.Db.Tables.{Tables, ok}
use shuestand.Db.Withdrawals.{
  uncounted, inserted, queue_with_token, mark_withdrawal_transaction_counted,
}
use shuestand.Db.Withdrawals.Closed.{
  Closed, update-Closed, update_or_missing-Closed, insert-Closed, moved-Closed, counted_one,
}
use shuestand.Db.Withdrawals.Cases.{locked_keeps}
use shuestand.Db.Deposits.Cases.{claim_keeps}
use shuestand.Db.Statements.{Statement, apply, run, run-keeps}

-- The withdrawal is there, and its row is marked as counted.
abbrev pub IsCounted : String → Tables → Type 0
IsCounted id = Closed (uncounted id) id

module _ (id : String) where
  pub apply-IsCounted : (s : Statement) (t : Tables) → IsCounted id t → IsCounted id (apply s t)
  unfolding apply queue_with_token inserted
  apply-IsCounted (Statement.insert_withdrawal w) t h =
      insert-Closed (uncounted id) id w t (λ other. rw other) h
  apply-IsCounted (Statement.update_withdrawal_chain_state x s now) t h =
      update_or_missing-Closed (uncounted id) id _ _ t (λ w. refl) (λ w c. c) h
  apply-IsCounted (Statement.manual_update_withdrawal_state x s y e reset now) t h =
      update_or_missing-Closed (uncounted id) id _ _ t (λ w. refl) (λ w c. c) h
  apply-IsCounted (Statement.record_withdrawal_attempt x s v y e now) t h =
      update-Closed (uncounted id) id _ _ t (λ w. refl) (λ w c. c) h
  apply-IsCounted (Statement.record_token_consumed x a fee now) t h =
      update-Closed (uncounted id) id _ _ t (λ w. refl) (λ w c. c) h
  apply-IsCounted (Statement.mark_withdrawal_transaction_counted x now) t h =
      update-Closed (uncounted id) id _ _ t (λ w. refl) (λ w c. ground arith) h
  apply-IsCounted (Statement.record_payment_request_token x y now) t h =
      update_or_missing-Closed (uncounted id) id _ _ t (λ w. refl) (λ w c. c) h
  apply-IsCounted (Statement.record_lightning_invoice_funded x a at) t h =
      update-Closed (uncounted id) id _ _ t (λ w. refl) (λ w c. c) h
  apply-IsCounted (Statement.mark_lightning_invoice_expired x now) t h =
      update-Closed (uncounted id) id _ _ t (λ w. refl) (λ w c. c) h
  apply-IsCounted (Statement.record_payment_request_token_locked scale x y a raw now) t h =
      locked_keeps (IsCounted id) scale x y a raw now t h
        (update-Closed (uncounted id) id _ _ t (λ w. refl) (λ w c. c) h)
  apply-IsCounted (Statement.delete_expired_sessions now) t h =
      update-Closed (uncounted id) id _ _ t (λ w. refl) (λ w c. c) h
  apply-IsCounted (Statement.claim_deposit_pickup x y now) t h =
      claim_keeps (IsCounted id) x y now t h (λ m. h)
  apply-IsCounted (Statement.insert_deposit d) t h = ground arith
  apply-IsCounted _ t h = ground arith

  pub marked-IsCounted :
      (now : ℕ) (t t' : Tables)
      → mark_withdrawal_transaction_counted id now t ≡ (ok true, t')
      → IsCounted id t'
  unfolding mark_withdrawal_transaction_counted
  marked-IsCounted now t t' e = subst (IsCounted id) (ap (λ r. r.1) e) (
      moved-Closed (uncounted id) id _ t (λ w. refl) (λ w e. ground arith) (λ w e. ground arith)
        (counted_one _ t.withdrawals (ap (λ r. r.0) e)))

  pub counted_refuses :
      (now : ℕ) (t : Tables)
      → IsCounted id t
      → mark_withdrawal_transaction_counted id now t ≡ (ok false, t)
  unfolding mark_withdrawal_transaction_counted
  counted_refuses now t h =
      rw (count_where-zero _ t.withdrawals h.1, update_where-none _ _ t.withdrawals h.1)

-- A withdrawal that was marked as counted is marked once: whatever statements run after it, marking
-- it again answers that it did nothing, and changes nothing.
pub count_once :
    (id : String) (now : ℕ) (t t' : Tables)
    → mark_withdrawal_transaction_counted id now t ≡ (ok true, t')
    → (history : List Statement) (later : ℕ)
    → mark_withdrawal_transaction_counted id later (run history t') ≡ (ok false, run history t')
count_once id now t t' e history later =
    counted_refuses id later (run history t')
      (run-keeps (IsCounted id) (apply-IsCounted id) history t' (marked-IsCounted id now t t' e))
