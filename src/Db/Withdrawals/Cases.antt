-- ===== src/Db/Withdrawals/Cases.antt =====
-- How `record_payment_request_token_locked` ends: a property of the tables holds after it if it
-- holds of the tables as they were, and of the tables with the row queued.
use shuestand.Prelude.{
  String, ℕ, ◌≤◌, ◌≡◌, ◌≢◌, some, arith, find_row, update_where, count_where, Option-cases, inl,
  inr,
}
use shuestand.Db.Tables.{Tables, Withdrawal, Result, ok, err, row_not_found}
use shuestand.Db.States.Withdrawal.{funding}
use shuestand.Db.Withdrawals.{
  has_id, is_funding, queue_with_token, record_locked_row, record_payment_request_token_locked,
  PaymentRequestRecordOutcome, recorded, cap_after, reserved_amount,
  reserved_onchain_withdrawal_sats,
}

abbrev pub queued_with : String → String → ℕ → Tables → Tables
queued_with id token now t = record t {
  withdrawals = update_where (is_funding id) (queue_with_token token now) t.withdrawals;
}

module _ {ℓ} (P : Tables → Type ℓ) (scale : ℕ → ℕ) (id token : String) (amount raw now : ℕ) where
  locked_row_keeps :
      (w : Withdrawal) (t : Tables)
      → P t
      → P (queued_with id token now t)
      → P (record_locked_row scale id token amount raw now w t).1
  unfolding record_locked_row
  locked_row_keeps w t h k = ground arith

  pub locked_keeps :
      (t : Tables)
      → P t
      → P (queued_with id token now t)
      → P (record_payment_request_token_locked scale id token amount raw now t).1
  unfolding record_payment_request_token_locked
  locked_keeps t h k = elim (Option-cases (find_row (has_id id) t.withdrawals)) [
    | inl e ↦ rw (e, record_payment_request_token_locked) h
    | inr (w, e) ↦ rw (e, record_payment_request_token_locked) (locked_row_keeps w t h k)
  ]

-- What a recorded payment request says of the tables before and after.
pub record Recorded (scale : ℕ → ℕ) (id token : String) (amount raw now : ℕ) (t t' : Tables)
    : Type 0 where
  pub row : Withdrawal
  pub found : find_row (has_id id) t.withdrawals ≡ some row
  pub was_funding : row.state ≡ funding
  pub within_cap :
      amount ≤ cap_after scale (reserved_onchain_withdrawal_sats t) (reserved_amount row) amount raw
  pub updates : count_where (is_funding id) t.withdrawals ≢ 0
  pub after : t' ≡ queued_with id token now t

locked_row-Recorded :
    (scale : ℕ → ℕ) (id token : String) (amount raw now : ℕ) (w : Withdrawal) (t t' : Tables)
    → find_row (has_id id) t.withdrawals ≡ some w
    → record_locked_row scale id token amount raw now w t ≡ (ok recorded, t')
    → Recorded scale id token amount raw now t t'
unfolding record_locked_row
locked_row-Recorded scale id token amount raw now w t t' f e = record {
  row = w;
  found = f;
  was_funding = ground arith;
  within_cap = ground arith;
  updates = ground arith;
  after = ground arith;
}

pub locked-Recorded :
    (scale : ℕ → ℕ) (id token : String) (amount raw now : ℕ) (t t' : Tables)
    → record_payment_request_token_locked scale id token amount raw now t ≡ (ok recorded, t')
    → Recorded scale id token amount raw now t t'
unfolding record_payment_request_token_locked
locked-Recorded scale id token amount raw now t t' e =
    elim (Option-cases (find_row (has_id id) t.withdrawals)) [
      | inl miss ↦
          let e' : ◌≡◌ {A = Result PaymentRequestRecordOutcome × Tables} (err row_not_found, t)
              (ok recorded, t') =
            rw (miss, record_payment_request_token_locked) at e in
          cc
      | inr (w, hit) ↦
          locked_row-Recorded scale id token amount raw now w t t' hit
            (rw (hit, record_payment_request_token_locked) at e)
    ]
