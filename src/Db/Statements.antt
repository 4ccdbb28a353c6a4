-- ===== src/Db/Statements.antt =====
-- backend/src/db.rs: every statement that changes the tables, as data, so that a history of the
-- database is a list of them in the order in which the server commits them.
use shuestand.Prelude.{String, ℕ, Option, Bool, List, [], ◌∷◌}
use shuestand.Operations.{OperationMode}
use shuestand.Db.States.Deposit.{DepositState}
use shuestand.Db.States.Withdrawal.{
  WithdrawalState, queued, broadcasting, confirming, settled, failed, archived_by_operator,
}
use shuestand.Db.Tables.{Deposit, Withdrawal, Session, Tables}
use shuestand.Db.Addresses.{NewAddress}
use shuestand.Db.Deposits
use shuestand.Db.Withdrawals
use shuestand.Db.Addresses
use shuestand.Db.Settings

-- The states that a caller moves a withdrawal to: none of them is `funding`.
pub data Onward : Type 0 where
  to_queued to_broadcasting to_confirming to_settled to_failed to_archived : Onward

abbrev pub onward : Onward → WithdrawalState
onward to_queued = queued
onward to_broadcasting = broadcasting
onward to_confirming = confirming
onward to_settled = settled
onward to_failed = failed
onward to_archived = archived_by_operator

pub data Statement : Type 0 where
  insert_deposit : Deposit → Statement
  update_deposit_chain_state : String → String → ℕ → ℕ → ℕ → DepositState → ℕ → Statement
  manual_update_deposit_state : String → DepositState → Option String → Bool → ℕ → Statement
  expire_stale_pending_deposits : ℕ → ℕ → Statement
  record_mint_success : String → String → ℕ → DepositState → ℕ → Statement
  record_mint_failure : String → DepositState → String → ℕ → Statement
  record_delivery_success : String → DepositState → ℕ → Statement
  record_delivery_failure : String → DepositState → String → ℕ → Statement
  record_pickup_success : String → ℕ → Statement
  mark_deposit_transaction_counted : String → ℕ → Statement
  claim_deposit_pickup : String → String → ℕ → Statement
  insert_withdrawal : Withdrawal → Statement
  update_withdrawal_chain_state : String → Onward → ℕ → Statement
  manual_update_withdrawal_state :
      String → Onward → Option String → Option String → Bool → ℕ → Statement
  record_withdrawal_attempt :
      String → Onward → Option ℕ → Option String → Option String → ℕ → Statement
  record_token_consumed : String → ℕ → Option ℕ → ℕ → Statement
  mark_withdrawal_transaction_counted : String → ℕ → Statement
  record_payment_request_token : String → String → ℕ → Statement
  record_lightning_invoice_funded : String → ℕ → ℕ → Statement
  mark_lightning_invoice_expired : String → ℕ → Statement
  record_payment_request_token_locked : (ℕ → ℕ) → String → String → ℕ → ℕ → ℕ → Statement
  insert_address : NewAddress → Statement
  claim_address : String → String → ℕ → Statement
  update_address_observation : String → String → ℕ → ℕ → Statement
  persist_operation_mode : OperationMode → Statement
  increment_transaction_counter : Statement
  create_session : Session → Statement
  touch_session : String → ℕ → ℕ → Statement
  delete_expired_sessions : ℕ → Statement
  record_security_event : String → ℕ → Statement

unfoldable pub apply : Statement → Tables → Tables
unfolding Deposits.insert_deposit Deposits.update_deposit_chain_state
    Deposits.manual_update_deposit_state Deposits.expire_stale_pending_deposits
    Deposits.record_mint_success Deposits.record_mint_failure Deposits.record_delivery_success
    Deposits.record_delivery_failure Deposits.record_pickup_success
    Deposits.mark_deposit_transaction_counted Withdrawals.insert_withdrawal
    Withdrawals.update_withdrawal_chain_state Withdrawals.manual_update_withdrawal_state
    Withdrawals.record_withdrawal_attempt Withdrawals.record_token_consumed
    Withdrawals.mark_withdrawal_transaction_counted Withdrawals.record_payment_request_token
    Withdrawals.record_lightning_invoice_funded Withdrawals.mark_lightning_invoice_expired
    Withdrawals.record_payment_request_token_locked Addresses.insert_address Addresses.claim_address
    Addresses.update_address_observation Settings.persist_operation_mode
    Settings.increment_transaction_counter Settings.create_session Settings.touch_session
    Settings.delete_expired_sessions Settings.record_security_event
apply (insert_deposit d) t = (Deposits.insert_deposit d t).1
apply (update_deposit_chain_state id x r c n s now) t =
    (Deposits.update_deposit_chain_state id x r c n s now t).1
apply (manual_update_deposit_state id s note clear now) t =
    (Deposits.manual_update_deposit_state id s note clear now t).1
apply (expire_stale_pending_deposits cutoff now) t =
    (Deposits.expire_stale_pending_deposits cutoff now t).1
apply (record_mint_success id x a s now) t = (Deposits.record_mint_success id x a s now t).1
apply (record_mint_failure id s e now) t = (Deposits.record_mint_failure id s e now t).1
apply (record_delivery_success id s now) t = (Deposits.record_delivery_success id s now t).1
apply (record_delivery_failure id s e now) t = (Deposits.record_delivery_failure id s e now t).1
apply (record_pickup_success id now) t = (Deposits.record_pickup_success id now t).1
apply (mark_deposit_transaction_counted id now) t =
    (Deposits.mark_deposit_transaction_counted id now t).1
apply (claim_deposit_pickup id x now) t = (Deposits.claim_deposit_pickup id x now t).1
apply (insert_withdrawal w) t = (Withdrawals.insert_withdrawal w t).1
apply (update_withdrawal_chain_state id s now) t =
    (Withdrawals.update_withdrawal_chain_state id (onward s) now t).1
apply (manual_update_withdrawal_state id s x e reset now) t =
    (Withdrawals.manual_update_withdrawal_state id (onward s) x e reset now t).1
apply (record_withdrawal_attempt id s v x e now) t =
    (Withdrawals.record_withdrawal_attempt id (onward s) v x e now t).1
apply (record_token_consumed id a fee now) t = (Withdrawals.record_token_consumed id a fee now t).1
apply (mark_withdrawal_transaction_counted id now) t =
    (Withdrawals.mark_withdrawal_transaction_counted id now t).1
apply (record_payment_request_token id x now) t =
    (Withdrawals.record_payment_request_token id x now t).1
apply (record_lightning_invoice_funded id a at) t =
    (Withdrawals.record_lightning_invoice_funded id a at t).1
apply (mark_lightning_invoice_expired id now) t =
    (Withdrawals.mark_lightning_invoice_expired id now t).1
apply (record_payment_request_token_locked scale id x a raw now) t =
    (Withdrawals.record_payment_request_token_locked scale id x a raw now t).1
apply (insert_address a) t = (Addresses.insert_address a t).1
apply (claim_address id d now) t = (Addresses.claim_address id d now t).1
apply (update_address_observation d x n now) t =
    (Addresses.update_address_observation d x n now t).1
apply (persist_operation_mode m) t = (Settings.persist_operation_mode m t).1
apply increment_transaction_counter t = (Settings.increment_transaction_counter t).1
apply (create_session s) t = (Settings.create_session s t).1
apply (touch_session id seen expires) t = (Settings.touch_session id seen expires t).1
apply (delete_expired_sessions now) t = (Settings.delete_expired_sessions now t).1
apply (record_security_event kind now) t = (Settings.record_security_event kind now t).1

unfoldable pub run : List Statement → Tables → Tables
run [] t = t
run (s ∷ ss) t = run ss (apply s t)

-- What every statement keeps, every history keeps.
pub run-keeps {ℓ} :
    (P : Tables → Type ℓ)
    → ((s : Statement) (t : Tables) → P t → P (apply s t))
    → (ss : List Statement) (t : Tables) → P t
    → P (run ss t)
unfolding run
run-keeps P keep [] t h = h
run-keeps P keep (s ∷ ss) t h = run-keeps P keep ss (apply s t) (keep s t h)
