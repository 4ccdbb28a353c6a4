-- ===== src/Db/Tables.antt =====
-- backend/src/db.rs and backend/migrations: the rows of each table, and the errors of a statement.
-- Timestamps are nanoseconds; their order agrees with that of the RFC 3339 texts in the columns. Amounts are satoshis below 2 ^ 63, where the casts to and from BIGINT change nothing.
-- A state column holds the text of its state, which decodes to it (States).
use shuestand.Prelude.{String, ℕ, Option, List, Bool}
use shuestand.Db.States.Deposit.{DepositState}
use shuestand.Db.States.Withdrawal.{WithdrawalState}
use shuestand.Db.States.Address.{AddressState}

abbrev pub second : ℕ
second = 1000000000

pub record Deposit : Type 0 where
  pub id : String
  pub amount_sats : ℕ
  pub received_sats : ℕ
  pub state : DepositState
  pub address : String
  pub target_confirmations : ℕ
  pub delivery_hint : Option String
  pub metadata : Option String
  pub txid : Option String
  pub confirmations : ℕ
  pub last_checked_at : Option ℕ
  pub created_at : ℕ
  pub updated_at : ℕ
  pub minted_token : Option String
  pub session_id : Option String
  pub pickup_token : String
  pub pickup_revealed_at : Option ℕ
  pub minted_amount_sats : Option ℕ
  pub token_ready_at : Option ℕ
  pub mint_attempt_count : ℕ
  pub last_mint_attempt_at : Option ℕ
  pub mint_error : Option String
  pub delivery_attempt_count : ℕ
  pub last_delivery_attempt_at : Option ℕ
  pub delivery_error : Option String
  pub transaction_counted_at : Option ℕ

pub record Withdrawal : Type 0 where
  pub id : String
  pub state : WithdrawalState
  pub delivery_address : String
  pub max_fee_sats : Option ℕ
  pub requested_amount_sats : Option ℕ
  pub token_value_sats : Option ℕ
  pub token : Option String
  pub txid : Option String
  pub error : Option String
  pub last_attempt_at : Option ℕ
  pub attempt_count : ℕ
  pub created_at : ℕ
  pub updated_at : ℕ
  pub token_consumed : Bool
  pub session_id : Option String
  pub swap_fee_sats : Option ℕ
  pub payment_request_id : Option String
  pub payment_request_creq : Option String
  pub payment_request_expires_at : Option ℕ
  pub payment_request_fulfilled_at : Option ℕ
  pub lightning_quote_id : Option String
  pub lightning_invoice_request : Option String
  pub lightning_invoice_expires_at : Option ℕ
  pub lightning_invoice_paid_at : Option ℕ
  pub transaction_counted_at : Option ℕ

-- A row of `addresses`.
pub record Address : Type 0 where
  pub id : String
  pub derivation_index : ℕ
  pub address : String
  pub state : AddressState
  pub deposit_id : Option String
  pub first_seen_txid : Option String
  pub confirmations : ℕ
  pub last_checked_at : Option ℕ
  pub created_at : ℕ
  pub updated_at : ℕ

pub record Session : Type 0 where
  pub id : String
  pub token_hash : String
  pub created_at : ℕ
  pub last_seen_at : ℕ
  pub expires_at : ℕ

-- A row of `deposit_claims`, whose key is `deposit_id`.
pub record Claim : Type 0 where
  pub deposit_id : String
  pub minted_token : String

pub record SecurityEvent : Type 0 where
  pub kind : String
  pub created_at : ℕ

-- `operation_mode` and `transaction_counter` are the two keys of `app_settings` that the program
-- uses; the counter's decimal text is read as its number.
pub record Tables : Type 0 where
  pub deposits : List Deposit
  pub withdrawals : List Withdrawal
  pub addresses : List Address
  pub deposit_claims : List Claim
  pub sessions : List Session
  pub security_events : List SecurityEvent
  pub operation_mode : Option String
  pub transaction_counter : Option ℕ

pub data DbError : Type 0 where
  row_not_found unique_violation unavailable : DbError

pub data Result {ℓ} (A : Type ℓ) : Type ℓ where
  ok : A → Result A
  err : DbError → Result A
