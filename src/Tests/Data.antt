-- ===== src/Tests/Data.antt =====
-- Rows and tables for the tests.
use shuestand.Prelude.{String, ℕ, Option, none, some, List, [], false}
use shuestand.Db.States.Deposit.{DepositState}
use shuestand.Db.States.Withdrawal.{WithdrawalState}
use shuestand.Db.States.Address.{available}
use shuestand.Db.Tables.{Deposit, Withdrawal, Address, Tables}
use shuestand.Runtime.{World, Link, Externals, paid}
use mathlib.Core.Bool.{true}

abbrev pub some_deposit : DepositState → Option String → Deposit
some_deposit state minted = record {
  id = "dep_1";
  amount_sats = 60000;
  received_sats = 60000;
  state = state;
  address = "bc1qexample";
  target_confirmations = 3;
  delivery_hint = none;
  metadata = none;
  txid = none;
  confirmations = 0;
  last_checked_at = none;
  created_at = 100;
  updated_at = 100;
  minted_token = minted;
  session_id = none;
  pickup_token = "pc_1";
  pickup_revealed_at = none;
  minted_amount_sats = none;
  token_ready_at = none;
  mint_attempt_count = 0;
  last_mint_attempt_at = none;
  mint_error = none;
  delivery_attempt_count = 0;
  last_delivery_attempt_at = none;
  delivery_error = none;
  transaction_counted_at = none;
}

abbrev pub some_withdrawal : WithdrawalState → ℕ → Withdrawal
some_withdrawal state requested = record {
  id = "wd_1";
  state = state;
  delivery_address = "bc1qpayee";
  max_fee_sats = none;
  requested_amount_sats = some requested;
  token_value_sats = none;
  token = some "cashuA";
  txid = none;
  error = none;
  last_attempt_at = none;
  attempt_count = 0;
  created_at = 100;
  updated_at = 100;
  token_consumed = false;
  session_id = none;
  swap_fee_sats = none;
  payment_request_id = none;
  payment_request_creq = none;
  payment_request_expires_at = none;
  payment_request_fulfilled_at = none;
  lightning_quote_id = none;
  lightning_invoice_request = none;
  lightning_invoice_expires_at = none;
  lightning_invoice_paid_at = none;
  transaction_counted_at = none;
}

abbrev pub some_address : Address
some_address = record {
  id = "ad_1";
  derivation_index = 7;
  address = "bc1qexample";
  state = available;
  deposit_id = none;
  first_seen_txid = none;
  confirmations = 0;
  last_checked_at = none;
  created_at = 100;
  updated_at = 100;
}

abbrev pub tables_of : List Deposit → List Withdrawal → Tables
tables_of deposits withdrawals = record {
  deposits = deposits;
  withdrawals = withdrawals;
  addresses = [];
  deposit_claims = [];
  sessions = [];
  security_events = [];
  operation_mode = none;
  transaction_counter = none;
}

abbrev pub world_of : Tables → List Link → World
world_of tables links = record {
  tables = tables;
  links = links;
  redemptions = [];
  mintings = [];
  quote_checks = 0;
  issued = [];
  payouts = [];
  posts = [];
}

-- A mint that redeems for 58 000 with a fee of 2 000, and a wallet that pays.
abbrev pub willing : Externals
willing = record {
  redeem = λ log token. some (record { amount_sats = 58000; swap_fee_sats = some 2000 });
  mint_token = λ log amount. some (record { amount_sats = amount; token = "cashuB" });
  check_quote = λ n log id. some (record { state = paid; amount_issued = 0; amount_paid = 0 });
  mint_quote = λ log id. true;
  describe = λ e. "failed";
  send_to_address = λ log p. some "txid";
}
