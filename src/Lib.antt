-- ===== src/Lib.antt =====
-- A custodial service that takes bitcoin deposits and hands out Cashu ecash for them, and takes
-- ecash or Lightning payments and pays out on chain. The backend (backend/src) keeps everything
-- in one Postgres database. HTTP handlers write rows; a deposit worker and a withdrawal worker
-- poll the rows by state, call mints and wallets, and write what became of them; a notifier
-- counts what is finished.
--
-- - Prelude: numbers, Boolean tests, lists and options, and Prelude/Rows, the SQL verbs on lists
--   of rows with their laws, Prelude/Text, texts as lists of characters with the functions of
--   Rust's str, and Prelude/Int, differences of amounts.
-- - Config: backend/src/config.rs, from_env; Config/Laws is about its numbers.
-- - Operations: backend/src/operations.rs, the mode the operator sets.
-- - Db: backend/src/db.rs. Db/Tables holds the rows and the database as one record of lists;
--   Db/States the state columns with their text; Db/Deposits, Db/Withdrawals, Db/Addresses and
--   Db/Settings one function for each statement, under its name in the source, from the tables
--   to a result and the tables after it. Db/Statements lists every statement that writes, so
--   that a history is a list of them. Db/Stats has the transactions counted in a window, and
--   Db/Ledger the two views of what is owed. Db/Claims, Db/Funding, Db/Allocation and
--   Db/Counting are about single statements over every history.
-- - Failure and Redemption: backend/src/wallet/swap.rs (validate_conversion_amount) and
--   backend/src/workers/withdrawal.rs (validate_redemption).
-- - Runtime: what the workers act on. A world is the tables, how each call of the database to
--   come will go (answered, lost before the server acts, or answered with the reply lost), and
--   logs of the effects outside. An action is a function from a world to an answer or an error,
--   and the next world; an error does not undo what was done. Runtime/Meets has the rules by
--   which invariants pass through actions.
-- - Transactions: backend/src/transactions.rs, the notifier.
-- - Workers: backend/src/workers/withdrawal.rs (Workers/Withdrawal, and Workers/Funding for
--   tick_funding and run) and backend/src/workers/deposit.rs (Workers/Deposit).
-- - Run and Wallet: backend/src/wallet/swap.rs (Wallet/Swap, and Wallet/Proofs for
--   received_proofs and require_unspent), and the redeemer of backend/src/workers/withdrawal.rs
--   (redeem in Wallet/Swap, with Wallet/Redeem). Run is the action that these share, on a
--   journal of the calls so far, the receipts and the melts; Run/Holds has its rules of pre- and
--   postconditions.
-- - Recovery: backend/src/bin/m5_recover.rs, the rounds of execute (Recovery, with
--   Recovery/Budget and Recovery/Loss), and classify, states and verify_state_response
--   (Recovery/States).
-- - AddressPool: backend/src/address.rs.
-- - Tracker: backend/src/main.rs, process_confirmations and process_withdrawal_settlements.
-- - Http: backend/src/http.rs, create_deposit (Http/Deposits), request_withdrawal
--   (Http/Withdrawals) and submit_payment_request (Http/Payments) on what they share (Http/Site:
--   the database, the mode, the buckets of detect_burst, the alerts),
--   maybe_auto_switch_operation_mode with set_operation_mode of backend/src/main.rs
--   (Http/Escalation), the history behind detect_burst (Http/Bursts), the cap of
--   request_withdrawal (Http/Caps), operate_deposit and operate_withdrawal (Http/Operator),
--   resolve_session_from_headers, get_deposit and get_withdrawal (Http/Sessions), pickup_deposit
--   (Http/Pickup), tokens and claim codes (Http/Codes), start_session and resume_session
--   (Http/Start), request_client_hint and client_subnet_hint (Http/Client),
--   require_operator_token with the handlers of the mode and the counter (Http/Access),
--   get_transaction_stats (Http/Stats), and get_ledger_snapshot and get_float_status
--   (Http/Ledger).
-- - Monitor: backend/src/main.rs, monitor_float_levels, with what it posts (Monitor/Alerts) and
--   when it drains (Monitor/Drain).
-- - Tests: rows for tests, and each theorem at an input.
--
-- Parameters: the mints and wallets (Runtime.Externals, Tracker.ChainSource, Wallet.Mints,
-- Recovery.Venues), those of the workers, the swap and the recovery functions of the calls so
-- far, and so free to change their answers; the derivation of addresses and the fresh ids of
-- AddressPool; the pool as create_deposit sees it, which Http/Deposits/Pool fills with
-- AddressPool; the ratio of the request cap, as a function on amounts rounded down, in place of
-- floating point; the floating-point numbers of Config and Monitor (Floats, Ratios); the hash of
-- a session's token, what its generators draw, and the keys of the buckets; the answers of the
-- wallets to the ledger and the monitor, and what other tasks do while the monitor stores the
-- mode.
--
-- Bounds: the columns are natural numbers; attempt counts wrap at 2 ^ 32 where the code adds to a
-- u32, and the reserved sum is cut at 2 ^ 64 - 1 where the code saturates. A deposit index stays
-- below 2 ^ 31. The time is a number of nanoseconds, passed in. The loops of AddressPool take
-- fuel: for ensure_capacity, one more than the target and the number of rows, a round for each
-- address that is inserted or found taken; assign_address is given its rounds, of which two are
-- enough (AddressPool/Assignment). The swap tries 33 invoices and polls 30 times, and the
-- recovery runs 8 rounds of 16 quotes and 30 polls, as the code does. All other loops run over
-- the rows of one SELECT.
--
-- Not modelled: log lines and metrics; SQL plumbing and decoding of rows; the rest of the HTTP
-- interface; startup in backend/src/main.rs; the handles of wallets; the files, digests and
-- wallet queries of the recovery tool; the command-line tools; the fee estimator. Calls of the
-- database inside AddressPool and Http are always answered. An UPDATE and its guard are one step;
-- what a concurrent request does between two statements of a history theorem is a statement of
-- that history. A handler of Http runs as one step, with no other request in between; its
-- theorems are of that undisturbed run, but for request_withdrawal, of which
-- Http/Withdrawals/Laws also says what storing the row later comes to.
mod Prelude
pub mod Operations
pub mod Config
pub mod Db
pub mod Failure
pub mod Redemption
pub mod Runtime
pub mod Run
pub mod Wallet
pub mod Recovery
pub mod Transactions
pub mod Workers
pub mod AddressPool
pub mod Tracker
pub mod Http
pub mod Monitor
mod Tests
