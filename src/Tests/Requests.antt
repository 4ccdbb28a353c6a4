-- ===== src/Tests/Requests.antt =====
-- The handlers of backend/src/http.rs that create rows, with a half as the ratio of the cap.
use shuestand.Prelude.{
  ℕ, ◌+◌, ◌/◌, ◌≤◌, ◌≡◌, refl, arith, none, some, [], true, false, select, sum_where, update_where,
  count_where, exists_row,
}
use shuestand.Failure.{pass, fail, refused_with, service_unavailable}
use shuestand.Operations.{OperationMode}
use shuestand.Db.Tables.{Deposit, Withdrawal}
use shuestand.Db.Addresses.{PoolAddress}
use shuestand.Db.Deposits.{
  expire_stale_pending_deposits, count_deposits_by_states, insert_deposit,
  reserved_cashu_deposit_sats,
}
use shuestand.Db.Withdrawals.{insert_withdrawal, reserved_onchain_withdrawal_sats}
use shuestand.Http.Site.{
  Site, Settings, require_normal, selected, session_of, detect_burst, alert_if, statement,
}
use shuestand.Http.Caps.{max_request_amount}
use shuestand.Http.Sessions.{resolve_session}
use shuestand.Run.{◌>>=◌}
use shuestand.Db.States.Deposit.{one_of}
use shuestand.Http.Deposits
use shuestand.Http.Deposits.Pool.{from_pool, from_pool-deposits}
use shuestand.AddressPool.{assign_address, ensure_capacity}
use shuestand.Db.Addresses.{
  fetch_available_address, claim_address, count_available_addresses, insert_address, new_row,
}
use shuestand.Prelude.{find_row, order_by, insert_by}
use shuestand.Http.Withdrawals
use shuestand.Http.Deposits.{
  DepositRequest, DepositAnswers, new_deposit, create_deposit, deposit_cap, below_burst,
  below_limits, assigned,
}
use shuestand.Http.Deposits.Created.{Created, current}
use shuestand.Http.Deposits.Laws.{create_deposit_answered, create_deposit_unreserved}
use shuestand.Http.Withdrawals.{
  WithdrawalRequest, WithdrawalAnswers, new_withdrawal, request_withdrawal, watch_burst, funded,
}
use shuestand.Http.Withdrawals.Laws.{
  Requested, request_withdrawal_answered, request_withdrawal_solvent,
}
use shuestand.Prelude.{◌-◌, ◌∷◌}
use shuestand.Db.States.Withdrawal as WithdrawalStates
use shuestand.Db.Tables.{Tables}
use shuestand.Tests.Data.{tables_of, some_withdrawal}

abbrev settings : Settings
settings = record {
  deposit_min_sats = 1000;
  withdrawal_min_sats = 500;
  withdrawal_fee_buffer_sats = 100;
  deposit_target_confirmations = 3;
  max_pending_deposits_per_session = 2;
  pending_deposit_ttl = 50;
  session_ttl = 1000;
  single_request_cap_ratio = λ n. n / 2;
  cashu_mint_url = some "https://mint";
  public_base_url = some "https://site";
  join = λ scope client session. client;
  trim = λ value. value;
}

abbrev site : OperationMode → Site
site mode = record {
  tables = tables_of [] [];
  operation_mode = mode;
  buckets = λ key. [];
  alerts = [];
  quotes = [];
}

abbrev pool_address : PoolAddress
pool_address = record { id = "ad_1"; address = "bc1qexample"; derivation_index = 7 }

abbrev deposits_answers : DepositAnswers
deposits_answers = record {
  balance = some (some 50000);
  assign_address = from_pool (λ i. some "bc1qexample") (λ d. "ad_1") 1 100 2 5 0;
  fresh_id = "dep_1";
  fresh_pickup_token = "pc_1";
}

abbrev deposit_request : DepositRequest
deposit_request = record { amount_sats = 20000; delivery_hint = none; metadata = none }

abbrev deposit_made : Deposit
deposit_made = new_deposit settings deposits_answers deposit_request none pool_address 100

deposit_runs :
    (create_deposit settings deposits_answers 100 none "client" deposit_request
      (site OperationMode.normal)).0
    ≡ pass deposit_made
unfolding create_deposit ◌>>=◌ require_normal Deposits.within_cap deposit_cap selected
    reserved_cashu_deposit_sats sum_where expire_stale_pending_deposits update_where session_of
    resolve_session below_burst detect_burst select below_limits count_deposits_by_states
    count_where insert_deposit assigned statement exists_row one_of assign_address
    fetch_available_address find_row order_by ensure_capacity count_available_addresses
    insert_address insert_by new_row claim_address
deposit_runs = refl

deposit_halts :
    (create_deposit settings deposits_answers 100 none "client" deposit_request
      (site OperationMode.halt)).0
    ≡ fail (refused_with service_unavailable)
unfolding create_deposit ◌>>=◌ require_normal
deposit_halts = refl

create_deposit_answered_example :
    Created settings deposits_answers 100 none deposit_request
      (site OperationMode.normal)
      deposit_made
      (create_deposit settings deposits_answers 100 none "client" deposit_request
        (site OperationMode.normal)).1
create_deposit_answered_example =
    create_deposit_answered settings deposits_answers 100
      (from_pool-deposits (λ i. some "bc1qexample") (λ d. "ad_1") 1 100 2 5 0)
      (site OperationMode.normal) none "client" deposit_request deposit_made deposit_runs

create_deposit_unreserved_example :
    reserved_cashu_deposit_sats
      (create_deposit settings deposits_answers 100 none "client" deposit_request
        (site OperationMode.normal)).1.tables
    ≡ reserved_cashu_deposit_sats (current settings 100 (site OperationMode.normal).tables)
create_deposit_unreserved_example =
    create_deposit_unreserved settings deposits_answers 100
      (from_pool-deposits (λ i. some "bc1qexample") (λ d. "ad_1") 1 100 2 5 0)
      (site OperationMode.normal) none "client" deposit_request deposit_made deposit_runs

abbrev answers : WithdrawalAnswers
answers = record {
  balance = some (some 50000);
  token_mint_url = λ token. some "https://other";
  token_total_amount = λ token. some 20500;
  encode = λ id amount mint url target. some "creq";
  has_wallet = true;
  mint_quote = λ amount. none;
  fresh_id = "wd_1";
  fresh_payment_id = "pr_1";
}

abbrev request : WithdrawalRequest
request = record {
  amount_sats = 20000;
  delivery_address = "bc1qpayee";
  max_fee_sats = none;
  token = some "cashuA";
  create_payment_request = false;
  create_lightning_invoice = false;
}

abbrev withdrawal_made : Withdrawal
withdrawal_made = new_withdrawal (λ value. value) "wd_1" request (some "cashuA") none 100

withdrawal_runs :
    (request_withdrawal settings answers 100 none "client" request (site OperationMode.normal)).0
    ≡ pass withdrawal_made
unfolding request_withdrawal ◌>>=◌ require_normal session_of resolve_session watch_burst
    detect_burst select alert_if Withdrawals.within_cap selected reserved_onchain_withdrawal_sats
    sum_where max_request_amount funded insert_withdrawal statement exists_row
withdrawal_runs = refl

withdrawal_halts :
    (request_withdrawal settings answers 100 none "client" request (site OperationMode.drain)).0
    ≡ fail (refused_with service_unavailable)
unfolding request_withdrawal ◌>>=◌ require_normal
withdrawal_halts = refl

request_withdrawal_answered_example :
    Requested settings answers request
      (site OperationMode.normal)
      withdrawal_made
      (request_withdrawal settings answers 100 none "client" request (site OperationMode.normal)).1
request_withdrawal_answered_example =
    request_withdrawal_answered settings answers 100 (site OperationMode.normal) none "client"
      request withdrawal_made withdrawal_runs

-- Another request has stored its row before this one does.
abbrev taken : Tables
taken = tables_of [] (record (some_withdrawal WithdrawalStates.queued 30000) { id = "wd_0" } ∷ [])

abbrev taken_after : Tables
unfolding insert_withdrawal exists_row
taken_after = (insert_withdrawal withdrawal_made taken).1

request_withdrawal_solvent_example :
    (raw : ℕ) × (answers.balance ≡ some (some raw))
    × (reserved_onchain_withdrawal_sats taken_after
        ≡ reserved_onchain_withdrawal_sats taken + 20000)
    × (reserved_onchain_withdrawal_sats taken_after
        ≤ raw
          + (reserved_onchain_withdrawal_sats taken
              - reserved_onchain_withdrawal_sats (site OperationMode.normal).tables))
unfolding insert_withdrawal exists_row taken_after
request_withdrawal_solvent_example =
    request_withdrawal_solvent settings answers 100 (site OperationMode.normal) none "client"
      request (λ n. omega arith) withdrawal_made withdrawal_runs taken taken_after refl
