-- ===== src/Tests/Db.antt =====
-- The statements of the database at fixed inputs.
use shuestand.Prelude.{
  ◌↔◌, ◌≡◌, refl, none, some, List, [], ◌∷◌, true, false, find_row, update_where, count_where,
  sum_where, arith, exists_row,
}
use shuestand.Prelude.{◌≤◌, ◌<◌, ◌*◌, ◌-◌, ◌+◌}
use shuestand.Db.States
use shuestand.Db.States.Deposit.{ready}
use shuestand.Db.States.Withdrawal.{funding, queued}
use shuestand.Db.Tables.{Tables, ok, err, row_not_found}
use shuestand.Db.Deposits.{claim_deposit_pickup, claim_row}
use shuestand.Db.Withdrawals.{
  reserved_onchain_withdrawal_sats, record_payment_request_token,
  record_payment_request_token_locked, record_locked_row, queue_with_token,
  mark_withdrawal_transaction_counted, cap_after, capacity_exceeded,
}
use shuestand.Db.Statements.{Statement, run}
use shuestand.Db.Claims.{claim_once, Claimable, claim_iff}
use shuestand.Db.Funding.{Funds, FundsNoMore, fund_once}
use shuestand.Http.Caps.{half, share, max_request_amount, admitted_then_refused}
use shuestand.Db.Allocation.{claim_address_once}
use shuestand.Db.Addresses.{claim_address, allocate}
use shuestand.Tests.Data.{some_deposit, some_withdrawal, some_address, tables_of}

abbrev pickup : Tables
pickup = tables_of (some_deposit ready (some "cashuB") ∷ []) []

abbrev meddling : List Statement
meddling =
    Statement.manual_update_deposit_state "dep_1" ready none true 300
    ∷ Statement.record_mint_success "dep_1" "cashuC" 60000 ready 310
    ∷ []

abbrev picked_up : Tables
unfolding claim_deposit_pickup find_row claim_row exists_row
picked_up = (claim_deposit_pickup "dep_1" "pc_1" 200 pickup).1

claim_once_example :
    claim_deposit_pickup "dep_1" "claimed-dep_1" 400 (run meddling picked_up)
    ≡ (err row_not_found, run meddling picked_up)
unfolding claim_deposit_pickup find_row claim_row exists_row
claim_once_example =
    claim_once "dep_1" "pc_1" "cashuB" 200 pickup picked_up refl meddling "claimed-dep_1" 400

claim_iff_example :
    ((claim_deposit_pickup "dep_1" "pc_1" 200 pickup).0 ≡ ok "cashuB")
    ↔ Claimable "dep_1" "pc_1" "cashuB" pickup
claim_iff_example = claim_iff "dep_1" "pc_1" "cashuB" 200 pickup

abbrev requested : Tables
requested = tables_of [] (some_withdrawal funding 60000 ∷ [])

abbrev funded : Tables
unfolding record_payment_request_token count_where update_where queue_with_token
funded = (record_payment_request_token "wd_1" "cashuA" 200 requested).1

abbrev later_updates : List Statement
later_updates =
    Statement.record_token_consumed "wd_1" 58000 (some 2000) 210
    ∷ Statement.mark_withdrawal_transaction_counted "wd_1" 220
    ∷ []

fund_once_example : FundsNoMore "wd_1" (run later_updates funded)
unfolding funded record_payment_request_token count_where update_where queue_with_token
fund_once_example =
    fund_once "wd_1" requested funded (Funds.by_token "cashuA" 200 refl) later_updates

-- The token of the request is worth 50 000, of a balance of 200 000.
abbrev locked : Tables
unfolding record_payment_request_token_locked record_locked_row cap_after queue_with_token find_row
    count_where update_where sum_where reserved_onchain_withdrawal_sats States.Withdrawal.one_of
locked = (record_payment_request_token_locked half "wd_1" "cashuA" 50000 200000 200 requested).1

-- At the default ratio, of 0.5.
admitted_then_refused_example :
    ((60000
        ≤ max_request_amount
            (share 1 2)
            130000
            (reserved_onchain_withdrawal_sats requested - 60000))
      ↔ (2 * 60000 ≤ 1 * (130000 - (reserved_onchain_withdrawal_sats requested - 60000))))
    × ((record_payment_request_token_locked (share 1 2) "wd_1" "cashuA" 60000 130000 200 requested
          ≡ (ok capacity_exceeded, requested))
        ↔ (1 * (130000 - (reserved_onchain_withdrawal_sats requested - 60000)) < (1 + 2) * 60000))
unfolding find_row sum_where reserved_onchain_withdrawal_sats States.Withdrawal.one_of
admitted_then_refused_example =
    admitted_then_refused 1 2 "wd_1" "cashuA" 60000 130000 200 requested
      (some_withdrawal funding 60000) (omega arith) (omega arith) refl refl refl (omega arith)

abbrev marked : Tables
unfolding mark_withdrawal_transaction_counted count_where update_where
marked = (mark_withdrawal_transaction_counted "wd_1" 300 requested).1

abbrev pool : Tables
pool = record (tables_of [] []) { addresses = some_address ∷ [] }

abbrev given : Tables
unfolding claim_address count_where update_where allocate
given = (claim_address "ad_1" "dep_1" 300 pool).1

abbrev observations : List Statement
observations = Statement.update_address_observation "dep_1" "txid" 2 310 ∷ []

claim_address_once_example :
    claim_address "ad_1" "dep_2" 400 (run observations given) ≡ (ok false, run observations given)
unfolding given claim_address count_where update_where allocate
claim_address_once_example =
    claim_address_once "ad_1" "dep_1" 300 pool given refl observations "dep_2" 400
