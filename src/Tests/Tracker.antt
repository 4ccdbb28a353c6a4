-- ===== src/Tests/Tracker.antt =====
-- The trackers at fixed inputs.
use shuestand.Prelude.{◌≡◌, refl, none, some, [], ◌∷◌, true, find_row}
use shuestand.Db.Tables.{Deposit}
use shuestand.Db.States.Deposit.{pending}
use shuestand.Db.Deposits.{has_id}
use shuestand.Runtime.{World}
use shuestand.Tracker.{ObservedTx, credit}
use shuestand.Tracker.Credit.{Credited, credit_exact}
use shuestand.Prelude.{String, ◌≢◌, ◌≤◌, count_where}
use shuestand.Db.States.Withdrawal.{broadcasting, settled}
use shuestand.Tracker.{WalletStatus, TxStatus, confirmed, process_withdrawal_settlements}
use shuestand.Tracker.Settlement.{is_settled, unconfirmed_settles_none}
use shuestand.Tests.Data.{some_withdrawal, some_deposit, tables_of, world_of}

abbrev awaited : Deposit
awaited = some_deposit pending none

abbrev watching : World
watching = world_of (tables_of (awaited ∷ []) []) []

abbrev deep : ObservedTx
deep = record {
  txid = "tx_a";
  received_sats = 40000;
  confirmed = true;
  block_height = some 100;
  seen_at = some 200;
}

abbrev deeper : ObservedTx
deeper = record {
  txid = "tx_b";
  received_sats = 25000;
  confirmed = true;
  block_height = some 98;
  seen_at = some 150;
}

credit_exact_example :
    (after : Deposit) × (find_row
        (has_id "dep_1")
        (credit 102 300 awaited (deep ∷ deeper ∷ []) watching).1.tables.deposits
      ≡ some after)
    × Credited 102 awaited (deep ∷ deeper ∷ []) after
unfolding find_row
credit_exact_example = credit_exact 102 300 awaited deep (deeper ∷ []) watching refl refl

abbrev in_flight : World
in_flight =
    world_of
      (tables_of [] (record (some_withdrawal broadcasting 60000) { txid = some "tx_w" } ∷ [])) []

-- A wallet that sees every transaction in the mempool.
abbrev seen : WalletStatus
seen txid = some (some TxStatus.pending)

pending_only : (txid : String) → seen txid ≢ some (some confirmed)
pending_only txid e = cc

-- One withdrawal was settled before.
abbrev also_settled : World
also_settled = record in_flight {
  tables = record in_flight.tables {
    withdrawals =
        record (some_withdrawal settled 60000) { id = "wd_0" } ∷ in_flight.tables.withdrawals;
  };
}

unconfirmed_settles_none_example :
    let after = (process_withdrawal_settlements seen true 300 also_settled).1 in
    (after.posts ≡ [])
    × (count_where (is_settled "wd_1") after.tables.withdrawals
        ≤ count_where (is_settled "wd_1") also_settled.tables.withdrawals)
unconfirmed_settles_none_example =
    unconfirmed_settles_none seen true 300 also_settled "wd_1" pending_only
