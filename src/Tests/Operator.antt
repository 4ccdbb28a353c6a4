-- ===== src/Tests/Operator.antt =====
-- Operators' commands at fixed inputs.
use shuestand.Prelude.{◌≡◌, refl, none, some, List, [], ◌∷◌, true, find_row}
use shuestand.Db.Tables.{Tables, ok}
use shuestand.Db.States.Withdrawal.{settled}
use shuestand.Db.Withdrawals.{fetch_withdrawal}
use shuestand.Http.Operator.{WithdrawalActionKind}
use shuestand.Http.Operator.Final.{WithdrawalCommand, command_withdrawals, settled_final}
use shuestand.Tests.Data.{some_withdrawal, tables_of}

abbrev settled_row : Tables
settled_row = tables_of [] (some_withdrawal settled 60000 ∷ [])

abbrev commands : List WithdrawalCommand
commands =
    record {
      authorized = true;
      action = WithdrawalActionKind.mark_failed;
      remark = some "lost";
      txid = none;
      id = "wd_1";
      now = 300;
    }
    ∷ record {
      authorized = true;
      action = WithdrawalActionKind.requeue;
      remark = none;
      txid = none;
      id = "wd_1";
      now = 310;
    }
    ∷ []

settled_final_example :
    fetch_withdrawal "wd_1" (command_withdrawals (λ s. s) commands settled_row)
    ≡ ok (some_withdrawal settled 60000)
unfolding fetch_withdrawal find_row
settled_final_example =
    settled_final (λ s. s) commands "wd_1" settled_row (some_withdrawal settled 60000) refl refl
