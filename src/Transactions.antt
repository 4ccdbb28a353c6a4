-- ===== src/Transactions.antt =====
-- backend/src/transactions.rs: the notifier that counts a finished deposit or withdrawal once, and
-- posts the counter to the operator's webhook. `record` never fails: its errors are logged and
-- dropped, and so is the answer to the POST, which has the clock's time besides what is kept here.
pub mod Laws
pub mod Once
use shuestand.Prelude.{String, ℕ, Option, none, some, Bool, true, false, ◌∷◌}
use shuestand.Failure.{Checked, pass, fail}
use shuestand.Runtime.{World, Exec, CounterEvent, pure, ◌>>=◌, ◌>>◌, call}
use shuestand.Db.Tables.{Tables, Result}
use shuestand.Db.Deposits.{mark_deposit_transaction_counted}
use shuestand.Db.Withdrawals.{mark_withdrawal_transaction_counted}
use shuestand.Db.Settings.{increment_transaction_counter}

pub data TransactionKind : Type 0 where
  deposit_fulfilled withdrawal_settled : TransactionKind

unfoldable pub as_str : TransactionKind → String
as_str deposit_fulfilled = "deposit"
as_str withdrawal_settled = "withdrawal"

unfoldable pub mark : TransactionKind → String → ℕ → Tables → Result Bool × Tables
mark deposit_fulfilled id now = mark_deposit_transaction_counted id now
mark withdrawal_settled id now = mark_withdrawal_transaction_counted id now

unfoldable pub post : TransactionKind → String → ℕ → Exec (Unit {0})
post kind id counter w = (pass tt, record w { posts = event ∷ w.posts })
  where
    event : CounterEvent
    event = record { counter = counter; kind = as_str kind; entity_id = id }

-- After the counter's increment.
unfoldable pub counted : TransactionKind → String → Checked ℕ → Exec (Unit {0})
unfolding post pure
counted kind id (fail e) = pure tt
counted kind id (pass counter) = post kind id counter

-- After the row's mark.
unfoldable pub marked : TransactionKind → String → Checked Bool → Exec (Unit {0})
unfolding counted pure
marked kind id (fail e) = pure tt
marked kind id (pass false) = pure tt
marked kind id (pass true) =
    λ w. let (r, w') = call increment_transaction_counter w in counted kind id r w'

unfoldable pub record_transaction : TransactionKind → String → ℕ → Exec (Unit {0})
unfolding marked
record_transaction kind id now w = let (r, w') = call (mark kind id now) w in marked kind id r w'

-- `record_deposit` and `record_withdrawal`, of a notifier that is there or not.
unfoldable pub notify : Bool → TransactionKind → String → ℕ → Exec (Unit {0})
unfolding pure
notify false kind id now = pure tt
notify true kind id now = record_transaction kind id now
