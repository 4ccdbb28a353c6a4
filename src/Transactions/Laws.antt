-- ===== src/Transactions/Laws.antt =====
-- backend/src/transactions.rs: what counting a transaction leaves alone.
use shuestand.Prelude.{String, ℕ, ◌≡◌, refl, ◌∙◌, Bool, true, false}
use shuestand.Failure.{Checked, pass, fail}
use shuestand.Db.Settings.{increment_transaction_counter}
use shuestand.Runtime.{World}
use shuestand.Runtime.Laws.{call-SameEffects}
use shuestand.Transactions.{TransactionKind, mark, counted, marked, record_transaction, notify}

counted-payouts :
    (kind : TransactionKind) (id : String) (r : Checked ℕ) (s : World)
    → (counted kind id r s).1.payouts ≡ s.payouts
unfolding counted
counted-payouts kind id (fail e) s = refl
counted-payouts kind id (pass n) s = refl

marked-payouts :
    (kind : TransactionKind) (id : String) (r : Checked Bool) (s : World)
    → (marked kind id r s).1.payouts ≡ s.payouts
unfolding marked
marked-payouts kind id (fail e) s = refl
marked-payouts kind id (pass false) s = refl
marked-payouts kind id (pass true) s =
    counted-payouts kind id _ _ ∙ (call-SameEffects increment_transaction_counter s).payouts

pub notify-payouts :
    (notifies : Bool) (kind : TransactionKind) (id : String) (now : ℕ) (s : World)
    → (notify notifies kind id now s).1.payouts ≡ s.payouts
unfolding notify record_transaction
notify-payouts false kind id now s = refl
notify-payouts true kind id now s =
    marked-payouts kind id _ _ ∙ (call-SameEffects (mark kind id now) s).payouts
