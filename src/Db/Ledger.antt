-- ===== src/Db/Ledger.antt =====
-- backend/src/db.rs and backend/migrations: what is owed, by the state of its row. The two views
-- group the rows of a table that are not closed, with their number and their sum.
use shuestand.Prelude.{String, ℕ, ◌+◌, List, [], ◌∷◌, Bool, not, str_eq, if◌then◌else◌}
use shuestand.Db.States.Deposit as DepositStates
use shuestand.Db.States.Withdrawal as WithdrawalStates
use shuestand.Db.Tables.{Deposit, Withdrawal, Tables}
use shuestand.Db.Withdrawals.{reserved_amount}

pub record StateLiabilityRow : Type 0 where
  pub state : String
  pub count : ℕ
  pub amount_sats : ℕ

-- One more row in its group; a group is there once it has a row.
unfoldable pub tally : String → ℕ → List StateLiabilityRow → List StateLiabilityRow
tally s n [] = record { state = s; count = 1; amount_sats = n } ∷ []
tally s n (g ∷ gs) =
    let rest = tally s n gs in
    if str_eq g.state s
    then record g { count = g.count + 1; amount_sats = g.amount_sats + n } ∷ gs
    else g ∷ rest

-- SELECT state, COUNT(*), SUM(amount) … WHERE p GROUP BY state.
unfoldable pub grouped :
    {A : Type 0} → (A → Bool) → (A → String) → (A → ℕ) → List A → List StateLiabilityRow
grouped p state amount [] = []
grouped p state amount (x ∷ xs) =
    let rest = grouped p state amount xs in if p x then tally (state x) (amount x) rest else rest

abbrev pub is_open_deposit : Deposit → Bool
is_open_deposit d = not (
    DepositStates.one_of
      (DepositStates.failed ∷ DepositStates.fulfilled ∷ DepositStates.archived_by_operator ∷ [])
      d.state)

abbrev pub is_open_withdrawal : Withdrawal → Bool
is_open_withdrawal w = not (
    WithdrawalStates.one_of
      (WithdrawalStates.failed ∷ WithdrawalStates.settled ∷ WithdrawalStates.archived_by_operator
        ∷ [])
      w.state)

unfoldable pub ledger_deposit_liabilities : Tables → List StateLiabilityRow
ledger_deposit_liabilities t =
    grouped is_open_deposit (λ d. DepositStates.as_str d.state) (λ d. d.amount_sats) t.deposits

unfoldable pub ledger_withdrawal_liabilities : Tables → List StateLiabilityRow
ledger_withdrawal_liabilities t =
    grouped is_open_withdrawal (λ w. WithdrawalStates.as_str w.state) reserved_amount t.withdrawals
