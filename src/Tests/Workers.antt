-- ===== src/Tests/Workers.antt =====
-- The workers at fixed inputs.
use shuestand.Prelude.{none, ◌≡◌, ◌↔◌, ◌⊎◌, refl, some, [], ◌∷◌, true}
use shuestand.Failure.{pass}
use shuestand.Redemption.{
  validate_conversion_amount, validate_redemption, validate_redemption_iff, Sound,
}
use shuestand.Db.States.Withdrawal.{queued}
use shuestand.Db.Withdrawals.{list_withdrawals_by_state}
use shuestand.Db.Tables.{Withdrawal}
use shuestand.Runtime.{World}
use shuestand.Workers.Withdrawal.{execute_onchain, tick_queued}
use shuestand.Workers.Withdrawal.Payouts.{PaysOnce, execute_onchain-PaysOnce}
use shuestand.Workers.Withdrawal.Tick.{PaysEach, tick_queued-PaysEach}
use shuestand.Workers.Withdrawal.Repeat.{lost_record_pays_twice}
use shuestand.Workers.Withdrawal.Losing.{owed_to, Loses, redeemed_now}
use shuestand.Runtime.{Payout, up, down}
use shuestand.Db.Statements.{run}
use shuestand.Transactions.{withdrawal_settled, notify}
use shuestand.Transactions.Once.{PostsOne, post_once}
use shuestand.Workers.Withdrawal.{WithdrawalExecutor}
use shuestand.Runtime.{raise}
use shuestand.Failure.{external}
use shuestand.Db.States.Withdrawal.{one_of}
use shuestand.Prelude.{List, ◌++◌, select, order_by, insert_by}
use shuestand.Workers.Deposit as Deposit
use shuestand.Workers.Deposit.Mintings.{MintsEach, tick-MintsEach}
use shuestand.Db.States.Deposit.{minting}
use shuestand.Db.Deposits.{list_deposits_by_state}
use shuestand.Tests.Data.{some_deposit, some_withdrawal, tables_of, world_of, willing}

abbrev waiting : World
waiting = world_of (tables_of [] (some_withdrawal queued 60000 ∷ [])) []

execute_onchain-PaysOnce_example :
    PaysOnce
      (some_withdrawal queued 60000)
      []
      (execute_onchain willing 200 (some_withdrawal queued 60000) waiting).1.payouts
execute_onchain-PaysOnce_example =
    execute_onchain-PaysOnce willing 200 (some_withdrawal queued 60000) waiting

tick_queued-PaysEach_example :
    PaysEach
      (list_withdrawals_by_state (queued ∷ []) waiting.tables)
      []
      (tick_queued willing (execute_onchain willing 200) true 5 200 waiting).1.payouts
tick_queued-PaysEach_example = tick_queued-PaysEach willing true 5 200 waiting

validate_redemption_iff_example :
    (validate_redemption (some 60000) 58000 (some 2000) ≡ pass tt) ↔ Sound 60000 58000 (some 2000)
validate_redemption_iff_example = validate_redemption_iff 60000 58000 (some 2000)

-- A settled withdrawal that is counted.
abbrev counted_after : World
counted_after = (notify true withdrawal_settled "wd_1" 300 waiting).1

post_once_example :
    ((notify true withdrawal_settled "wd_1" 300 waiting).1.posts ≡ [])
    ⊎ (PostsOne "wd_1" [] (notify true withdrawal_settled "wd_1" 300 waiting).1.posts
        × ((notify true withdrawal_settled "wd_1" 500
              (world_of (run [] counted_after.tables) (down ∷ []))).1.posts
            ≡ []))
post_once_example =
    post_once "wd_1" 300 waiting [] 500 (world_of (run [] counted_after.tables) (down ∷ [])) refl

abbrev other : Withdrawal
other = record (some_withdrawal queued 70000) { id = "wd_2"; created_at = 150 }

abbrev paid_58000 : Payout
paid_58000 = owed_to (some_withdrawal queued 60000) 58000 60000

-- The calls that read the queue and that record the token succeed; the next one fails.
abbrev failing : World
failing = world_of (tables_of [] (some_withdrawal queued 60000 ∷ other ∷ [])) (up ∷ up ∷ down ∷ [])

failing-Loses : Loses willing (some_withdrawal queued 60000) 58000 60000 failing
unfolding validate_redemption validate_conversion_amount
failing-Loses = redeemed_now "cashuA" (some 2000) refl refl refl refl refl

failing_queue :
    list_withdrawals_by_state (queued ∷ []) failing.tables
    ≡ some_withdrawal queued 60000 ∷ other ∷ []
unfolding list_withdrawals_by_state select order_by insert_by one_of
failing_queue = refl

lost_record_pays_twice_example :
    (more : List Payout) × ((tick_queued willing
        (execute_onchain willing 300)
        true
        5
        300
        (tick_queued willing (execute_onchain willing 200) true 5 200 failing).1).1.payouts
      ≡ more ++ paid_58000 ∷ paid_58000 ∷ [])
lost_record_pays_twice_example =
    lost_record_pays_twice willing true 5 200 300 (some_withdrawal queued 60000) (other ∷ []) 58000
      60000 "txid" "txid" failing failing_queue refl failing-Loses refl refl

-- An executor without a mint.
abbrev stopped : WithdrawalExecutor
stopped w = raise external

abbrev two_waiting : World
two_waiting = world_of (tables_of [] (other ∷ some_withdrawal queued 60000 ∷ [])) []

abbrev to_mint : World
to_mint = world_of (tables_of (some_deposit minting none ∷ []) []) []

tick-MintsEach_example :
    MintsEach
      (list_deposits_by_state (minting ∷ []) to_mint.tables)
      []
      (Deposit.tick willing 5 200 to_mint).1.mintings
tick-MintsEach_example = tick-MintsEach willing 5 200 to_mint
