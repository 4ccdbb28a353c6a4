-- ===== src/Workers/Withdrawal.antt =====
-- backend/src/workers/withdrawal.rs: the executors and the worker's tick. Metrics and log lines are
-- left out. `now` is the clock's answer, one for each tick.
pub mod Payouts
pub mod Losing
pub mod Retry
pub mod Tick
pub mod Repeat
use shuestand.Prelude.{
  String, ℕ, ◌+◌, ◌%◌, ◌^◌, Option, none, some, List, [], ◌∷◌, Bool, true, false, ◌&&◌, ltb, leb,
  ◌==◌, min, max, if◌then◌else◌, is_none, unwrap_or,
}
use shuestand.Failure.{
  Failure, Checked, pass, fail, external, consumed_without_amount, missing_token,
  missing_requested_amount,
}
use shuestand.Redemption.{validate_redemption}
use shuestand.Runtime.{
  World, Externals, Exec, Payout, Redeemed, pure, raise, lift, or_raise, ◌>>=◌, ◌>>◌, call, query,
}
use shuestand.Transactions.{withdrawal_settled, notify}
use shuestand.Db.Tables.{Withdrawal, Tables}
use shuestand.Db.States.Withdrawal.{
  WithdrawalState, queued, funding, broadcasting, settled, failed, same,
}
use shuestand.Db.Withdrawals.{
  list_withdrawals_by_state, record_withdrawal_attempt, record_token_consumed,
}

pub record WithdrawalOutcome : Type 0 where
  pub next_state : WithdrawalState
  pub token_value_sats : Option ℕ
  pub txid : Option String

abbrev pub WithdrawalExecutor : Type 0
WithdrawalExecutor = Withdrawal → Exec WithdrawalOutcome

-- `redeemer.redeem`, with its call logged.
unfoldable pub redeem : Externals → String → Exec Redeemed
redeem x token w =
    let log : List String = token ∷ w.redemptions in
    (
      elim (x.redeem log token) [ none ↦ fail external | some r ↦ pass r ],
      record w { redemptions = log },
    )

-- `wallet.send_to_address`, logged when it pays.
unfoldable pub send_to_address : Externals → Payout → Exec String
send_to_address x p w = elim (x.send_to_address w.payouts p) [
  | none ↦ (fail external, w)
  | some txid ↦ (pass txid, record w { payouts = p ∷ w.payouts })
]

-- The half of `execute` that both executors share: what the withdrawal's token is worth.
unfoldable pub redeemed_amount : Externals → ℕ → Withdrawal → Exec ℕ
unfolding redeem
redeemed_amount x now w =
    if w.token_consumed
    then (do
      amount ← or_raise w.token_value_sats consumed_without_amount
      lift (validate_redemption w.requested_amount_sats amount w.swap_fee_sats)
      pure amount)
    else (do
      token ← or_raise w.token missing_token
      redeemed ← redeem x token
      lift (validate_redemption w.requested_amount_sats redeemed.amount_sats redeemed.swap_fee_sats)
      call (record_token_consumed w.id redeemed.amount_sats redeemed.swap_fee_sats now)
      pure redeemed.amount_sats)

-- `CashuRedeemingExecutor::execute`.
unfoldable pub execute_redeeming : Externals → ℕ → WithdrawalExecutor
execute_redeeming x now w = do
  amount ← redeemed_amount x now w
  pure (record { next_state = broadcasting; token_value_sats = some amount; txid = none })

-- `CashuToOnchainExecutor::execute`. The fee rate goes to the wallet alone.
unfoldable pub execute_onchain : Externals → ℕ → WithdrawalExecutor
execute_onchain x now w = do
  amount ← redeemed_amount x now w
  requested ← or_raise w.requested_amount_sats missing_requested_amount
  txid ←
      send_to_address x
        (record { address = w.delivery_address; amount_sats = min amount requested })
  pure (record { next_state = settled; token_value_sats = some amount; txid = some txid })

-- `withdrawal.attempt_count + 1` on u32.
abbrev pub attempt_number : Withdrawal → ℕ
attempt_number w = (w.attempt_count + 1) % 2 ^ 32

-- `max_attempts.max(1)`, of `WithdrawalWorker::new`.
abbrev pub attempt_limit : ℕ → ℕ
attempt_limit max_attempts = max max_attempts 1

unfoldable pub state_after_failure : ℕ → Withdrawal → WithdrawalState
state_after_failure max_attempts w =
    if leb (attempt_limit max_attempts) (attempt_number w) then failed else queued

-- What the tick does with an executor's answer; `notifies` says whether there is a notifier.
unfoldable pub finish :
    Externals → Bool → ℕ → ℕ → Withdrawal → Checked WithdrawalOutcome → Exec (Unit {0})
finish x notifies max_attempts now w (pass o) = do
  call (record_withdrawal_attempt w.id o.next_state o.token_value_sats o.txid none now)
  if same o.next_state settled then notify notifies withdrawal_settled w.id now else pure tt
finish x notifies max_attempts now w (fail e) = call (
    record_withdrawal_attempt w.id (state_after_failure max_attempts w) none none
      (some (x.describe e)) now)

-- One round of the loop of `tick`. An executor's error is kept in its row; what the executor did
-- before it stays done.
unfoldable pub process :
    Externals → WithdrawalExecutor → Bool → ℕ → ℕ → Withdrawal → Exec (Unit {0})
process x executor notifies max_attempts now w s =
    let (r, s') = executor w s in finish x notifies max_attempts now w r s'

unfoldable pub process_all :
    Externals → WithdrawalExecutor → Bool → ℕ → ℕ → List Withdrawal → Exec (Unit {0})
process_all x executor notifies max_attempts now [] = pure tt
process_all x executor notifies max_attempts now (w ∷ ws) =
    process x executor notifies max_attempts now w
    >> process_all x executor notifies max_attempts now ws

-- The loop of `tick`, over the rows that the SELECT found.
unfoldable pub tick_queued : Externals → WithdrawalExecutor → Bool → ℕ → ℕ → Exec (Unit {0})
tick_queued x executor notifies max_attempts now = do
  rows ← query (list_withdrawals_by_state (queued ∷ []))
  process_all x executor notifies max_attempts now rows
