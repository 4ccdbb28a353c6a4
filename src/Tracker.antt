-- ===== src/Tracker.antt =====
-- backend/src/main.rs: the trackers that follow the chain for open deposits and for broadcast
-- withdrawals. The chain source and the wallet are parameters, with one answer for each question
-- of a pass. Log lines are left out. Heights and sums stay within their machine types.
pub mod Credit
pub mod Settlement
use shuestand.Prelude.{
  String, ℕ, ◌+◌, ◌-◌, ◌*◌, Option, none, some, List, [], ◌∷◌, Bool, true, false, not, ◌&&◌, ltb,
  leb, max, if◌then◌else◌, unwrap_or, select, order_by, sum_where, sum_by,
}
use shuestand.Failure.{external}
use shuestand.Db.Tables.{Deposit, Withdrawal, second}
use shuestand.Db.States.Deposit.{DepositState, partial_payment_received, confirming, minting}
use shuestand.Db.States.Withdrawal as States
use shuestand.Db.States.Withdrawal.{broadcasting, settled}
use shuestand.Db.Deposits.{list_open_deposits, update_deposit_chain_state}
use shuestand.Db.Addresses.{update_address_observation}
use shuestand.Db.Withdrawals.{list_withdrawals_by_state, update_withdrawal_chain_state}
use shuestand.Runtime.{Exec, pure, or_raise, ◌>>=◌, ◌>>◌, call, query}
use shuestand.Transactions.{withdrawal_settled, notify}

pub record ObservedTx : Type 0 where
  pub txid : String
  pub received_sats : ℕ
  pub confirmed : Bool
  pub block_height : Option ℕ
  pub seen_at : Option ℕ

-- `none` is an error of the source.
pub record ChainSource : Type 0 where
  pub tip_height : Option ℕ
  pub matching_txs : String → Option (List ObservedTx)

abbrev pub predeposit_tx_tolerance_secs : ℕ
predeposit_tx_tolerance_secs = 600 * second

-- Confirmed before the deposit was created.
abbrev pub is_predeposit : ℕ → ObservedTx → Bool
is_predeposit created_at obs = obs.confirmed && elim obs.seen_at [
  | none ↦ false
  | some seen_at ↦ ltb (seen_at + predeposit_tx_tolerance_secs) created_at
]

abbrev pub valid_txs : ℕ → List ObservedTx → List ObservedTx
valid_txs created_at = select (λ obs. not (is_predeposit created_at obs))

-- The order of `Option`: none first.
abbrev pub seen_key : ObservedTx → ℕ
seen_key obs = elim obs.seen_at [ none ↦ 0 | some n ↦ n + 1 ]

abbrev pub last_txid : List ObservedTx → String
last_txid [] = ""
last_txid (obs ∷ []) = obs.txid
last_txid (obs ∷ next ∷ rest) = last_txid (next ∷ rest)

-- The confirmations of a confirmed transaction.
abbrev pub depth : ℕ → Option ℕ → ℕ
depth tip none = 1
depth tip (some height) = if leb height tip then tip - height + 1 else 1

abbrev pub confirmations_of : ℕ → ObservedTx → ℕ
confirmations_of tip obs = if obs.confirmed then depth tip obs.block_height else 0

unfoldable pub best_confirmations : ℕ → List ObservedTx → ℕ
best_confirmations tip [] = 0
best_confirmations tip (obs ∷ rest) = max (confirmations_of tip obs) (best_confirmations tip rest)

unfoldable pub total_received : List ObservedTx → ℕ
total_received = sum_by (λ obs. obs.received_sats)

-- Whether a transaction is confirmed as deep as the deposit asks.
abbrev pub is_deep : ℕ → ℕ → ObservedTx → Bool
is_deep tip target obs = obs.confirmed && leb target (depth tip obs.block_height)

unfoldable pub confirmed_covering_amount : ℕ → ℕ → List ObservedTx → ℕ
confirmed_covering_amount tip target = sum_where (is_deep tip target) (λ obs. obs.received_sats)

unfoldable pub next_state : ℕ → ℕ → ℕ → DepositState
next_state amount total covering =
    if ltb total amount
    then partial_payment_received
    else if leb amount covering
    then minting
    else confirming

unfoldable pub confirmations_for : ℕ → ℕ → ℕ → ℕ → ℕ → ℕ
confirmations_for amount total covering target best =
    if ltb total amount then best else if leb amount covering then target else best

-- What one deposit's transactions come to, once the early ones are dropped.
unfoldable pub credit : ℕ → ℕ → Deposit → List ObservedTx → Exec (Unit {0})
unfolding next_state confirmations_for total_received confirmed_covering_amount best_confirmations
credit tip now d [] = pure tt
credit tip now d (obs ∷ rest) =
    let valid : List ObservedTx = order_by seen_key (obs ∷ rest) in
    let total = total_received valid in
    let covering = confirmed_covering_amount tip d.target_confirmations valid in
    let confirmations =
      confirmations_for d.amount_sats total covering d.target_confirmations
        (best_confirmations tip valid) in
    call (
      update_deposit_chain_state d.id (last_txid valid) total covering confirmations
        (next_state d.amount_sats total covering) now)
    >> call (update_address_observation d.id (last_txid valid) confirmations now)

-- One round of the loop of `process_confirmations`.
unfoldable pub confirm : ChainSource → ℕ → ℕ → Deposit → Exec (Unit {0})
confirm chain tip now d = do
  observations ← or_raise (chain.matching_txs d.address) external
  credit tip now d (valid_txs d.created_at observations)

unfoldable pub confirm_all : ChainSource → ℕ → ℕ → List Deposit → Exec (Unit {0})
confirm_all chain tip now [] = pure tt
confirm_all chain tip now (d ∷ ds) = confirm chain tip now d >> confirm_all chain tip now ds

unfoldable pub confirm_some : ChainSource → ℕ → List Deposit → Exec (Unit {0})
unfolding confirm_all
confirm_some chain now [] = pure tt
confirm_some chain now (d ∷ ds) = do
  tip ← or_raise chain.tip_height external
  confirm_all chain tip now (d ∷ ds)

unfoldable pub process_confirmations : ChainSource → ℕ → Exec (Unit {0})
process_confirmations chain now = do
  deposits ← query list_open_deposits
  confirm_some chain now deposits

-- What the wallet says of a transaction.
pub data TxStatus : Type 0 where
  pending confirmed : TxStatus

-- The wallet's answer: an error, or a status if the transaction is known.
abbrev pub WalletStatus : Type 0
WalletStatus = String → Option (Option TxStatus)

-- What a status does to a tracked withdrawal.
unfoldable pub settle : Bool → ℕ → Withdrawal → Option TxStatus → Exec (Unit {0})
settle notifies now w none = pure tt
settle notifies now w (some pending) =
    if States.same w.state broadcasting
    then call (update_withdrawal_chain_state w.id States.confirming now)
    else pure tt
settle notifies now w (some confirmed) =
    if States.same w.state settled
    then pure tt
    else (call (update_withdrawal_chain_state w.id settled now)
        >> notify notifies withdrawal_settled w.id now)

-- One round of the loop of `process_withdrawal_settlements`.
unfoldable pub follow : WalletStatus → Bool → ℕ → Withdrawal → Option String → Exec (Unit {0})
unfolding settle
follow status notifies now w none = pure tt
follow status notifies now w (some txid) = do
  answer ← or_raise (status txid) external
  settle notifies now w answer

unfoldable pub follow_all : WalletStatus → Bool → ℕ → List Withdrawal → Exec (Unit {0})
follow_all status notifies now [] = pure tt
follow_all status notifies now (w ∷ ws) =
    follow status notifies now w w.txid >> follow_all status notifies now ws

-- The wallet's sync, whose error is logged, shows in its answers alone.
unfoldable pub process_withdrawal_settlements : WalletStatus → Bool → ℕ → Exec (Unit {0})
process_withdrawal_settlements status notifies now = do
  tracked ← query (list_withdrawals_by_state (broadcasting ∷ States.confirming ∷ []))
  follow_all status notifies now tracked
