-- ===== src/Http/Ledger.antt =====
-- backend/src/http.rs: the ledger of what is held and what is owed, `get_ledger_snapshot`, and the
-- float against its target, `get_float_status`. The answers of the wallets are arguments: a wallet
-- that is not configured, a call of it that fails, or its balance.
pub mod Sums
pub mod Laws
use shuestand.Prelude.{
  String, ℕ, ◌+◌, ◌-◌, Option, none, some, List, [], ◌∷◌, Bool, false, str_eq, ltb, if◌then◌else◌,
}
use shuestand.Prelude.Int.{ℤ, sub_ℕ, ◌+ℤ◌}
use shuestand.Failure.{unauthorized, server_error}
use shuestand.Run.{pure, ◌>>=◌, ◌>>◌}
use shuestand.Db.States.Deposit as DepositStates
use shuestand.Db.States.Withdrawal as WithdrawalStates
use shuestand.Db.Ledger.{
  StateLiabilityRow, ledger_deposit_liabilities, ledger_withdrawal_liabilities,
}
use shuestand.Http.Site.{Handler, served, selected}
use shuestand.Http.Access.{AccessSettings, OperatorHeaders, require_operator_token}
use shuestand.Http.Deposits.{expire_stale}

pub record LiabilityBucket : Type 0 where
  pub amount_sats : ℕ
  pub count : ℕ

-- One turn of the loop of both sums; `counts` tells whether the text of a row is one of the states.
abbrev pub counted_in : (String → Bool) → StateLiabilityRow → LiabilityBucket → LiabilityBucket
counted_in counts row bucket =
    if counts row.state
    then record {
      amount_sats = bucket.amount_sats + row.amount_sats;
      count = bucket.count + row.count;
    }
    else bucket

unfoldable pub sum_rows :
    (String → Bool) → List StateLiabilityRow → LiabilityBucket → LiabilityBucket
sum_rows counts [] bucket = bucket
sum_rows counts (row ∷ rows) bucket = sum_rows counts rows (counted_in counts row bucket)

abbrev pub empty_bucket : LiabilityBucket
empty_bucket = record { amount_sats = 0; count = 0 }

abbrev pub deposit_counts : List DepositStates.DepositState → String → Bool
deposit_counts states text = elim (DepositStates.try_from text) [
  | none ↦ false
  | some state ↦ DepositStates.one_of states state
]

abbrev pub withdrawal_counts : List WithdrawalStates.WithdrawalState → String → Bool
withdrawal_counts states text = elim (WithdrawalStates.try_from text) [
  | none ↦ false
  | some state ↦ WithdrawalStates.one_of states state
]

unfoldable pub sum_deposit_states :
    List StateLiabilityRow → List DepositStates.DepositState → LiabilityBucket
sum_deposit_states rows states = sum_rows (deposit_counts states) rows empty_bucket

unfoldable pub sum_withdrawal_states :
    List StateLiabilityRow → List WithdrawalStates.WithdrawalState → LiabilityBucket
sum_withdrawal_states rows states = sum_rows (withdrawal_counts states) rows empty_bucket

pub record CashuAssetBreakdown : Type 0 where
  pub spendable : ℕ
  pub pending : ℕ
  pub reserved : ℕ
  pub available_sats : ℕ

pub record OnchainAssetBreakdown : Type 0 where
  pub confirmed : ℕ
  pub trusted_pending : ℕ
  pub untrusted_pending : ℕ
  pub immature : ℕ
  pub available_sats : ℕ

pub record CashuLedger : Type 0 where
  pub assets : CashuAssetBreakdown
  pub awaiting_confirmations : LiabilityBucket
  pub minting : LiabilityBucket
  pub ready : LiabilityBucket
  pub total_sats : ℕ
  pub net_sats : ℤ

pub record OnchainLedger : Type 0 where
  pub assets : OnchainAssetBreakdown
  pub funding : LiabilityBucket
  pub queued : LiabilityBucket
  pub broadcasting : LiabilityBucket
  pub confirming : LiabilityBucket
  pub total_sats : ℕ
  pub net_sats : ℤ

pub record LedgerTotals : Type 0 where
  pub assets_sats : ℕ
  pub liabilities_sats : ℕ
  pub net_sats : ℤ

pub record LedgerSnapshot : Type 0 where
  pub captured_at : ℕ
  pub float_target_sats : ℕ
  pub cashu : CashuLedger
  pub onchain : OnchainLedger
  pub totals : LedgerTotals

-- The three balances of the Cashu wallet, each of a call of its own.
pub record CashuWallet : Type 0 where
  pub total_balance : Option ℕ
  pub total_pending_balance : Option ℕ
  pub total_reserved_balance : Option ℕ

-- The summary of the on-chain wallet.
pub record BalanceSummary : Type 0 where
  pub confirmed : ℕ
  pub trusted_pending : ℕ
  pub untrusted_pending : ℕ
  pub immature : ℕ

unfoldable pub onchain_assets : Option (Option BalanceSummary) → Handler OnchainAssetBreakdown
onchain_assets none = pure (record {
  confirmed = 0;
  trusted_pending = 0;
  untrusted_pending = 0;
  immature = 0;
  available_sats = 0;
})
onchain_assets (some balance) = do
  summary ← served balance server_error
  pure (record {
    confirmed = summary.confirmed;
    trusted_pending = summary.trusted_pending;
    untrusted_pending = summary.untrusted_pending;
    immature = summary.immature;
    available_sats = summary.confirmed + summary.trusted_pending;
  })

unfoldable pub cashu_assets : Option CashuWallet → Handler CashuAssetBreakdown
cashu_assets none = pure (record { spendable = 0; pending = 0; reserved = 0; available_sats = 0 })
cashu_assets (some wallet) = do
  spendable ← served wallet.total_balance server_error
  pending ← served wallet.total_pending_balance server_error
  reserved ← served wallet.total_reserved_balance server_error
  pure (record {
    spendable = spendable;
    pending = pending;
    reserved = reserved;
    available_sats = spendable;
  })

-- What the rows of the two views owe, set against the assets.
unfoldable pub cashu_ledger : CashuAssetBreakdown → List StateLiabilityRow → CashuLedger
cashu_ledger assets rows =
    let awaiting = sum_deposit_states rows (
      DepositStates.pending ∷ DepositStates.partial_payment_received ∷ DepositStates.confirming
      ∷ []) in
    let minting = sum_deposit_states rows (DepositStates.minting ∷ DepositStates.delivering ∷ []) in
    let ready = sum_deposit_states rows (DepositStates.ready ∷ []) in
    let total = awaiting.amount_sats + minting.amount_sats + ready.amount_sats in
    record {
      assets = assets;
      awaiting_confirmations = awaiting;
      minting = minting;
      ready = ready;
      total_sats = total;
      net_sats = sub_ℕ assets.available_sats total;
    }

unfoldable pub onchain_ledger : OnchainAssetBreakdown → List StateLiabilityRow → OnchainLedger
onchain_ledger assets rows =
    let funding = sum_withdrawal_states rows (WithdrawalStates.funding ∷ []) in
    let queued = sum_withdrawal_states rows (WithdrawalStates.queued ∷ []) in
    let broadcasting = sum_withdrawal_states rows (WithdrawalStates.broadcasting ∷ []) in
    let confirming = sum_withdrawal_states rows (WithdrawalStates.confirming ∷ []) in
    let total = queued.amount_sats + broadcasting.amount_sats + confirming.amount_sats in
    record {
      assets = assets;
      funding = funding;
      queued = queued;
      broadcasting = broadcasting;
      confirming = confirming;
      total_sats = total;
      net_sats = sub_ℕ assets.available_sats total;
    }

unfoldable pub totals_of : CashuLedger → OnchainLedger → LedgerTotals
totals_of cashu onchain = record {
  assets_sats = cashu.assets.available_sats + onchain.assets.available_sats;
  liabilities_sats = cashu.total_sats + onchain.total_sats;
  net_sats = cashu.net_sats +ℤ onchain.net_sats;
}

abbrev pub snapshot_of : ℕ → ℕ → CashuLedger → OnchainLedger → LedgerSnapshot
snapshot_of now target c o = record {
  captured_at = now;
  float_target_sats = target;
  cashu = c;
  onchain = o;
  totals = totals_of c o;
}

-- The settings of the server that the two handlers read.
pub record LedgerSettings : Type 0 where
  pub access : AccessSettings
  pub pending_deposit_ttl : ℕ
  pub float_target_sats : ℕ

unfoldable pub get_ledger_snapshot :
    LedgerSettings
    → OperatorHeaders
    → ℕ
    → Option (Option BalanceSummary)
    → Option CashuWallet
    → Handler LedgerSnapshot
get_ledger_snapshot settings headers now onchain_wallet cashu_wallet = do
  require_operator_token settings.access headers now
  expire_stale (now - settings.pending_deposit_ttl) now
  onchain ← onchain_assets onchain_wallet
  cashu ← cashu_assets cashu_wallet
  deposit_rows ← selected ledger_deposit_liabilities
  withdrawal_rows ← selected ledger_withdrawal_liabilities
  let c = cashu_ledger cashu deposit_rows
  let o = onchain_ledger onchain withdrawal_rows
  pure (snapshot_of now settings.float_target_sats c o)

pub data DriftLabel : Type 0 where
  deficit surplus balanced : DriftLabel

pub record FloatStatusResponse : Type 0 where
  pub target_sats : ℕ
  pub total_balance_sats : ℕ
  pub drift_sats : ℤ
  pub drift_label : DriftLabel

-- The sign of the drift is that of the difference.
unfoldable pub drift_label : ℕ → ℕ → DriftLabel
drift_label target total =
    if ltb total target then deficit else if ltb target total then surplus else balanced

-- The balances are those of the last round of the float's monitor.
unfoldable pub get_float_status :
    LedgerSettings → OperatorHeaders → ℕ → ℕ → ℕ → Handler FloatStatusResponse
get_float_status settings headers now onchain_balance cashu_balance = do
  require_operator_token settings.access headers now
  let total = onchain_balance + cashu_balance
  pure (record {
    target_sats = settings.float_target_sats;
    total_balance_sats = total;
    drift_sats = sub_ℕ settings.float_target_sats total;
    drift_label = drift_label settings.float_target_sats total;
  })
