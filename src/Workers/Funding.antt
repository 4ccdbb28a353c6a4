-- ===== src/Workers/Funding.antt =====
-- backend/src/workers/withdrawal.rs, `tick_funding` and `tick`: the Lightning invoices that fund
-- withdrawals, and the worker's whole tick. Log lines are left out.
use shuestand.Prelude.{
  String, ℕ, Option, none, some, List, [], ◌∷◌, Bool, true, false, ◌&&◌, ltb, ◌==◌, max, ◌+◌,
  if◌then◌else◌, is_none, unwrap_or,
}
use shuestand.Failure.{pass, fail, external}
use shuestand.Runtime.{
  World, Externals, Exec, Quote, QuoteState, unpaid, paid, pure, ◌>>=◌, ◌>>◌, call, query,
}
use shuestand.Db.Tables.{Withdrawal}
use shuestand.Db.States.Withdrawal.{funding}
use shuestand.Db.Withdrawals.{
  list_withdrawals_by_state, record_lightning_invoice_funded, mark_lightning_invoice_expired,
}
use shuestand.Operations.{OperationMode, halt}
use shuestand.Workers.Withdrawal.{WithdrawalExecutor, tick_queued}

-- `guard.check_mint_quote_status`.
unfoldable pub check_quote : Externals → String → Exec Quote
check_quote x id w = (
  elim (x.check_quote w.quote_checks w.issued id) [ none ↦ fail external | some q ↦ pass q ],
  record w { quote_checks = w.quote_checks + 1 },
)

-- `guard.mint`, logged when it mints.
unfoldable pub mint_quote : Externals → String → Exec (Unit {0})
mint_quote x id w =
    if x.mint_quote w.issued id
    then (pass tt, record w { issued = id ∷ w.issued })
    else (fail external, w)

-- A paid quote is minted, and read again.
unfoldable pub mint_if_paid : Externals → String → Quote → QuoteState → Exec Quote
unfolding mint_quote check_quote
mint_if_paid x id q paid = do mint_quote x id; check_quote x id
mint_if_paid x id q _ = pure q

abbrev pub is_unpaid : QuoteState → Bool
is_unpaid unpaid = true
is_unpaid _ = false

-- The invoice is past its expiry, and was not paid.
abbrev pub is_overdue : ℕ → Withdrawal → Bool
is_overdue now w = elim w.lightning_invoice_expires_at [
  | none ↦ false
  | some expires_at ↦ is_none w.lightning_invoice_paid_at && ltb expires_at now
]

unfoldable pub funded_amount : Withdrawal → Quote → ℕ
funded_amount w q = max (max q.amount_issued q.amount_paid) (unwrap_or w.requested_amount_sats 0)

-- `continue` where a quote is unpaid, or settles with no amount.
unfoldable pub fund_from : ℕ → Withdrawal → Quote → Exec (Unit {0})
fund_from now w q =
    if is_unpaid q.state
    then pure tt
    else if funded_amount w q == 0
    then pure tt
    else (call (record_lightning_invoice_funded w.id (funded_amount w q) now) >>= λ _. pure tt)

unfoldable pub poll_quote : Externals → ℕ → Withdrawal → Option String → Exec (Unit {0})
unfolding check_quote mint_if_paid fund_from
poll_quote x now w none = pure tt
poll_quote x now w (some quote_id) = do
  q ← check_quote x quote_id
  q' ← mint_if_paid x quote_id q q.state
  fund_from now w q'

-- One round of the loop of `tick_funding`.
unfoldable pub process_funding : Externals → ℕ → Withdrawal → Exec (Unit {0})
unfolding poll_quote
process_funding x now w =
    if is_overdue now w
    then (call (mark_lightning_invoice_expired w.id now) >>= λ _. pure tt)
    else poll_quote x now w w.lightning_quote_id

unfoldable pub process_all_funding : Externals → ℕ → List Withdrawal → Exec (Unit {0})
process_all_funding x now [] = pure tt
process_all_funding x now (w ∷ ws) = process_funding x now w >> process_all_funding x now ws

-- `has_wallet`: the worker was given a Cashu wallet.
unfoldable pub tick_funding : Externals → Bool → ℕ → Exec (Unit {0})
tick_funding x false now = pure tt
tick_funding x true now = do
  rows ← query (list_withdrawals_by_state (funding ∷ []))
  process_all_funding x now rows

unfoldable pub tick : Externals → WithdrawalExecutor → Bool → Bool → ℕ → ℕ → Exec (Unit {0})
tick x executor has_wallet notifies max_attempts now =
    tick_funding x has_wallet now >> tick_queued x executor notifies max_attempts now

-- `should_pause`.
unfoldable pub should_pause : OperationMode → Bool
should_pause halt = true
should_pause _ = false

-- One round of `run`: a halted worker does nothing, and a tick's error is logged.
unfoldable pub round :
    Externals → WithdrawalExecutor → Bool → Bool → ℕ → ℕ → OperationMode → World → World
round x executor has_wallet notifies max_attempts now mode s =
    if should_pause mode then s else (tick x executor has_wallet notifies max_attempts now s).1
