-- ===== src/Db/Withdrawals.antt =====
-- backend/src/db.rs: the statements on the withdrawals table. `now` is the clock's answer.
pub mod Cases
pub mod Closed
use shuestand.Prelude.{
  String, ℕ, ◌+◌, ◌-◌, ◌^◌, Option, none, some, List, [], ◌∷◌, ◌++◌, Bool, true, false, ◌&&◌, ◌||◌,
  str_eq, ltb, ◌==◌, min, if◌then◌else◌, is_none, is_some, coalesce, unwrap_or, select, find_row,
  update_where, count_where, sum_where, exists_row, order_by,
}
use shuestand.Db.States.Withdrawal.{
  WithdrawalState, funding, queued, broadcasting, confirming, failed, same, one_of,
}
use shuestand.Db.Tables.{Withdrawal, Tables, Result, ok, err, row_not_found, unique_violation}

abbrev pub has_id : String → Withdrawal → Bool
has_id id w = str_eq w.id id

abbrev pub update_or_missing :
    (Withdrawal → Bool) → (Withdrawal → Withdrawal) → Tables → Result (Unit {0}) × Tables
update_or_missing p f t =
    if count_where p t.withdrawals == 0
    then (err row_not_found, t)
    else (ok tt, record t { withdrawals = update_where p f t.withdrawals })

abbrev pub update_all :
    (Withdrawal → Bool) → (Withdrawal → Withdrawal) → Tables → Result (Unit {0}) × Tables
update_all p f t = (ok tt, record t { withdrawals = update_where p f t.withdrawals })

-- An UPDATE whose result is `rows_affected() == 1`.
abbrev pub update_one :
    (Withdrawal → Bool) → (Withdrawal → Withdrawal) → Tables → Result Bool × Tables
update_one p f t = (
  ok (count_where p t.withdrawals == 1),
  record t { withdrawals = update_where p f t.withdrawals },
)

-- The columns that the INSERT leaves out have their defaults.
unfoldable pub inserted : Withdrawal → Withdrawal
inserted w = record w {
  token_consumed = false;
  swap_fee_sats = none;
  transaction_counted_at = none;
}

-- `id` is the primary key.
unfoldable pub insert_withdrawal : Withdrawal → Tables → Result (Unit {0}) × Tables
insert_withdrawal w t =
    if exists_row (has_id w.id) t.withdrawals
    then (err unique_violation, t)
    else (ok tt, record t { withdrawals = t.withdrawals ++ inserted w ∷ [] })

unfoldable pub fetch_withdrawal : String → Tables → Result Withdrawal
fetch_withdrawal id t = elim (find_row (has_id id) t.withdrawals) [
  | none ↦ err row_not_found
  | some w ↦ ok w
]

unfoldable pub list_withdrawals_by_state : List WithdrawalState → Tables → List Withdrawal
list_withdrawals_by_state states t =
    order_by (λ w. w.created_at) (select (λ w. one_of states w.state) t.withdrawals)

unfoldable pub update_withdrawal_chain_state :
    String → WithdrawalState → ℕ → Tables → Result (Unit {0}) × Tables
update_withdrawal_chain_state id next now =
    update_or_missing (has_id id) λ w. record w { state = next; updated_at = now }

unfoldable pub manual_update_withdrawal_state :
    String
    → WithdrawalState
    → Option String
    → Option String
    → Bool
    → ℕ
    → Tables
    → Result (Unit {0}) × Tables
manual_update_withdrawal_state id next txid error reset now = update_or_missing (has_id id) λ w.
    record w {
      state = next;
      txid = txid;
      error = error;
      last_attempt_at = some now;
      updated_at = now;
      attempt_count = if reset then 0 else w.attempt_count;
    }

unfoldable pub record_withdrawal_attempt :
    String
    → WithdrawalState
    → Option ℕ
    → Option String
    → Option String
    → ℕ
    → Tables
    → Result (Unit {0}) × Tables
record_withdrawal_attempt id next value txid error now = update_all (has_id id) λ w. record w {
  state = next;
  token_value_sats = coalesce value w.token_value_sats;
  txid = coalesce txid w.txid;
  error = error;
  last_attempt_at = some now;
  attempt_count = w.attempt_count + 1;
  updated_at = now;
}

unfoldable pub record_token_consumed :
    String → ℕ → Option ℕ → ℕ → Tables → Result (Unit {0}) × Tables
record_token_consumed id amount swap_fee now = update_all (has_id id) λ w. record w {
  token_consumed = true;
  token_value_sats = some amount;
  swap_fee_sats = swap_fee;
  updated_at = now;
}

abbrev pub uncounted : String → Withdrawal → Bool
uncounted id w = has_id id w && is_none w.transaction_counted_at

-- Its result is whether a row was marked by this call.
unfoldable pub mark_withdrawal_transaction_counted : String → ℕ → Tables → Result Bool × Tables
mark_withdrawal_transaction_counted id now =
    update_one (uncounted id) λ w. record w { transaction_counted_at = some now }

-- `WHERE id = $1 AND state = 'funding'`, the guard of each way to fund a withdrawal.
abbrev pub is_funding : String → Withdrawal → Bool
is_funding id w = has_id id w && same w.state funding

-- The SET clause that queues a withdrawal with a payment request's token.
unfoldable pub queue_with_token : String → ℕ → Withdrawal → Withdrawal
queue_with_token token now w = record w {
  token = some token;
  state = queued;
  payment_request_fulfilled_at = some now;
  updated_at = now;
}

unfoldable pub record_payment_request_token :
    String → String → ℕ → Tables → Result (Unit {0}) × Tables
record_payment_request_token id token now =
    update_or_missing (is_funding id) (queue_with_token token now)

unfoldable pub record_lightning_invoice_funded : String → ℕ → ℕ → Tables → Result Bool × Tables
record_lightning_invoice_funded id amount paid_at = update_one (is_funding id) λ w. record w {
  token_consumed = true;
  token_value_sats = some amount;
  state = queued;
  lightning_invoice_paid_at = some paid_at;
  updated_at = paid_at;
}

unfoldable pub mark_lightning_invoice_expired : String → ℕ → Tables → Result Bool × Tables
mark_lightning_invoice_expired id now =
    update_one (λ w. is_funding id w && is_some w.lightning_quote_id)
      λ w. record w {
        state = failed;
        error = some "Lightning invoice expired before payment was received";
        updated_at = now;
      }

-- COALESCE(token_value_sats, requested_amount_sats, 0): what a row reserves.
abbrev pub reserved_amount : Withdrawal → ℕ
reserved_amount w = unwrap_or (coalesce w.token_value_sats w.requested_amount_sats) 0

abbrev pub holds_reserve : Withdrawal → Bool
holds_reserve w = one_of (funding ∷ queued ∷ broadcasting ∷ confirming ∷ []) w.state

unfoldable pub reserved_onchain_withdrawal_sats : Tables → ℕ
reserved_onchain_withdrawal_sats t = sum_where holds_reserve reserved_amount t.withdrawals

pub data PaymentRequestRecordOutcome : Type 0 where
  recorded not_accepting capacity_exceeded : PaymentRequestRecordOutcome

abbrev pub u64_max : ℕ
u64_max = 2 ^ 64 - 1

-- What is left for one request, once the row's own reservation is replaced by the new amount.
-- `scale` is the product with the ratio, rounded down.
unfoldable pub cap_after : (ℕ → ℕ) → ℕ → ℕ → ℕ → ℕ → ℕ
cap_after scale total_reserved current_reserved new_amount raw_onchain =
    let adjusted = min (total_reserved - current_reserved + new_amount) u64_max in
    scale (raw_onchain - adjusted)

-- The transaction after its row is read under the table's lock.
unfoldable pub record_locked_row :
    (ℕ → ℕ)
    → String
    → String
    → ℕ
    → ℕ
    → ℕ
    → Withdrawal
    → Tables
    → Result PaymentRequestRecordOutcome × Tables
record_locked_row scale id token new_amount raw_onchain now w t =
    let cap =
      cap_after scale (reserved_onchain_withdrawal_sats t) (reserved_amount w) new_amount
        raw_onchain in
    if same w.state funding
    then (if cap == 0 || ltb cap new_amount
        then (ok capacity_exceeded, t)
        else if count_where (is_funding id) t.withdrawals == 0
        then (ok not_accepting, t)
        else (
          ok recorded,
          record t {
            withdrawals = update_where (is_funding id) (queue_with_token token now) t.withdrawals;
          },
        ))
    else (ok not_accepting, t)

unfoldable pub record_payment_request_token_locked :
    (ℕ → ℕ) → String → String → ℕ → ℕ → ℕ → Tables → Result PaymentRequestRecordOutcome × Tables
record_payment_request_token_locked scale id token new_amount raw_onchain now t =
    elim (find_row (has_id id) t.withdrawals) [
      | none ↦ (err row_not_found, t)
      | some w ↦ record_locked_row scale id token new_amount raw_onchain now w t
    ]
