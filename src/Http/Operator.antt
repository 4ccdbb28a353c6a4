-- ===== src/Http/Operator.antt =====
-- backend/src/http.rs, `operate_deposit` and `operate_withdrawal`: what an operator may do by hand.
-- The check of the operator's token comes first, and is a flag. `trim` is the standard library's.
pub mod Final
use shuestand.Prelude.{
  String, ℕ, Option, none, some, List, [], ◌∷◌, Bool, true, false, str_eq, coalesce, unwrap_or,
  if◌then◌else◌,
}
use shuestand.Http.{
  ApiError, ApiResult, fetch_error, answer, refusal, unauthorized, invalid_request, server_error,
}
use shuestand.Db.Tables.{Deposit, Withdrawal, Tables, Result, ok, err, DbError, row_not_found}
use shuestand.Db.States.Deposit as DepositStates
use shuestand.Db.States.Withdrawal as WithdrawalStates
use shuestand.Db.Deposits.{fetch_deposit, manual_update_deposit_state}
use shuestand.Db.Withdrawals.{fetch_withdrawal, manual_update_withdrawal_state}

pub data DepositActionKind : Type 0 where
  mark_fulfilled mark_failed archive : DepositActionKind

pub data WithdrawalActionKind : Type 0 where
  mark_settled mark_failed requeue archive : WithdrawalActionKind

-- The arguments of `manual_update_deposit_state`, beside the row.
pub record DepositChange : Type 0 where
  pub next : DepositStates.DepositState
  pub remark : Option String
  pub clear_errors : Bool

-- The arguments of `manual_update_withdrawal_state`, beside the row.
pub record WithdrawalChange : Type 0 where
  pub next : WithdrawalStates.WithdrawalState
  pub txid : Option String
  pub error : Option String
  pub reset : Bool

abbrev pub update_deposit : String → ℕ → DepositChange → Tables → Result (Unit {0}) × Tables
update_deposit id now c = manual_update_deposit_state id c.next c.remark c.clear_errors now

abbrev pub update_withdrawal : String → ℕ → WithdrawalChange → Tables → Result (Unit {0}) × Tables
update_withdrawal id now c = manual_update_withdrawal_state id c.next c.txid c.error c.reset now

-- What follows the fetch: the update, and the row read again.
unfoldable pub perform :
    {A C : Type 0}
    → (C → Tables → Result (Unit {0}) × Tables)
    → (Tables → Result A)
    → Option C
    → Tables
    → ApiResult A × Tables
perform update fetch none t = (refusal invalid_request, t)
perform update fetch (some c) t =
    let (r, t') = update c t in
    (
      elim r [
        | err e ↦ refusal server_error
        | ok u ↦ elim (fetch t') [ ok a ↦ answer a | err e ↦ refusal server_error ]
      ],
      t',
    )

abbrev pub non_empty : String → Option String
non_empty s = if str_eq s "" then none else some s

module _ (trim : String → String) where
  -- `as_deref().map(str::trim).filter(|value| !value.is_empty())`.
  abbrev pub trimmed : Option String → Option String
  trimmed none = none
  trimmed (some s) = non_empty (trim s)

  abbrev pub reason : Option String → String
  reason remark = unwrap_or (trimmed remark) "marked failed by operator"

  -- The change that an action asks for, unless the deposit's state forbids it.
  unfoldable pub deposit_change : DepositActionKind → Option String → Deposit → Option DepositChange
  deposit_change DepositActionKind.mark_fulfilled remark d =
      if DepositStates.one_of (DepositStates.delivering ∷ DepositStates.ready ∷ []) d.state
      then some (record { next = DepositStates.fulfilled; remark = none; clear_errors = true })
      else none
  deposit_change DepositActionKind.mark_failed remark d =
      if DepositStates.one_of (DepositStates.fulfilled ∷ DepositStates.archived_by_operator ∷ [])
        d.state
      then none
      else some (record {
        next = DepositStates.failed;
        remark = some (reason remark);
        clear_errors = false;
      })
  deposit_change DepositActionKind.archive remark d =
      if DepositStates.one_of (DepositStates.failed ∷ DepositStates.fulfilled ∷ []) d.state
      then some (record {
        next = DepositStates.archived_by_operator;
        remark = none;
        clear_errors = false;
      })
      else none

  unfoldable pub withdrawal_change :
      WithdrawalActionKind → Option String → Option String → Withdrawal → Option WithdrawalChange
  withdrawal_change WithdrawalActionKind.mark_settled remark txid w =
      if WithdrawalStates.one_of (WithdrawalStates.settled ∷ WithdrawalStates.funding ∷ []) w.state
      then none
      else some (record {
        next = WithdrawalStates.settled;
        txid = coalesce (trimmed txid) w.txid;
        error = none;
        reset = false;
      })
  withdrawal_change WithdrawalActionKind.mark_failed remark txid w =
      if WithdrawalStates.same w.state WithdrawalStates.settled
      then none
      else some (record {
        next = WithdrawalStates.failed;
        txid = w.txid;
        error = some (reason remark);
        reset = false;
      })
  withdrawal_change WithdrawalActionKind.requeue remark txid w =
      if WithdrawalStates.one_of
        (WithdrawalStates.failed ∷ WithdrawalStates.broadcasting ∷ WithdrawalStates.confirming ∷ [])
        w.state
      then some
          (record { next = WithdrawalStates.queued; txid = w.txid; error = none; reset = true })
      else none
  withdrawal_change WithdrawalActionKind.archive remark txid w =
      if WithdrawalStates.one_of (WithdrawalStates.failed ∷ WithdrawalStates.funding ∷ []) w.state
      then some (record {
        next = WithdrawalStates.archived_by_operator;
        txid = w.txid;
        error = w.error;
        reset = false;
      })
      else none

  unfoldable pub operate_deposit :
      Bool → DepositActionKind → Option String → String → ℕ → Tables → ApiResult Deposit × Tables
  operate_deposit false action remark id now t = (refusal unauthorized, t)
  operate_deposit true action remark id now t = elim (fetch_deposit id t) [
    | err e ↦ (refusal (fetch_error e), t)
    | ok d ↦ perform (update_deposit d.id now) (fetch_deposit id) (deposit_change action remark d) t
  ]

  -- The answer is the view of the row, which is left out.
  unfoldable pub operate_withdrawal :
      Bool
      → WithdrawalActionKind
      → Option String
      → Option String
      → String
      → ℕ
      → Tables
      → ApiResult Withdrawal × Tables
  operate_withdrawal false action remark txid id now t = (refusal unauthorized, t)
  operate_withdrawal true action remark txid id now t = elim (fetch_withdrawal id t) [
    | err e ↦ (refusal (fetch_error e), t)
    | ok w ↦
        perform (update_withdrawal w.id now) (fetch_withdrawal id)
          (withdrawal_change action remark txid w) t
  ]
