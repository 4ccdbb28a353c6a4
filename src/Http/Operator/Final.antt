-- ===== src/Http/Operator/Final.antt =====
-- backend/src/http.rs, `operate_deposit` and `operate_withdrawal`: what no operator's command changes.
use shuestand.Prelude.{
  String, ℕ, ◌≡◌, refl, ◌∙◌, sym, ap, inl, inr, Option, none, some, List, [], ◌∷◌, Bool, true,
  false, arith, find_row, find_row-holds, find_row-update_where, Bool-cases, Option-cases,
  count_where, ◌==◌, eq_iff, str_eq,
}
use shuestand.Db.Tables.{Withdrawal, Tables, Result, ok}
use shuestand.Db.States.Withdrawal as WithdrawalStates
use shuestand.Db.Withdrawals
use shuestand.Db.Withdrawals.{fetch_withdrawal, manual_update_withdrawal_state}
use shuestand.Http.Operator.{
  WithdrawalActionKind, WithdrawalChange, withdrawal_change, update_withdrawal, perform,
  operate_withdrawal,
}

pub record WithdrawalCommand : Type 0 where
  pub authorized : Bool
  pub action : WithdrawalActionKind
  pub remark : Option String
  pub txid : Option String
  pub id : String
  pub now : ℕ

module _ (trim : String → String) where
  abbrev pub command_withdrawals : List WithdrawalCommand → Tables → Tables
  command_withdrawals [] t = t
  command_withdrawals (c ∷ cs) t =
      command_withdrawals cs
        (operate_withdrawal trim c.authorized c.action c.remark c.txid c.id c.now t).1

  -- An update of the rows of another id leaves this row.
  other_kept :
      (id other : String) (f : Withdrawal → Withdrawal) (t : Tables) (w : Withdrawal)
      → ((x : Withdrawal) → (f x).id ≡ x.id)
      → str_eq id other ≡ false
      → find_row (Withdrawals.has_id id) t.withdrawals ≡ some w
      → find_row
          (Withdrawals.has_id id)
          (Withdrawals.update_or_missing (Withdrawals.has_id other) f t).1.withdrawals
        ≡ some w
  other_kept id other f t w same_id ne found =
      let own = find_row-holds (Withdrawals.has_id id) t.withdrawals w found in
      let w_id = (eq_iff w.id id).0 own in
      elim (Bool-cases (count_where (Withdrawals.has_id other) t.withdrawals == 0)) [
        | inl z ↦ rw z found
        | inr z ↦ rw z (
            find_row-update_where (Withdrawals.has_id id) (Withdrawals.has_id other) f t.withdrawals
              (λ x. rw (same_id x))
            ∙ rw (found, w_id, ne) refl)
      ]

  other_change_kept :
      (change : Option WithdrawalChange) (now : ℕ) (id other : String) (t : Tables) (w : Withdrawal)
      (fetch : Tables → Result Withdrawal)
      → str_eq id other ≡ false
      → find_row (Withdrawals.has_id id) t.withdrawals ≡ some w
      → find_row
          (Withdrawals.has_id id)
          (perform (update_withdrawal other now) fetch change t).1.withdrawals
        ≡ some w
  unfolding perform manual_update_withdrawal_state
  other_change_kept none now id other t w fetch ne found = found
  other_change_kept (some c) now id other t w fetch ne found =
      other_kept id other _ t w (λ x. refl) ne found

  -- No action changes a settled withdrawal.
  settled_unchanged :
      (action : WithdrawalActionKind) (remark txid : Option String) (w : Withdrawal)
      → w.state ≡ WithdrawalStates.settled
      → withdrawal_change trim action remark txid w ≡ none
  unfolding withdrawal_change WithdrawalStates.one_of
  settled_unchanged action remark txid w settled = ground arith

  fetched :
      (id : String) (t : Tables) (w : Withdrawal)
      → find_row (Withdrawals.has_id id) t.withdrawals ≡ some w
      → fetch_withdrawal id t ≡ ok w
  unfolding fetch_withdrawal
  fetched id t w found = rw (found, fetch_withdrawal)

  row_fetched :
      (id : String) (t : Tables) (w : Withdrawal)
      → fetch_withdrawal id t ≡ ok w
      → find_row (Withdrawals.has_id id) t.withdrawals ≡ some w
  unfolding fetch_withdrawal
  row_fetched id t w e = ground arith

  -- Two finds that agree on the id find the same row.
  one_row :
      (id other : String) (t : Tables) (x w : Withdrawal)
      → str_eq id x.id ≡ true
      → find_row (Withdrawals.has_id other) t.withdrawals ≡ some x
      → find_row (Withdrawals.has_id id) t.withdrawals ≡ some w
      → x ≡ w
  one_row id other t x w e there found =
      let x_id =
        (eq_iff x.id other).0 (find_row-holds (Withdrawals.has_id other) t.withdrawals x there) in
      let same_id : id ≡ other = (eq_iff id x.id).0 e ∙ x_id in
      let both : ◌≡◌ {A = Option Withdrawal} (some x) (some w) =
        sym there ∙ ap (λ k. find_row (Withdrawals.has_id k) t.withdrawals) (sym same_id) ∙ found in
      cc

  operate_kept :
      (authorized : Bool) (action : WithdrawalActionKind) (remark txid : Option String)
      (other : String) (now : ℕ) (id : String) (t : Tables) (w : Withdrawal)
      → w.state ≡ WithdrawalStates.settled
      → find_row (Withdrawals.has_id id) t.withdrawals ≡ some w
      → find_row
          (Withdrawals.has_id id)
          (operate_withdrawal trim authorized action remark txid other now t).1.withdrawals
        ≡ some w
  unfolding operate_withdrawal fetch_withdrawal perform
  operate_kept false action remark txid other now id t w settled found = found
  operate_kept true action remark txid other now id t w settled found =
      elim (Option-cases (find_row (Withdrawals.has_id other) t.withdrawals)) [
        | inl gone ↦ rw (gone, operate_withdrawal) found
        | inr (x, there) ↦ elim (Bool-cases (str_eq id x.id)) [
          | inr ne ↦
              rw (there, operate_withdrawal)
                (other_change_kept _ now id x.id t w (fetch_withdrawal other) ne found)
          | inl e ↦
              let settled_x : x.state ≡ WithdrawalStates.settled =
                ap (λ y. y.state) (one_row id other t x w e there found) ∙ settled in
              rw
                (
                  there,
                  operate_withdrawal,
                  settled_unchanged action remark txid x settled_x,
                  perform,
                )
                found
        ]
      ]

  kept :
      (cs : List WithdrawalCommand) (id : String) (t : Tables) (w : Withdrawal)
      → w.state ≡ WithdrawalStates.settled
      → find_row (Withdrawals.has_id id) t.withdrawals ≡ some w
      → find_row (Withdrawals.has_id id) (command_withdrawals cs t).withdrawals ≡ some w
  kept [] id t w settled found = found
  kept (c ∷ cs) id t w settled found =
      kept cs id (operate_withdrawal trim c.authorized c.action c.remark c.txid c.id c.now t).1 w
        settled (operate_kept c.authorized c.action c.remark c.txid c.id c.now id t w settled found)

-- No commands of operators, whatever withdrawals they name, change the row of a settled withdrawal.
pub settled_final :
    (trim : String → String) (cs : List WithdrawalCommand) (id : String) (t : Tables)
    (w : Withdrawal)
    → fetch_withdrawal id t ≡ ok w
    → w.state ≡ WithdrawalStates.settled
    → fetch_withdrawal id (command_withdrawals trim cs t) ≡ ok w
settled_final trim cs id t w found settled =
    fetched trim id (command_withdrawals trim cs t) w
      (kept trim cs id t w settled (row_fetched trim id t w found))
