-- ===== src/Http/Ledger/Sums.antt =====
-- backend/src/http.rs: the ledger's sums over the groups of the views against sums over the rows of
-- the tables.
use shuestand.Prelude.{
  String, ℕ, ◌+◌, ◌≡◌, refl, ap, ◌∙◌, arith, List, [], ◌∷◌, Bool, ◌&&◌, eq_iff, if◌then◌else◌,
  sum_where,
}
use mathlib.Core.Path.{fun_ext}
use shuestand.Db.Tables.{Deposit, Withdrawal, Tables}
use shuestand.Db.States.Deposit as DepositStates
use shuestand.Db.States.Withdrawal as WithdrawalStates
use shuestand.Db.Deposits.{reserved_cashu_deposit_sats}
use shuestand.Db.Withdrawals.{reserved_amount, holds_reserve, reserved_onchain_withdrawal_sats}
use shuestand.Db.Ledger.{
  StateLiabilityRow, tally, grouped, is_open_deposit, is_open_withdrawal,
  ledger_deposit_liabilities, ledger_withdrawal_liabilities,
}
use shuestand.Http.Ledger.{
  LiabilityBucket, counted_in, sum_rows, deposit_counts, withdrawal_counts, sum_deposit_states,
  sum_withdrawal_states, empty_bucket, CashuAssetBreakdown, OnchainAssetBreakdown, cashu_ledger,
  onchain_ledger,
}

module _ (counts : String → Bool) where
  abbrev counted_sats : List StateLiabilityRow → ℕ
  counted_sats rows = sum_where (λ g. counts g.state) (λ g. g.amount_sats) rows

  sum_rows-amount :
      (rows : List StateLiabilityRow) (b : LiabilityBucket)
      → (sum_rows counts rows b).amount_sats ≡ b.amount_sats + counted_sats rows
  unfolding sum_rows sum_where
  sum_rows-amount [] b = omega arith
  sum_rows-amount (g ∷ gs) b = ground (arith, sum_rows-amount gs (counted_in counts g b))

  counted-tally :
      (s : String) (n : ℕ) (rows : List StateLiabilityRow)
      → counted_sats (tally s n rows) ≡ (if counts s then n else 0) + counted_sats rows
  unfolding tally sum_where
  counted-tally s n [] = omega arith
  counted-tally s n (g ∷ gs) = ground (arith, eq_iff g.state s, counted-tally s n gs)

  counted-grouped :
      {A : Type 0} (p : A → Bool) (state : A → String) (amount : A → ℕ) (xs : List A)
      → counted_sats (grouped p state amount xs)
        ≡ sum_where (λ x. p x && counts (state x)) amount xs
  unfolding grouped sum_where
  counted-grouped p state amount [] = refl
  counted-grouped p state amount (x ∷ xs) = ground (
    arith,
    counted-tally (state x) (amount x) (grouped p state amount xs),
    counted-grouped p state amount xs,
  )

  -- The sum over the groups is one over the rows.
  summed :
      {A : Type 0} (p : A → Bool) (state : A → String) (amount : A → ℕ) (xs : List A)
      → (sum_rows counts (grouped p state amount xs) empty_bucket).amount_sats
        ≡ sum_where (λ x. p x && counts (state x)) amount xs
  summed p state amount xs = omega (
    arith,
    sum_rows-amount (grouped p state amount xs) empty_bucket,
    counted-grouped p state amount xs,
  )

-- A row of a table is counted by its state, whatever text it went through.
deposit_counts-as_str :
    (states : List DepositStates.DepositState) (s : DepositStates.DepositState)
    → deposit_counts states (DepositStates.as_str s) ≡ DepositStates.one_of states s
deposit_counts-as_str states s = rw (DepositStates.deposit_try_from-as_str s, deposit_counts)

withdrawal_counts-as_str :
    (states : List WithdrawalStates.WithdrawalState) (s : WithdrawalStates.WithdrawalState)
    → withdrawal_counts states (WithdrawalStates.as_str s) ≡ WithdrawalStates.one_of states s
withdrawal_counts-as_str states s =
    rw (WithdrawalStates.withdrawal_try_from-as_str s, withdrawal_counts)

abbrev open_in : List DepositStates.DepositState → Deposit → Bool
open_in states d = is_open_deposit d && DepositStates.one_of states d.state

abbrev owed_in : List WithdrawalStates.WithdrawalState → Withdrawal → Bool
owed_in states w = is_open_withdrawal w && WithdrawalStates.one_of states w.state

deposits_sum :
    (t : Tables) (states : List DepositStates.DepositState)
    → (sum_deposit_states (ledger_deposit_liabilities t) states).amount_sats
      ≡ sum_where (open_in states) (λ d. d.amount_sats) t.deposits
unfolding sum_deposit_states ledger_deposit_liabilities
deposits_sum t states =
    summed (deposit_counts states) is_open_deposit (λ d. DepositStates.as_str d.state)
      (λ d. d.amount_sats) t.deposits
    ∙ ap (λ p. sum_where p (λ (d : Deposit). d.amount_sats) t.deposits)
        (fun_ext λ d. ap (λ b. is_open_deposit d && b) (deposit_counts-as_str states d.state))

withdrawals_sum :
    (t : Tables) (states : List WithdrawalStates.WithdrawalState)
    → (sum_withdrawal_states (ledger_withdrawal_liabilities t) states).amount_sats
      ≡ sum_where (owed_in states) reserved_amount t.withdrawals
unfolding sum_withdrawal_states ledger_withdrawal_liabilities
withdrawals_sum t states =
    summed (withdrawal_counts states) is_open_withdrawal (λ w. WithdrawalStates.as_str w.state)
      reserved_amount t.withdrawals
    ∙ ap (λ p. sum_where p reserved_amount t.withdrawals)
        (fun_ext λ w. ap (λ b. is_open_withdrawal w && b) (withdrawal_counts-as_str states w.state))

-- What the deposits that wait for their first payment ask for.
abbrev pub pending_sats : Tables → ℕ
pending_sats t =
    sum_where (λ d. DepositStates.same d.state DepositStates.pending) (λ d. d.amount_sats)
      t.deposits

abbrev awaiting_states : List DepositStates.DepositState
awaiting_states =
    DepositStates.pending ∷ DepositStates.partial_payment_received ∷ DepositStates.confirming ∷ []

abbrev minting_states : List DepositStates.DepositState
minting_states = DepositStates.minting ∷ DepositStates.delivering ∷ []

abbrev reserving_states : List DepositStates.DepositState
reserving_states =
    DepositStates.partial_payment_received ∷ DepositStates.confirming ∷ DepositStates.minting
    ∷ DepositStates.delivering ∷ DepositStates.ready ∷ []

abbrev weigh : Bool → ℕ → ℕ
weigh b n = if b then n else 0

-- Every state of a deposit is in one part of the ledger, and pending, reserving or closed.
deposit_parts :
    (d : Deposit) (s : DepositStates.DepositState) (n : ℕ)
    → d.state ≡ s
    → weigh (open_in awaiting_states d) n
        + weigh (open_in minting_states d) n
        + weigh (open_in (DepositStates.ready ∷ []) d) n
      ≡ weigh (DepositStates.same d.state DepositStates.pending) n
        + weigh (DepositStates.one_of reserving_states d.state) n
unfolding DepositStates.one_of
deposit_parts d DepositStates.pending n e = rw e (omega arith)
deposit_parts d _ n e = rw e (omega arith)

deposits_parts :
    (ds : List Deposit)
    → sum_where (open_in awaiting_states) (λ d. d.amount_sats) ds
        + sum_where (open_in minting_states) (λ d. d.amount_sats) ds
        + sum_where (open_in (DepositStates.ready ∷ [])) (λ d. d.amount_sats) ds
      ≡ sum_where (λ d. DepositStates.same d.state DepositStates.pending) (λ d. d.amount_sats) ds
        + sum_where (λ d. DepositStates.one_of reserving_states d.state) (λ d. d.amount_sats) ds
unfolding sum_where
deposits_parts [] = omega arith
deposits_parts (d ∷ ds) =
    omega (arith, deposit_parts d d.state d.amount_sats refl, deposits_parts ds)

withdrawal_parts :
    (w : Withdrawal) (s : WithdrawalStates.WithdrawalState) (n : ℕ)
    → w.state ≡ s
    → weigh (owed_in (WithdrawalStates.queued ∷ []) w) n
        + weigh (owed_in (WithdrawalStates.broadcasting ∷ []) w) n
        + weigh (owed_in (WithdrawalStates.confirming ∷ []) w) n
        + weigh (owed_in (WithdrawalStates.funding ∷ []) w) n
      ≡ weigh (holds_reserve w) n
unfolding WithdrawalStates.one_of
withdrawal_parts w WithdrawalStates.funding n e = rw e (omega arith)
withdrawal_parts w _ n e = rw e (omega arith)

withdrawals_parts :
    (ws : List Withdrawal)
    → sum_where (owed_in (WithdrawalStates.queued ∷ [])) reserved_amount ws
        + sum_where (owed_in (WithdrawalStates.broadcasting ∷ [])) reserved_amount ws
        + sum_where (owed_in (WithdrawalStates.confirming ∷ [])) reserved_amount ws
        + sum_where (owed_in (WithdrawalStates.funding ∷ [])) reserved_amount ws
      ≡ sum_where holds_reserve reserved_amount ws
unfolding sum_where
withdrawals_parts [] = omega arith
withdrawals_parts (w ∷ ws) =
    omega (arith, withdrawal_parts w w.state (reserved_amount w) refl, withdrawals_parts ws)

-- The ledger of ecash owes what the cap on deposits reserves, and what is pending beside it.
pub cashu_total :
    (assets : CashuAssetBreakdown) (t : Tables)
    → (cashu_ledger assets (ledger_deposit_liabilities t)).total_sats
      ≡ pending_sats t + reserved_cashu_deposit_sats t
unfolding cashu_ledger reserved_cashu_deposit_sats
cashu_total assets t = omega (
  arith,
  deposits_sum t awaiting_states,
  deposits_sum t minting_states,
  deposits_sum t (DepositStates.ready ∷ []),
  deposits_parts t.deposits,
)

-- The ledger on chain owes what the cap on withdrawals reserves, less what waits for its funding.
pub onchain_total :
    (assets : OnchainAssetBreakdown) (t : Tables)
    → (let o = onchain_ledger assets (ledger_withdrawal_liabilities t) in
        o.total_sats + o.funding.amount_sats)
      ≡ reserved_onchain_withdrawal_sats t
unfolding onchain_ledger reserved_onchain_withdrawal_sats
onchain_total assets t = omega (
  arith,
  withdrawals_sum t (WithdrawalStates.queued ∷ []),
  withdrawals_sum t (WithdrawalStates.broadcasting ∷ []),
  withdrawals_sum t (WithdrawalStates.confirming ∷ []),
  withdrawals_sum t (WithdrawalStates.funding ∷ []),
  withdrawals_parts t.withdrawals,
)
