-- ===== src/Db/Stats.antt =====
-- backend/src/db.rs, `transaction_stats_since`: what was counted in a window of time.
use shuestand.Prelude.{
  ℕ, ◌+◌, ◌≤◌, Option, none, some, Bool, true, false, ◌&&◌, leb, arith, ◌≡◌, coalesce, unwrap_or,
  count_where, sum_where, count_where-weaken, sum_where-weaken,
}
use shuestand.Db.States.Deposit as DepositStates
use shuestand.Db.States.Withdrawal as WithdrawalStates
use shuestand.Db.Tables.{Deposit, Withdrawal, Tables}

pub record TransactionStats : Type 0 where
  pub tx_count : ℕ
  pub c_to_b_sats : ℕ
  pub b_to_c_sats : ℕ

-- IS NOT NULL AND … >= since.
abbrev pub counted_since : ℕ → Option ℕ → Bool
counted_since since none = false
counted_since since (some at) = leb since at

abbrev pub settled_since : ℕ → Withdrawal → Bool
settled_since since w =
    WithdrawalStates.same w.state WithdrawalStates.settled
    && counted_since since w.transaction_counted_at

abbrev pub fulfilled_since : ℕ → Deposit → Bool
fulfilled_since since d =
    DepositStates.same d.state DepositStates.fulfilled
    && counted_since since d.transaction_counted_at

-- COALESCE(token_value_sats, requested_amount_sats, 0).
abbrev pub settled_value : Withdrawal → ℕ
settled_value w = unwrap_or (coalesce w.token_value_sats w.requested_amount_sats) 0

unfoldable pub transaction_stats_since : ℕ → Tables → TransactionStats
transaction_stats_since since t = record {
  tx_count =
      count_where (settled_since since) t.withdrawals
      + count_where (fulfilled_since since) t.deposits;
  c_to_b_sats = sum_where (settled_since since) settled_value t.withdrawals;
  b_to_c_sats = sum_where (fulfilled_since since) (λ d. d.amount_sats) t.deposits;
}

settled_earlier :
    (since earlier : ℕ) (w : Withdrawal)
    → earlier ≤ since
    → settled_since since w ≡ true
    → settled_since earlier w ≡ true
settled_earlier since earlier w le h = ground arith

fulfilled_earlier :
    (since earlier : ℕ) (d : Deposit)
    → earlier ≤ since
    → fulfilled_since since d ≡ true
    → fulfilled_since earlier d ≡ true
fulfilled_earlier since earlier d le h = ground arith

-- A window that reaches further back counts no less, in any of its three numbers.
pub wider_counts_more :
    (since earlier : ℕ) (t : Tables)
    → earlier ≤ since
    → let narrow = transaction_stats_since since t in
      let wide = transaction_stats_since earlier t in
      (narrow.tx_count ≤ wide.tx_count)
      × (narrow.c_to_b_sats ≤ wide.c_to_b_sats)
      × (narrow.b_to_c_sats ≤ wide.b_to_c_sats)
unfolding transaction_stats_since
wider_counts_more since earlier t le =
    let settled = λ (w : Withdrawal). settled_earlier since earlier w le in
    let fulfilled = λ (d : Deposit). fulfilled_earlier since earlier d le in
    (
      omega (
        arith,
        count_where-weaken (settled_since since) (settled_since earlier) t.withdrawals settled,
        count_where-weaken (fulfilled_since since) (fulfilled_since earlier) t.deposits fulfilled,
      ),
      sum_where-weaken (settled_since since) (settled_since earlier) settled_value t.withdrawals
          settled,
      sum_where-weaken (fulfilled_since since) (fulfilled_since earlier) (λ d. d.amount_sats)
          t.deposits fulfilled,
    )
