-- ===== src/Workers/Withdrawal/Retry.antt =====
-- backend/src/workers/withdrawal.rs, `tick`: passes whose executor fails.
use mathlib.Core.Option
use shuestand.Prelude.{
  String, ℕ, ◌+◌, ◌≡◌, none, some, List, [], ◌∷◌, Bool, coalesce, if◌then◌else◌, find_row,
  count_where,
}
use shuestand.Failure.{Failure, fail}
use shuestand.Runtime.{World, Externals}
use shuestand.Db.Tables.{Withdrawal, Tables}
use shuestand.Db.Withdrawals.{has_id}
use shuestand.Workers.Withdrawal.{WithdrawalExecutor, state_after_failure, tick_queued}

-- An executor that fails, whatever it is given, and leaves the database alone.
pub record Fails (executor : WithdrawalExecutor) : Type 0 where
  pub error : Withdrawal → World → Failure
  pub fails : (w : Withdrawal) (s : World) → (executor w s).0 ≡ fail (error w s)
  pub tables : (w : Withdrawal) (s : World) → (executor w s).1.tables ≡ s.tables
  pub links : (w : Withdrawal) (s : World) → (executor w s).1.links ≡ s.links

-- The one row with this id.
abbrev pub One : String → Withdrawal → List Withdrawal → Type 0
One id w ws = (find_row (has_id id) ws ≡ some w) × (count_where (has_id id) ws ≡ 1)

-- The row with this id is this one, in a world where the database is up.
abbrev Stands : String → Withdrawal → World → Type 0
Stands id w s = One id w s.tables.withdrawals × (s.links ≡ [])

-- The row with this id, after an attempt that failed.
record Retried (max_attempts : ℕ) (id : String) (w : Withdrawal) (s : World) : Type 0 where
  pub row : Withdrawal
  pub stands : Stands id row s
  pub state : row.state ≡ state_after_failure max_attempts w
  pub count : row.attempt_count ≡ w.attempt_count + 1

module _ (x : Externals) (notifies : Bool) (max_attempts now : ℕ) where
  -- What a failed attempt at the row `v` makes of a row.
  abbrev attempted : Withdrawal → Failure → Withdrawal → Withdrawal
  attempted v e w = record w {
    state = state_after_failure max_attempts v;
    token_value_sats = coalesce none w.token_value_sats;
    txid = coalesce none w.txid;
    error = some (x.describe e);
    last_attempt_at = some now;
    attempt_count = w.attempt_count + 1;
    updated_at = now;
  }

  abbrev after_attempt : Withdrawal → Failure → Withdrawal → Withdrawal
  after_attempt v e w = if has_id v.id w then attempted v e w else w

-- A number of passes, one at each time.
abbrev pub passes : Externals → WithdrawalExecutor → Bool → ℕ → List ℕ → World → World
passes x executor notifies max_attempts [] s = s
passes x executor notifies max_attempts (now ∷ times) s =
    passes x executor notifies max_attempts times
      (tick_queued x executor notifies max_attempts now s).1
