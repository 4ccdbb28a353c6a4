-- ===== src/Http/Stats.antt =====
-- backend/src/http.rs, `get_transaction_stats`: the counted transactions of three windows. The clock
-- is read once for each; a window that starts before the first of times starts there.
use shuestand.Prelude.{String, ℕ, ◌-◌, ◌*◌, List, [], ◌∷◌}
use shuestand.Run.{pure, ◌>>=◌, ◌>>◌}
use shuestand.Db.Tables.{second}
use shuestand.Db.Stats.{TransactionStats, transaction_stats_since}
use shuestand.Http.Site.{Handler, selected}
use shuestand.Http.Access.{AccessSettings, OperatorHeaders, require_operator_token}

abbrev pub hours : ℕ → ℕ
hours n = n * 3600 * second

-- The loop, over each label with its duration and the time that is read for it.
unfoldable pub read_windows : List (String × ℕ × ℕ) → Handler (List (String × TransactionStats))
read_windows [] = pure []
read_windows ((label, duration, now) ∷ rest) = do
  stats ← selected (transaction_stats_since (now - duration))
  windows ← read_windows rest
  pure ((label, stats) ∷ windows)

unfoldable pub get_transaction_stats :
    AccessSettings → OperatorHeaders → ℕ → ℕ → ℕ → ℕ → Handler (List (String × TransactionStats))
get_transaction_stats settings headers asked at_day at_week at_month = do
  require_operator_token settings headers asked
  read_windows
      (("24h", hours 24, at_day) ∷ ("7d", hours 168, at_week) ∷ ("30d", hours 720, at_month) ∷ [])
