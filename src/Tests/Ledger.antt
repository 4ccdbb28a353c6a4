-- ===== src/Tests/Ledger.antt =====
-- The ledger and the operator's token at fixed inputs.
use shuestand.Db.States.Deposit.{one_of}
use shuestand.Prelude.{update_where}
use shuestand.Db.Deposits.{expire_stale_pending_deposits}
use shuestand.Prelude.Text.{strip_prefix}
use shuestand.Prelude.Text.{text_eq}
use shuestand.Prelude.{ℕ, ◌≡◌, ◌↔◌, refl, none, some, [], ◌∷◌, false}
use shuestand.Prelude.Text.{codes}
use shuestand.Failure.{pass}
use shuestand.Run.{◌>>=◌}
use shuestand.Operations.{normal}
use shuestand.Config.Laws.{IsUsable, from_env-IsUsable}
use shuestand.Config.{Floats, Env, from_env}
use shuestand.Db.Tables.{Tables}
use shuestand.Db.States.Deposit.{pending, ready}
use shuestand.Db.States.Withdrawal.{queued, funding}
use shuestand.Http.Site.{Site, selected}
use shuestand.Http.Access.{
  AccessSettings, OperatorHeaders, access_settings, provided, require_operator_token,
}
use shuestand.Http.Access.Laws.{Untouched, require_operator_token_iff, empty_token_open}
use shuestand.Http.Ledger.{
  LedgerSettings, LedgerSnapshot, BalanceSummary, CashuWallet, get_ledger_snapshot, cashu_ledger,
  onchain_ledger, snapshot_of, onchain_assets, cashu_assets,
}
use shuestand.Http.Ledger.Laws.{Agrees, get_ledger_snapshot-Agrees}
use shuestand.Db.Ledger.{ledger_deposit_liabilities, ledger_withdrawal_liabilities}
use shuestand.Tests.Data.{some_deposit, some_withdrawal, tables_of}

abbrev access : AccessSettings
access = record {
  wallet_api_token = some (codes "secret");
  trust_proxy_headers = false;
  bucket_key = λ scope client. scope;
}

abbrev anonymous : OperatorHeaders
anonymous = record {
  authorization = none;
  client = record { forwarded_for = none; real_ip = none };
}

abbrev operator : OperatorHeaders
operator = record anonymous { authorization = some (codes "Bearer secret") }

abbrev site_of : Tables → Site
site_of t = record {
  tables = t;
  operation_mode = normal;
  buckets = λ key. [];
  alerts = [];
  quotes = [];
}

require_operator_token_iff_example :
    (((require_operator_token access operator 0 (site_of (tables_of [] []))).0 ≡ pass tt)
      ↔ (access.wallet_api_token ≡ some (provided operator.authorization)))
    × Untouched
        (site_of (tables_of [] []))
        (require_operator_token access operator 0 (site_of (tables_of [] []))).1
require_operator_token_iff_example =
    require_operator_token_iff access operator 0 (site_of (tables_of [] []))

abbrev whole : Floats
whole = record {
  Float = ℕ;
  parse = λ s. none;
  gt = λ a b. false;
  in_unit = λ a. false;
  literal = λ s. 0;
}

-- The variable is set to nothing.
abbrev blank_token : Env
blank_token name = some []

empty_token_open_example :
    (require_operator_token
      (access_settings (from_env whole blank_token) (λ scope client. scope))
      anonymous
      0
      (site_of (tables_of [] []))).0
    ≡ pass tt
empty_token_open_example =
    empty_token_open whole blank_token (λ scope client. scope) anonymous 0
      (site_of (tables_of [] [])) refl refl

abbrev ledger_settings : LedgerSettings
ledger_settings = record { access = access; pending_deposit_ttl = 10; float_target_sats = 500000 }

abbrev rows : Tables
rows =
    tables_of (some_deposit pending none ∷ some_deposit ready none ∷ [])
      (some_withdrawal queued 7000 ∷ some_withdrawal funding 3000 ∷ [])

abbrev summary : BalanceSummary
summary = record { confirmed = 80000; trusted_pending = 5000; untrusted_pending = 0; immature = 0 }

abbrev purse : CashuWallet
purse = record {
  total_balance = some 90000;
  total_pending_balance = some 0;
  total_reserved_balance = some 0;
}

abbrev snapshot : LedgerSnapshot
snapshot =
    snapshot_of 100 500000
      (cashu_ledger
        (record { spendable = 90000; pending = 0; reserved = 0; available_sats = 90000 })
        (ledger_deposit_liabilities rows))
      (onchain_ledger
        (record {
          confirmed = 80000;
          trusted_pending = 5000;
          untrusted_pending = 0;
          immature = 0;
          available_sats = 85000;
        })
        (ledger_withdrawal_liabilities rows))

get_ledger_snapshot-Agrees_example :
    Agrees snapshot
      (get_ledger_snapshot ledger_settings operator 100
        (some (some summary))
        (some purse)
        (site_of rows)).1.tables
unfolding get_ledger_snapshot require_operator_token onchain_assets cashu_assets selected ◌>>=◌
    provided text_eq strip_prefix expire_stale_pending_deposits update_where one_of
get_ledger_snapshot-Agrees_example =
    get_ledger_snapshot-Agrees ledger_settings operator 100 (some (some summary)) (some purse)
      (site_of rows) snapshot refl

from_env-IsUsable_example : IsUsable (from_env whole blank_token)
from_env-IsUsable_example = from_env-IsUsable whole blank_token
