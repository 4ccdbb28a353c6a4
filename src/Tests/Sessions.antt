-- ===== src/Tests/Sessions.antt =====
-- Sessions at fixed inputs.
use shuestand.Prelude.{◌≡◌, refl, none, some, [], ◌∷◌, find_row, exists_row}
use shuestand.Db.Tables.{Session, Deposit, Tables}
use shuestand.Db.States.Deposit.{confirming}
use shuestand.Db.Deposits.{fetch_deposit}
use shuestand.Db.Settings.{delete_expired_sessions, fetch_session_by_token_hash, touch_session}
use shuestand.Http.{answer, refusal, unauthorized}
use shuestand.Http.Sessions.{
  get_deposit, resolve_session, admit, show_row, read_row, ensure_session_access, Presents,
  get_deposit_owner, swept_deposit_open,
}
use shuestand.Tests.Data.{some_deposit, tables_of}

abbrev owned : Deposit
owned = record (some_deposit confirming none) { session_id = some "ses_1" }

abbrev session : Session
session = record {
  id = "ses_1";
  token_hash = "h1";
  created_at = 100;
  last_seen_at = 100;
  expires_at = 500;
}

abbrev visited : Tables
visited = record (tables_of (owned ∷ []) []) { sessions = session ∷ [] }

get_deposit_owner_example : Presents 300 (some (some "h1")) "ses_1" visited
unfolding get_deposit read_row resolve_session admit show_row ensure_session_access fetch_deposit
    find_row fetch_session_by_token_hash touch_session
get_deposit_owner_example =
    get_deposit_owner 1000 300 (some (some "h1")) "dep_1" "ses_1" visited owned refl refl

swept_deposit_open_example :
    ((get_deposit 1000 600 none "dep_1" visited).0 ≡ refusal unauthorized)
    × ((get_deposit 1000 600 none "dep_1" (delete_expired_sessions 600 visited).1).0
        ≡ answer (some_deposit confirming none))
unfolding find_row exists_row
swept_deposit_open_example =
    swept_deposit_open 1000 600 "dep_1" "ses_1" visited owned refl refl refl
