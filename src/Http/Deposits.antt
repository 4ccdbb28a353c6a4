-- ===== src/Http/Deposits.antt =====
-- backend/src/http.rs, `create_deposit`. The wallet's balance is `none` without a wallet, and
-- `some none` where the call fails; the pool's answer is AddressPool's `assign_address`, a parameter
-- here, as are the fresh texts.
pub mod Guards
pub mod Created
pub mod Laws
pub mod Pool
use shuestand.Prelude.{
  String, ℕ, ◌+◌, ◌-◌, ◌*◌, ◌/◌, Option, none, some, List, [], ◌∷◌, Bool, true, false, ◌||◌, not,
  ◌==◌, ltb, leb, if◌then◌else◌,
}
use shuestand.Failure.{
  ApiError, invalid_request, server_error, service_unavailable, too_many_requests, Checked, pass,
  fail, refused_with,
}
use shuestand.Run.{Run, lift, pure, raise, ◌>>=◌, ◌>>◌}
use shuestand.Db.States.Deposit.{pending, partial_payment_received, confirming}
use shuestand.Db.Tables.{second, Deposit, Session, Tables, Result, ok, err}
use shuestand.Db.Addresses.{PoolAddress}
use shuestand.Db.Deposits.{
  insert_deposit, expire_stale_pending_deposits, reserved_cashu_deposit_sats,
  count_deposits_for_session_states, count_deposits_by_states,
}
use shuestand.Http.Site.{
  Site, Handler, Settings, refuse, deny_if, served, statement, selected, session_of, require_normal,
  detect_burst, emit_security_alert, is_text, session_id_of,
}

pub record DepositRequest : Type 0 where
  pub amount_sats : ℕ
  pub delivery_hint : Option String
  pub metadata : Option String

-- backend/src/main.rs, `MAX_DEPOSIT_SATS`, and the limits of http.rs.
abbrev pub max_deposit_sats : ℕ
max_deposit_sats = 2000000

abbrev pub max_global_pending_deposits : ℕ
max_global_pending_deposits = 24

abbrev pub deposit_burst_threshold : ℕ
deposit_burst_threshold = 4

abbrev pub deposit_burst_window : ℕ
deposit_burst_window = 60

-- What the world outside answers to one request.
pub record DepositAnswers : Type 0 where
  pub balance : Option (Option ℕ)
  pub assign_address : String → Tables → Checked PoolAddress × Tables
  pub fresh_id : String
  pub fresh_pickup_token : String

-- The server goes on when the statement fails.
abbrev pub expire_stale : ℕ → ℕ → Handler (Unit {0})
expire_stale cutoff now s =
    (pass tt, record s { tables = (expire_stale_pending_deposits cutoff now s.tables).1 })

abbrev pub api_checked : {A : Type 0} → Checked A → Checked A
api_checked (pass a) = pass a
api_checked (fail e) = fail (refused_with server_error)

unfoldable pub assigned :
    (String → Tables → Checked PoolAddress × Tables) → String → Handler PoolAddress
assigned assign id s = let (r, t) = assign id s.tables in (api_checked r, record s { tables = t })

abbrev pub new_deposit :
    Settings → DepositAnswers → DepositRequest → Option Session → PoolAddress → ℕ → Deposit
new_deposit settings x req session address now = record {
  id = x.fresh_id;
  amount_sats = req.amount_sats;
  received_sats = 0;
  state = pending;
  address = address.address;
  target_confirmations = settings.deposit_target_confirmations;
  delivery_hint = none;
  metadata = req.metadata;
  txid = none;
  confirmations = 0;
  last_checked_at = none;
  created_at = now;
  updated_at = now;
  minted_token = none;
  session_id = session_id_of session;
  pickup_token = x.fresh_pickup_token;
  pickup_revealed_at = none;
  minted_amount_sats = none;
  token_ready_at = none;
  mint_attempt_count = 0;
  last_mint_attempt_at = none;
  mint_error = none;
  delivery_attempt_count = 0;
  last_delivery_attempt_at = none;
  delivery_error = none;
  transaction_counted_at = none;
}

module _ (settings : Settings) (x : DepositAnswers) (now : ℕ) where
  -- The cap on one deposit, from the float that is not reserved.
  unfoldable pub deposit_cap : Handler ℕ
  deposit_cap = do
    wallet ← served x.balance service_unavailable
    spendable ← served wallet server_error
    reserved ← selected reserved_cashu_deposit_sats
    pure (settings.single_request_cap_ratio (spendable - reserved))

  unfoldable pub within_cap : DepositRequest → Handler (Unit {0})
  within_cap req = do
    cap ← deposit_cap
    deny_if (cap == 0) service_unavailable
    deny_if (ltb cap settings.withdrawal_min_sats) service_unavailable
    deny_if (ltb cap req.amount_sats) invalid_request

  unfoldable pub below_burst : String → Option Session → Handler (Unit {0})
  below_burst client session = do
    count ←
        detect_burst (settings.join "deposit" client (session_id_of session)) deposit_burst_window
          (now / second)
    if leb deposit_burst_threshold count
        then (do emit_security_alert "deposit_burst_detected"; refuse too_many_requests)
        else pure tt

  abbrev pub session_below_limit : Option Session → Handler (Unit {0})
  session_below_limit none = pure tt
  session_below_limit (some session) = do
    count ← selected (
        count_deposits_for_session_states session.id
          (pending ∷ partial_payment_received ∷ confirming ∷ []))
    deny_if (leb settings.max_pending_deposits_per_session count) too_many_requests

  unfoldable pub below_limits : Option Session → Handler (Unit {0})
  below_limits session = do
    session_below_limit session
    count ←
        selected (count_deposits_by_states (pending ∷ partial_payment_received ∷ confirming ∷ []))
    deny_if (leb max_global_pending_deposits count) too_many_requests

  -- `presented` is the token of the headers, and `client` the hint of where the request is from.
  unfoldable pub create_deposit : Option (Option String) → String → DepositRequest → Handler Deposit
  create_deposit presented client req = do
    require_normal
    expire_stale (now - settings.pending_deposit_ttl) now
    deny_if (ltb req.amount_sats settings.deposit_min_sats || ltb max_deposit_sats req.amount_sats)
        invalid_request
    deny_if (is_text settings.trim req.delivery_hint) invalid_request
    within_cap req
    session ← session_of settings.session_ttl now presented
    below_burst client session
    below_limits session
    address ← assigned x.assign_address x.fresh_id
    let deposit = new_deposit settings x req session address now
    statement (insert_deposit deposit)
    pure deposit
