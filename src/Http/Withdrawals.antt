-- ===== src/Http/Withdrawals.antt =====
-- backend/src/http.rs, `request_withdrawal`. The wallets' answers are `none` without a wallet, and
-- `some none` where the call fails; the token library and the fresh texts are parameters.
pub mod Guards
pub mod Laws
use shuestand.Prelude.{
  String, ℕ, ◌+◌, ◌-◌, ◌*◌, ◌/◌, ◌^◌, ◌<◌, Option, none, some, List, [], ◌∷◌, Bool, true, false,
  ◌||◌, not, ◌==◌, ltb, leb, if◌then◌else◌, is_some,
}
use shuestand.Failure.{
  ApiError, invalid_request, server_error, service_unavailable, Checked, pass, fail,
}
use shuestand.Run.{Run, lift, pure, raise, ◌>>=◌, ◌>>◌}
use shuestand.Db.States.Withdrawal.{queued, funding}
use shuestand.Db.Tables.{second, Withdrawal, Session, Tables}
use shuestand.Db.Withdrawals.{insert_withdrawal, reserved_onchain_withdrawal_sats}
use shuestand.Http.Caps.{max_request_amount}
use shuestand.Http.Site.{
  Site, Handler, Settings, refuse, deny_if, served, statement, selected, session_of, require_normal,
  detect_burst, alert_if, is_blank, session_id_of,
}

pub record WithdrawalRequest : Type 0 where
  pub amount_sats : ℕ
  pub delivery_address : String
  pub max_fee_sats : Option ℕ
  pub token : Option String
  pub create_payment_request : Bool
  pub create_lightning_invoice : Bool

pub record LightningQuote : Type 0 where
  pub id : String
  pub request : String
  pub expiry : Option ℕ

-- `encode` is the payment request of an id, an amount, a mint, a base URL and a withdrawal, and
-- `has_wallet` whether the wallet of the canonical mint is configured.
pub record WithdrawalAnswers : Type 0 where
  pub balance : Option (Option ℕ)
  pub token_mint_url : String → Option String
  pub token_total_amount : String → Option ℕ
  pub encode : String → ℕ → String → String → String → Option String
  pub has_wallet : Bool
  pub mint_quote : ℕ → Option LightningQuote
  pub fresh_id : String
  pub fresh_payment_id : String

abbrev pub withdrawal_burst_window : ℕ
withdrawal_burst_window = 60

abbrev pub withdrawal_burst_threshold : ℕ
withdrawal_burst_threshold = 4

abbrev pub payment_request_ttl : ℕ
payment_request_ttl = 300 * second

-- `u64::checked_add`.
abbrev pub checked_add : ℕ → ℕ → Option ℕ
checked_add a b = if ltb (a + b) (2 ^ 64) then some (a + b) else none

-- `as_deref().map(str::trim).filter(|value| !value.is_empty())`.
abbrev pub token_raw : (String → String) → Option String → Option String
token_raw trim none = none
token_raw trim (some value) = if is_blank trim value then none else some (trim value)

abbrev pub one_if : Bool → ℕ
one_if b = if b then 1 else 0

abbrev pub funding_variant_count : Option String → WithdrawalRequest → ℕ
funding_variant_count token req =
    one_if (is_some token) + one_if req.create_payment_request + one_if req.create_lightning_invoice

-- The row before its funding is known.
abbrev pub new_withdrawal :
    (String → String) → String → WithdrawalRequest → Option String → Option String → ℕ → Withdrawal
new_withdrawal trim id req token session now = record {
  id = id;
  state = queued;
  delivery_address = trim req.delivery_address;
  max_fee_sats = req.max_fee_sats;
  requested_amount_sats = some req.amount_sats;
  token_value_sats = none;
  token = token;
  txid = none;
  error = none;
  last_attempt_at = none;
  attempt_count = 0;
  created_at = now;
  updated_at = now;
  token_consumed = false;
  session_id = session;
  swap_fee_sats = none;
  payment_request_id = none;
  payment_request_creq = none;
  payment_request_expires_at = none;
  payment_request_fulfilled_at = none;
  lightning_quote_id = none;
  lightning_invoice_request = none;
  lightning_invoice_expires_at = none;
  lightning_invoice_paid_at = none;
  transaction_counted_at = none;
}

abbrev pub quoted : ℕ → Handler (Unit {0})
quoted amount s = (pass tt, record s { quotes = amount ∷ s.quotes })

module _ (settings : Settings) (x : WithdrawalAnswers) (now : ℕ) where
  -- The cap on one request, from the balance that is not reserved.
  unfoldable pub within_cap : WithdrawalRequest → Handler (Unit {0})
  within_cap req = do
    wallet ← served x.balance service_unavailable
    raw_onchain ← served wallet server_error
    reserved ← selected reserved_onchain_withdrawal_sats
    let cap = max_request_amount settings.single_request_cap_ratio raw_onchain reserved
    deny_if (cap == 0) service_unavailable
    deny_if (ltb cap req.amount_sats) invalid_request

  -- A burst is told once, as it reaches the threshold, and not refused.
  unfoldable pub watch_burst : String → Option Session → Handler (Unit {0})
  watch_burst client session = do
    count ←
        detect_burst (settings.join "withdrawal" client (session_id_of session))
          withdrawal_burst_window (now / second)
    alert_if (count == withdrawal_burst_threshold) "withdrawal_burst_detected"

  -- A token that is presented.
  abbrev pub fund_by_token : WithdrawalRequest → String → Withdrawal → Handler Withdrawal
  fund_by_token req token w = do
    mint_url ← served (x.token_mint_url token) invalid_request
    amount ← served (x.token_total_amount token) invalid_request
    deny_if (ltb amount req.amount_sats) invalid_request
    alert_if (leb (3 * req.amount_sats) (2 * amount)) "withdrawal_token_ratio_anomaly"
    pure w

  -- A payment request to the canonical mint.
  abbrev pub fund_by_request : WithdrawalRequest → Withdrawal → Handler Withdrawal
  fund_by_request req w = do
    mint ← served settings.cashu_mint_url service_unavailable
    base_url ← served settings.public_base_url service_unavailable
    amount ←
        served (checked_add req.amount_sats settings.withdrawal_fee_buffer_sats) invalid_request
    encoded ← served (x.encode x.fresh_payment_id amount mint base_url w.id) server_error
    pure (record w {
      state = funding;
      payment_request_id = some x.fresh_payment_id;
      payment_request_creq = some encoded;
      payment_request_expires_at = some (now + payment_request_ttl);
    })

  -- A Lightning invoice of the canonical mint.
  abbrev pub fund_by_invoice : WithdrawalRequest → Withdrawal → Handler Withdrawal
  fund_by_invoice req w = do
    deny_if (not x.has_wallet) service_unavailable
    amount ←
        served (checked_add req.amount_sats settings.withdrawal_fee_buffer_sats) invalid_request
    quoted amount
    quote ← served (x.mint_quote amount) server_error
    pure (record w {
      state = funding;
      lightning_quote_id = some quote.id;
      lightning_invoice_request = some quote.request;
      lightning_invoice_expires_at = quote.expiry;
    })

  unfoldable pub funded : WithdrawalRequest → Withdrawal → Option String → Handler Withdrawal
  funded req w (some token) = fund_by_token req token w
  funded req w none =
      if req.create_payment_request
      then fund_by_request req w
      else if req.create_lightning_invoice
      then fund_by_invoice req w
      else refuse invalid_request

  unfoldable pub request_withdrawal :
      Option (Option String) → String → WithdrawalRequest → Handler Withdrawal
  request_withdrawal presented client req = do
    require_normal
    deny_if (req.amount_sats == 0) invalid_request
    deny_if (ltb req.amount_sats settings.withdrawal_min_sats) invalid_request
    deny_if (is_blank settings.trim req.delivery_address) invalid_request
    let token = token_raw settings.trim req.token
    deny_if (funding_variant_count token req == 0) invalid_request
    deny_if (ltb 1 (funding_variant_count token req)) invalid_request
    session ← session_of settings.session_ttl now presented
    watch_burst client session
    within_cap req
    w ←
        funded req (new_withdrawal settings.trim x.fresh_id req token (session_id_of session) now)
          token
    statement (insert_withdrawal w)
    pure w
