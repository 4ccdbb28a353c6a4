-- ===== src/Config.antt =====
-- backend/src/config.rs: the settings of the server from its environment. A variable is `none` where it
-- is not set or is no text, and `Duration`s are in seconds. Floating-point numbers are an argument.
pub mod Laws
use shuestand.Prelude.{
  String, ℕ, ◌+◌, ◌^◌, max, Option, none, some, List, [], ◌∷◌, Bool, true, false, not, ◌&&◌, ltb,
  str_eq, map, if◌then◌else◌, unwrap_or,
}
use shuestand.Prelude.Text.{
  Text, codes, is_empty, text_eq, trim, trim_end_matches, split, to_ascii_lowercase, parse_unsigned,
}
use mathlib.Core.Option

-- `f32` and `f64`: `parse`, the order, the test against the range from 0 to 1, and the literals.
pub record Floats : Type 1 where
  pub Float : Type 0
  pub parse : Text → Option Float
  pub gt : Float → Float → Bool
  pub in_unit : Float → Bool
  pub literal : String → Float

abbrev pub Env : Type 0
Env = String → Option Text

pub data Network : Type 0 where
  bitcoin testnet signet regtest : Network

-- `Option::filter` and `and_then`.
abbrev pub filter {ℓ} : {A : Type ℓ} → (A → Bool) → Option A → Option A
filter p none = none
filter p (some a) = if p a then some a else none

abbrev pub and_then {ℓ κ} : {A : Type ℓ} {B : Type κ} → Option A → (A → Option B) → Option B
and_then none f = none
and_then (some a) f = f a

abbrev pub lower : Text → Text
lower s = map to_ascii_lowercase (trim s)

-- `matches!` on a list of texts.
abbrev pub is_one_of : List String → Text → Bool
is_one_of [] s = false
is_one_of (x ∷ xs) s = if text_eq s (codes x) then true else is_one_of xs s

-- The lowercase forms of characters outside ASCII are none of the letters of these names.
abbrev pub network_of : Text → Option Network
network_of s =
    if is_one_of ("bitcoin" ∷ "mainnet" ∷ []) s
    then some bitcoin
    else if text_eq s (codes "testnet")
    then some testnet
    else if text_eq s (codes "signet")
    then some signet
    else if text_eq s (codes "regtest")
    then some regtest
    else none

unfoldable pub bitcoin_network : Env → Network
bitcoin_network env =
    unwrap_or (and_then (env "BITCOIN_NETWORK") (λ v. network_of (lower v))) regtest

-- A switch that is on unless it is said to be off, and one that is off unless it is said to be on.
abbrev pub off_words : List String
off_words = "0" ∷ "false" ∷ "off" ∷ []

abbrev pub on_words : List String
on_words = "1" ∷ "true" ∷ "yes" ∷ "on" ∷ []

unfoldable pub on_unless_off : Env → String → Bool
on_unless_off env name =
    unwrap_or (Option.map (λ v. not (is_one_of off_words (lower v))) (env name)) true

unfoldable pub off_unless_on : Env → String → Bool
off_unless_on env name = unwrap_or (Option.map (λ v. is_one_of on_words (lower v)) (env name)) false

-- A number below a bound, and a positive one, or else the default.
unfoldable pub number : Env → String → ℕ → Option ℕ
number env name bound = and_then (env name) (parse_unsigned bound)

unfoldable pub positive : Env → String → ℕ → ℕ → ℕ
positive env name bound default = unwrap_or (filter (λ v. ltb 0 v) (number env name bound)) default

abbrev pub u8 : ℕ
u8 = 2 ^ 8

abbrev pub u32 : ℕ
u32 = 2 ^ 32

abbrev pub u64 : ℕ
u64 = 2 ^ 64

-- One confirmation at the least.
unfoldable pub deposit_target_confirmations : Env → ℕ
deposit_target_confirmations env =
    unwrap_or (Option.map (λ v. max v 1) (number env "DEPOSIT_TARGET_CONFIRMATIONS" u8)) 3

unfoldable pub public_base_url : Env → Option Text
public_base_url env =
    filter (λ v. not (is_empty v))
      (Option.map (λ v. trim_end_matches b'/' (trim v)) (env "PUBLIC_BASE_URL"))

abbrev pub origins_of : List Text → List Text
origins_of [] = []
origins_of (p ∷ ps) = if is_empty (trim p) then origins_of ps else trim p ∷ origins_of ps

unfoldable pub cors_allowed_origins : Env → List Text
cors_allowed_origins env =
    unwrap_or (Option.map (λ raw. origins_of (split b',' raw)) (env "CORS_ALLOWED_ORIGINS")) []

pub record FeeEstimatorSettings (Float : Type 0) : Type 0 where
  pub rpc_url : Option Text
  pub rpc_user : Option Text
  pub rpc_password : Option Text
  pub refresh_interval : ℕ
  pub fast_target_blocks : ℕ
  pub economy_target_blocks : ℕ
  pub min_sat_per_vb : Float
  pub max_sat_per_vb : Float
  pub default_fast_sat_per_vb : Float
  pub default_economy_sat_per_vb : Float

pub record AppConfig (Float : Type 0) : Type 0 where
  pub bitcoin_descriptor : Option Text
  pub bitcoin_spend_descriptor : Option Text
  pub bitcoin_change_descriptor : Option Text
  pub bitcoin_network : Network
  pub esplora_base_url : Option Text
  pub bitcoin_electrum_url : Option Text
  pub bitcoin_electrum_socks5 : Option Text
  pub bitcoin_electrum_validate_domain : Bool
  pub address_pool_target : ℕ
  pub deposit_target_confirmations : ℕ
  pub withdrawal_target_confirmations : ℕ
  pub confirmation_poll_interval : ℕ
  pub withdrawal_worker_interval : ℕ
  pub withdrawal_worker_enabled : Bool
  pub withdrawal_worker_max_attempts : ℕ
  pub withdrawal_payout_fee_rate_vb : Float
  pub deposit_worker_interval : ℕ
  pub deposit_worker_enabled : Bool
  pub deposit_worker_max_attempts : ℕ
  pub cashu_mint_url : Option Text
  pub public_base_url : Option Text
  pub cashu_wallet_dir : Option Text
  pub wallet_api_token : Option Text
  pub float_target_sats : ℕ
  pub float_min_ratio : Float
  pub float_max_ratio : Float
  pub float_guard_interval : ℕ
  pub deposit_min_sats : ℕ
  pub withdrawal_min_sats : ℕ
  pub withdrawal_fee_buffer_sats : ℕ
  pub float_drift_alert_ratio : Float
  pub float_drift_alert_sats : ℕ
  pub single_request_cap_ratio : Float
  pub pending_deposit_ttl_secs : ℕ
  pub max_pending_deposits_per_session : ℕ
  pub float_alert_webhook_url : Option Text
  pub transaction_webhook_url : Option Text
  pub security_alert_webhook_url : Option Text
  pub trust_proxy_headers : Bool
  pub cors_allowed_origins : List Text
  pub fee_estimator : FeeEstimatorSettings Float

module _ (floats : Floats) where
  open floats use {Float, parse, gt, in_unit, literal}

  -- A ratio or rate above another, or else the default.
  unfoldable pub float_above : Env → String → Float → Float → Float
  float_above env name lower default =
      unwrap_or (filter (λ v. gt v lower) (and_then (env name) parse)) default

  unfoldable pub single_request_cap_ratio : Env → Float
  single_request_cap_ratio env =
      unwrap_or (filter in_unit (and_then (env "SINGLE_REQUEST_CAP_RATIO") parse)) (literal "0.5")

  unfoldable pub fee_estimator_settings : Env → Float → FeeEstimatorSettings Float
  fee_estimator_settings env payout_rate =
      let least = float_above env "FEE_ESTIMATOR_MIN_SAT_PER_VB" (literal "0.0") (literal "1.0") in
      record {
        rpc_url = env "BITCOIND_RPC_URL";
        rpc_user = env "BITCOIND_RPC_USER";
        rpc_password = env "BITCOIND_RPC_PASSWORD";
        refresh_interval = positive env "FEE_ESTIMATOR_REFRESH_SECS" u64 60;
        fast_target_blocks = positive env "FEE_ESTIMATOR_FAST_BLOCKS" u32 1;
        economy_target_blocks = positive env "FEE_ESTIMATOR_ECONOMY_BLOCKS" u32 3;
        min_sat_per_vb = least;
        max_sat_per_vb = float_above env "FEE_ESTIMATOR_MAX_SAT_PER_VB" least (literal "500.0");
        default_fast_sat_per_vb = payout_rate;
        default_economy_sat_per_vb = payout_rate;
      }

  unfoldable pub from_env : Env → AppConfig Float
  from_env env =
      let payout_rate =
        float_above env "WITHDRAWAL_PAYOUT_FEE_RATE_VB" (literal "0.0") (literal "2.0") in
      let least_ratio = float_above env "FLOAT_MIN_RATIO" (literal "0.0") (literal "0.5") in
      record {
        bitcoin_descriptor = env "BITCOIN_DESCRIPTOR";
        bitcoin_spend_descriptor = env "BITCOIN_SPEND_DESCRIPTOR";
        bitcoin_change_descriptor = env "BITCOIN_CHANGE_DESCRIPTOR";
        bitcoin_network = bitcoin_network env;
        esplora_base_url = env "BITCOIN_ESPLORA_BASE_URL";
        bitcoin_electrum_url = env "BITCOIN_ELECTRUM_URL";
        bitcoin_electrum_socks5 = env "BITCOIN_ELECTRUM_SOCKS5";
        bitcoin_electrum_validate_domain = on_unless_off env "BITCOIN_ELECTRUM_VALIDATE_DOMAIN";
        address_pool_target = positive env "ADDRESS_POOL_TARGET" u32 20;
        deposit_target_confirmations = deposit_target_confirmations env;
        withdrawal_target_confirmations = positive env "WITHDRAWAL_TARGET_CONFIRMATIONS" u8 1;
        confirmation_poll_interval = positive env "CONFIRMATION_POLL_INTERVAL_SECS" u64 30;
        withdrawal_worker_interval = positive env "WITHDRAWAL_WORKER_INTERVAL_SECS" u64 15;
        withdrawal_worker_enabled = on_unless_off env "WITHDRAWAL_WORKER_ENABLED";
        withdrawal_worker_max_attempts = positive env "WITHDRAWAL_WORKER_MAX_ATTEMPTS" u32 5;
        withdrawal_payout_fee_rate_vb = payout_rate;
        deposit_worker_interval = positive env "DEPOSIT_WORKER_INTERVAL_SECS" u64 10;
        deposit_worker_enabled = on_unless_off env "DEPOSIT_WORKER_ENABLED";
        deposit_worker_max_attempts = positive env "DEPOSIT_WORKER_MAX_ATTEMPTS" u32 5;
        cashu_mint_url = env "CASHU_MINT_URL";
        public_base_url = public_base_url env;
        cashu_wallet_dir = env "CASHU_WALLET_DIR";
        wallet_api_token = env "WALLET_API_TOKEN";
        float_target_sats = positive env "FLOAT_TARGET_SATS" u64 500000;
        float_min_ratio = least_ratio;
        float_max_ratio = float_above env "FLOAT_MAX_RATIO" least_ratio (literal "2.0");
        float_guard_interval = positive env "FLOAT_GUARD_INTERVAL_SECS" u64 30;
        deposit_min_sats = positive env "DEPOSIT_MIN_SATS" u64 50000;
        withdrawal_min_sats = positive env "WITHDRAWAL_MIN_SATS" u64 50000;
        withdrawal_fee_buffer_sats = unwrap_or (number env "WITHDRAWAL_FEE_BUFFER_SATS" u64) 500;
        float_drift_alert_ratio =
            float_above env "FLOAT_DRIFT_ALERT_RATIO" (literal "0.0") (literal "0.1");
        float_drift_alert_sats = unwrap_or (number env "FLOAT_DRIFT_ALERT_SATS" u64) 0;
        single_request_cap_ratio = single_request_cap_ratio env;
        pending_deposit_ttl_secs = positive env "PENDING_DEPOSIT_TTL_SECS" u64 600;
        max_pending_deposits_per_session = positive env "MAX_PENDING_DEPOSITS_PER_SESSION" u64 2;
        float_alert_webhook_url = env "FLOAT_ALERT_WEBHOOK_URL";
        transaction_webhook_url = env "TRANSACTION_WEBHOOK_URL";
        security_alert_webhook_url = env "SECURITY_ALERT_WEBHOOK_URL";
        trust_proxy_headers = off_unless_on env "TRUST_PROXY_HEADERS";
        cors_allowed_origins = cors_allowed_origins env;
        fee_estimator = fee_estimator_settings env payout_rate;
      }
