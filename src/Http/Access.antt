-- ===== src/Http/Access.antt =====
-- backend/src/http.rs: the operator's token, `require_operator_token`, and the handlers that only read
-- or set what it guards. Headers are `none` where they are missing or no text.
pub mod Laws
use shuestand.Prelude.{String, ℕ, ◌/◌, Option, none, some, Bool, [], ◌==◌, if◌then◌else◌}
use shuestand.Prelude.Text.{Text, codes, strip_prefix, text_eq}
use shuestand.Failure.{unauthorized, service_unavailable}
use shuestand.Run.{pure, ◌>>=◌, ◌>>◌}
use shuestand.Operations.{OperationMode}
use shuestand.Config.{AppConfig}
use shuestand.Db.Tables.{second}
use shuestand.Db.Settings.{transaction_counter}
use shuestand.Http.Client.{ClientHeaders, request_client_hint}
use shuestand.Http.Site.{Handler, refuse, served, selected, detect_burst, alert_if}
use shuestand.Http.Escalation.{current_operation_mode, set_operation_mode}

-- `bucket_key` builds the key of a bucket from its scope and the client.
pub record AccessSettings : Type 0 where
  pub wallet_api_token : Option Text
  pub trust_proxy_headers : Bool
  pub bucket_key : String → Text → String

-- The fields of the state that the server starts with.
unfoldable pub access_settings :
    {Float : Type 0} → AppConfig Float → (String → Text → String) → AccessSettings
access_settings config bucket_key = record {
  wallet_api_token = config.wallet_api_token;
  trust_proxy_headers = config.trust_proxy_headers;
  bucket_key = bucket_key;
}

pub record OperatorHeaders : Type 0 where
  pub authorization : Option Text
  pub client : ClientHeaders

abbrev pub operator_401_window : ℕ
operator_401_window = 60

abbrev pub operator_401_threshold : ℕ
operator_401_threshold = 20

-- The token after `Bearer `, or the empty text.
unfoldable pub provided : Option Text → Text
provided none = []
provided (some raw) = elim (strip_prefix (codes "Bearer ") raw) [ none ↦ [] | some token ↦ token ]

module _ (settings : AccessSettings) (headers : OperatorHeaders) (now : ℕ) where
  -- What a wrong token leads to.
  unfoldable pub turned_away : Handler (Unit {0})
  turned_away = do
    burst_count ←
        detect_burst
          (settings.bucket_key "operator401"
            (request_client_hint settings.trust_proxy_headers headers.client))
          operator_401_window (now / second)
    alert_if (burst_count == operator_401_threshold) "operator_auth_401_burst"
    refuse unauthorized

  unfoldable pub require_operator_token : Handler (Unit {0})
  require_operator_token = do
    token ← served settings.wallet_api_token service_unavailable
    if text_eq (provided headers.authorization) token then pure tt else turned_away

  unfoldable pub get_operation_mode : Handler OperationMode
  get_operation_mode = do require_operator_token; current_operation_mode

  unfoldable pub update_operation_mode : OperationMode → Handler OperationMode
  update_operation_mode mode = do require_operator_token; set_operation_mode mode; pure mode

  unfoldable pub get_transaction_counter : Handler ℕ
  get_transaction_counter = do require_operator_token; selected transaction_counter
