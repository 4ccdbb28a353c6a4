-- ===== src/Http/Start.antt =====
-- backend/src/http.rs, `start_session` and `resume_session`: how a client gets its token, and gets it
-- back for the claim code.
pub mod Laws
use shuestand.Prelude.{String, ℕ, ◌+◌, ◌/◌, Option, none, some, Bool, ◌++◌, leb, ltb, if◌then◌else◌}
use shuestand.Prelude.Text.{Text}
use shuestand.Failure.{
  Checked, pass, fail, refused_with, invalid_request, server_error, too_many_requests,
}
use shuestand.Run.{lift, pure, ◌>>=◌, ◌>>◌}
use shuestand.Db.Tables.{second, Session, Result, ok, err, DbError, row_not_found}
use shuestand.Db.Settings.{
  create_session, delete_expired_sessions, fetch_session_by_token_hash, touch_session,
}
use shuestand.Http.Client.{ClientHeaders, request_client_hint, client_subnet_hint}
use shuestand.Http.Codes.{session_token_prefix, claim_code_from_token_payload, normalize_claim_code}
use shuestand.Http.Site.{
  Handler, refuse, deny_if, served, statement, selected, detect_burst, emit_security_alert,
}

-- `bucket_key` builds the key of a bucket from its scope and the client.
pub record SessionSettings : Type 0 where
  pub session_ttl : ℕ
  pub trust_proxy_headers : Bool
  pub bucket_key : String → Text → String
  -- SHA-256 of the token, in hexadecimal.
  pub hash_session_token : Text → String

-- What the generators of the call draw: the session's id, and the hexadecimal text of 16 bytes.
pub record Drawn : Type 0 where
  pub id : String
  pub payload : Text

-- `SessionStartResponse` and `SessionResumeResponse`.
pub record SessionStart : Type 0 where
  pub session_id : String
  pub token : Text
  pub claim_code : Text
  pub expires_at : ℕ

abbrev pub session_burst_window : ℕ
session_burst_window = 300

abbrev pub session_burst_threshold_per_ip : ℕ
session_burst_threshold_per_ip = 6

abbrev pub session_burst_threshold_per_subnet : ℕ
session_burst_threshold_per_subnet = 12

-- A failure of the sweep is logged, and the handler goes on.
abbrev pub purge : ℕ → Handler (Unit {0})
purge now s = (pass tt, record s { tables = (delete_expired_sessions now s.tables).1 })

-- The row that is looked up by its hash.
abbrev pub found_of : Result Session → Checked Session
found_of (ok session) = pass session
found_of (err row_not_found) = fail (refused_with invalid_request)
found_of (err _) = fail (refused_with server_error)

module _ (settings : SessionSettings) (now : ℕ) where
  unfoldable pub below_threshold : String → Text → ℕ → Handler (Unit {0})
  below_threshold scope key threshold = do
    count ← detect_burst (settings.bucket_key scope key) session_burst_window (now / second)
    if leb threshold count
        then (do emit_security_alert "session_start_burst_detected"; refuse too_many_requests)
        else pure tt

  unfoldable pub below_subnet_threshold : Option Text → Handler (Unit {0})
  below_subnet_threshold none = pure tt
  below_subnet_threshold (some subnet) =
      below_threshold "session_start_subnet" subnet session_burst_threshold_per_subnet

  abbrev pub new_session : Drawn → Session
  new_session drawn = record {
    id = drawn.id;
    token_hash = settings.hash_session_token (session_token_prefix ++ drawn.payload);
    created_at = now;
    last_seen_at = now;
    expires_at = now + settings.session_ttl;
  }

  -- What a client is told of a session, under the payload of its token.
  abbrev pub told : String → Text → SessionStart
  told id payload = record {
    session_id = id;
    token = session_token_prefix ++ payload;
    claim_code = claim_code_from_token_payload payload;
    expires_at = now + settings.session_ttl;
  }

  unfoldable pub start_session : ClientHeaders → Drawn → Handler SessionStart
  start_session headers drawn = do
    let client_hint = request_client_hint settings.trust_proxy_headers headers
    below_threshold "session_start" client_hint session_burst_threshold_per_ip
    below_subnet_threshold (client_subnet_hint client_hint)
    purge now
    statement (create_session (new_session drawn))
    pure (told drawn.id drawn.payload)

  unfoldable pub resume_session : Text → Handler SessionStart
  resume_session claim_code = do
    purge now
    normalized ← served (normalize_claim_code claim_code) invalid_request
    let token = session_token_prefix ++ normalized
    found ← selected (fetch_session_by_token_hash (settings.hash_session_token token))
    session ← lift (found_of found)
    deny_if (ltb session.expires_at now) invalid_request
    statement (touch_session session.id now (now + settings.session_ttl))
    pure (told session.id normalized)
