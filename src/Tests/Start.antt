-- ===== src/Tests/Start.antt =====
-- Sessions, codes and clients at fixed inputs.
use shuestand.Prelude.{delete_where}
use shuestand.Db.Settings.{delete_expired_sessions}
use shuestand.Prelude.{exists_row}
use shuestand.Db.Settings.{create_session}
use shuestand.Http.Site.{statement}
use shuestand.Prelude.Text.{parse_unsigned}
use shuestand.Prelude.{select}
use shuestand.Http.Site.{detect_burst}
use shuestand.Prelude.Text.{is_whitespace}
use shuestand.Prelude.Text.{trim}
use shuestand.Prelude.Text.{split}
use shuestand.Http.Client.{forwarded}
use shuestand.Prelude.{◌≡◌, refl, arith, none, some, [], true}
use shuestand.Prelude.Text.{Text, codes}
use shuestand.Failure.{pass}
use shuestand.Run.{◌>>=◌}
use shuestand.Operations.{normal}
use shuestand.Http.Site.{Site}
use shuestand.Http.Client.{ClientHeaders, request_client_hint, client_subnet_hint}
use shuestand.Http.Codes.{claim_code_from_token_payload, normalize_claim_code}
use shuestand.Http.Codes.Loop.{IsPayload}
use shuestand.Http.Codes.Laws.{normalize_claim_code-claim_code}
use shuestand.Http.Start.{
  SessionSettings, Drawn, told, start_session, resume_session, below_threshold,
  below_subnet_threshold,
}
use shuestand.Http.Start.Laws.{resume_started}
use shuestand.Tests.Data.{tables_of}

abbrev settings : SessionSettings
settings = record {
  session_ttl = 1000;
  trust_proxy_headers = true;
  bucket_key = λ scope client. scope;
  hash_session_token = λ token. "hash";
}

abbrev headers : ClientHeaders
headers = record { forwarded_for = some (codes " 203.0.113.7, 10.0.0.1"); real_ip = none }

abbrev payload : Text
payload = codes "0123456789abcdef0123456789abcdef"

abbrev drawn : Drawn
drawn = record { id = "sess_1"; payload = payload }

abbrev quiet : Site
quiet = record {
  tables = tables_of [] [];
  operation_mode = normal;
  buckets = λ key. [];
  alerts = [];
  quotes = [];
}

payload-IsPayload : IsPayload payload
payload-IsPayload = ground arith

hint_run : request_client_hint true headers ≡ codes "203.0.113.7"
unfolding request_client_hint forwarded split trim is_whitespace
hint_run = refl

code_run : claim_code_from_token_payload payload ≡ codes "01234567-89ABCDEF-01234567-89ABCDEF"
unfolding claim_code_from_token_payload
code_run = refl

normalize_claim_code-claim_code_example :
    normalize_claim_code (claim_code_from_token_payload payload) ≡ some payload
normalize_claim_code-claim_code_example = normalize_claim_code-claim_code payload payload-IsPayload

resume_started_example :
    (resume_session settings 600
      (claim_code_from_token_payload payload)
      (start_session settings 100 headers drawn quiet).1).0
    ≡ pass (record (told settings 100 "sess_1" payload) { expires_at = 1600 })
unfolding start_session below_threshold below_subnet_threshold ◌>>=◌ detect_burst select
    client_subnet_hint split request_client_hint forwarded trim is_whitespace parse_unsigned
    statement create_session exists_row delete_expired_sessions delete_where
resume_started_example =
    resume_started settings 100 600 headers drawn (told settings 100 "sess_1" payload) quiet
      payload-IsPayload refl (omega arith)
