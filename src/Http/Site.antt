-- ===== src/Http/Site.antt =====
-- backend/src/http.rs: what the handlers that create rows act on, and the guards they share. An
-- answer that is an error keeps what the handler did before it.
pub mod Keeps
pub mod Any
use shuestand.Prelude.{
  String, ℕ, ◌+◌, ◌-◌, ◌*◌, Option, none, some, List, [], ◌∷◌, ◌++◌, Bool, true, false, not, ◌==◌,
  ltb, leb, str_eq, if◌then◌else◌, length, select,
}
use shuestand.Failure.{
  ApiError, server_error, service_unavailable, Failure, refused_with, Checked, pass, fail,
}
use shuestand.Run.{Run, lift, pure, raise, ◌>>=◌, ◌>>◌}
use shuestand.Operations.{OperationMode, normal, drain, halt}
use shuestand.Db.Tables.{second, Session, Tables, Result, ok, err}
use shuestand.Http.{ApiResult, answer, refusal}
use shuestand.Http.Sessions.{resolve_session}

-- The database, the mode that the server holds in memory, the buckets of `detect_burst`, whose
-- times are in seconds, the alerts emitted, newest first, and the amounts of the Lightning quotes.
pub record Site : Type 0 where
  pub tables : Tables
  pub operation_mode : OperationMode
  pub buckets : String → List ℕ
  pub alerts : List String
  pub quotes : List ℕ

abbrev pub Handler : Type 0 → Type 0
Handler A = Run Site A

abbrev pub refuse : {A : Type 0} → ApiError → Handler A
refuse e = raise (refused_with e)

-- An early return of an error under a test.
abbrev pub denied : Bool → ApiError → Checked (Unit {0})
denied b e = if b then fail (refused_with e) else pass tt

abbrev pub deny_if : Bool → ApiError → Handler (Unit {0})
deny_if b e = lift (denied b e)

-- A call that may fail, as `map_err(server_error)?`, and a setting that may be missing.
abbrev pub served : {A : Type 0} → Option A → ApiError → Handler A
served none e = refuse e
served (some a) e = pure a

abbrev pub answered_of : {A : Type 0} → Result A → Checked A
answered_of (ok a) = pass a
answered_of (err e) = fail (refused_with server_error)

-- A statement of the database, and a SELECT.
unfoldable pub statement : {A : Type 0} → (Tables → Result A × Tables) → Handler A
statement st s = let (r, t) = st s.tables in (answered_of r, record s { tables = t })

unfoldable pub selected : {A : Type 0} → (Tables → A) → Handler A
selected f s = (pass (f s.tables), s)

abbrev pub checked_of : {A : Type 0} → ApiResult A → Checked A
checked_of (answer a) = pass a
checked_of (refusal e) = fail (refused_with e)

unfoldable pub session_of : ℕ → ℕ → Option (Option String) → Handler (Option Session)
session_of ttl now presented s =
    let (r, t) = resolve_session ttl now presented s.tables in
    (checked_of r, record s { tables = t })

abbrev pub is_normal : OperationMode → Bool
is_normal normal = true
is_normal drain = false
is_normal halt = false

unfoldable pub require_normal : Handler (Unit {0})
require_normal s =
    ((if is_normal s.operation_mode then pass tt else fail (refused_with service_unavailable)), s)

-- `now` is in nanoseconds, the buckets in seconds.
unfoldable pub detect_burst : String → ℕ → ℕ → Handler ℕ
detect_burst bucket window now s =
    let entries = select (λ ts. leb (now - window) ts) (s.buckets bucket) ++ now ∷ [] in
    (
      pass (length entries),
      record s { buckets = λ k. if str_eq k bucket then entries else s.buckets k },
    )

-- The task that `emit_security_alert` spawns is a step of its own, Http/Escalation.
unfoldable pub emit_security_alert : String → Handler (Unit {0})
emit_security_alert kind s = (pass tt, record s { alerts = kind ∷ s.alerts })

unfoldable pub alert_if : Bool → String → Handler (Unit {0})
alert_if b kind = if b then emit_security_alert kind else pure tt

-- The settings of the server. `single_request_cap_ratio` is the product with the ratio, rounded
-- down, and `join` builds the key of a bucket from its scope, the client and the session.
pub record Settings : Type 0 where
  pub deposit_min_sats : ℕ
  pub withdrawal_min_sats : ℕ
  pub withdrawal_fee_buffer_sats : ℕ
  pub deposit_target_confirmations : ℕ
  pub max_pending_deposits_per_session : ℕ
  pub pending_deposit_ttl : ℕ
  pub session_ttl : ℕ
  pub single_request_cap_ratio : ℕ → ℕ
  pub cashu_mint_url : Option String
  pub public_base_url : Option String
  pub join : String → String → Option String → String
  pub trim : String → String

abbrev pub is_blank : (String → String) → String → Bool
is_blank trim value = str_eq (trim value) ""

abbrev pub is_text : (String → String) → Option String → Bool
is_text trim none = false
is_text trim (some value) = not (is_blank trim value)

abbrev pub session_id_of : Option Session → Option String
session_id_of none = none
session_id_of (some s) = some s.id
