-- ===== src/Db/Settings.antt =====
-- backend/src/db.rs: the operation mode and the transaction counter in `app_settings`, sessions and
-- security events. `now` is the clock's answer.
use shuestand.Prelude.{
  ◌≡◌, String, ℕ, ◌+◌, ◌-◌, ◌*◌, Option, none, some, List, ◌∷◌, Bool, false, ◌&&◌, str_eq, ltb, leb,
  if◌then◌else◌, unwrap_or, find_row, update_where, count_where, delete_where, exists_row,
}
use shuestand.Operations.{OperationMode, normal, as_str, from_str, from_str-as_str}
use shuestand.Db.Tables.{second, Session, Tables, Result, ok, err, row_not_found, unique_violation}

-- A text that is no mode reads as normal. The trim of the text is left out: what is stored is
-- `as_str` of a mode, which has no blanks.
unfoldable pub load_operation_mode : Tables → OperationMode
load_operation_mode t = elim t.operation_mode [
  | none ↦ normal
  | some value ↦ unwrap_or (from_str value) normal
]

unfoldable pub persist_operation_mode : OperationMode → Tables → Result (Unit {0}) × Tables
persist_operation_mode mode t = (ok tt, record t { operation_mode = some (as_str mode) })

-- A mode that is stored is the mode that is read, after the trip through its text.
pub load-persist :
    (m : OperationMode) (t : Tables) → load_operation_mode (persist_operation_mode m t).1 ≡ m
unfolding load_operation_mode persist_operation_mode
load-persist m t = rw (from_str-as_str m)

-- INSERT '1', or add one to what is there.
unfoldable pub increment_transaction_counter : Tables → Result ℕ × Tables
increment_transaction_counter t =
    let next : ℕ = elim t.transaction_counter [ none ↦ 1 | some n ↦ n + 1 ] in
    (ok next, record t { transaction_counter = some next })

unfoldable pub transaction_counter : Tables → ℕ
transaction_counter t = unwrap_or t.transaction_counter 0

abbrev pub has_hash : String → Session → Bool
has_hash h s = str_eq s.token_hash h

abbrev pub has_id : String → Session → Bool
has_id id s = str_eq s.id id

-- `id` is the primary key, and `token_hash` is unique.
unfoldable pub create_session : Session → Tables → Result (Unit {0}) × Tables
create_session s t =
    if exists_row (has_id s.id) t.sessions
    then (err unique_violation, t)
    else if exists_row (has_hash s.token_hash) t.sessions
    then (err unique_violation, t)
    else (ok tt, record t { sessions = s ∷ t.sessions })

unfoldable pub fetch_session_by_token_hash : String → Tables → Result Session
fetch_session_by_token_hash h t = elim (find_row (has_hash h) t.sessions) [
  | none ↦ err row_not_found
  | some s ↦ ok s
]

unfoldable pub touch_session : String → ℕ → ℕ → Tables → Result (Unit {0}) × Tables
touch_session id last_seen_at expires_at t = (
  ok tt,
  record t {
    sessions =
        update_where (has_id id)
          (λ s. record s { last_seen_at = last_seen_at; expires_at = expires_at }) t.sessions;
  },
)

-- Which sessions a sweep deletes.
abbrev pub is_expired : ℕ → Session → Bool
is_expired now s = leb s.expires_at now

abbrev pub names_expired : ℕ → List Session → Option String → Bool
names_expired now ss none = false
names_expired now ss (some id) = exists_row (λ s. has_id id s && is_expired now s) ss

unfoldable pub delete_expired_sessions : ℕ → Tables → Result ℕ × Tables
delete_expired_sessions now t = (
  ok (count_where (is_expired now) t.sessions),
  record t {
    sessions = delete_where (is_expired now) t.sessions;
    deposits =
        update_where (λ d. names_expired now t.sessions d.session_id)
          (λ d. record d { session_id = none }) t.deposits;
    withdrawals =
        update_where (λ w. names_expired now t.sessions w.session_id)
          (λ w. record w { session_id = none }) t.withdrawals;
  },
)

-- Seven days.
abbrev pub event_retention : ℕ
event_retention = 604800 * second

unfoldable pub record_security_event : String → ℕ → Tables → Result (Unit {0}) × Tables
record_security_event kind now t = (
  ok tt,
  record t {
    security_events =
        delete_where (λ e. ltb e.created_at (now - event_retention))
          (record { kind = kind; created_at = now } ∷ t.security_events);
  },
)

unfoldable pub count_security_events_since : String → ℕ → Tables → ℕ
count_security_events_since kind since t =
    count_where (λ e. str_eq e.kind kind && leb since e.created_at) t.security_events
