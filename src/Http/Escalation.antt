-- ===== src/Http/Escalation.antt =====
-- backend/src/http.rs, `maybe_auto_switch_operation_mode`, the task that an alert spawns, and
-- backend/src/main.rs, `set_operation_mode`.
pub mod Laws
use shuestand.Prelude.{
  String, ℕ, ◌+◌, ◌-◌, ◌*◌, Bool, true, false, ◌||◌, ◌&&◌, leb, str_eq, if◌then◌else◌,
}
use shuestand.Failure.{Checked, pass, fail}
use shuestand.Run.{Run, lift, pure, raise, ◌>>=◌, ◌>>◌}
use shuestand.Operations.{OperationMode, normal, drain, halt}
use shuestand.Db.Tables.{second}
use shuestand.Db.Settings.{
  persist_operation_mode, record_security_event, count_security_events_since,
}
use shuestand.Http.Site.{Site, Handler, statement, selected}

abbrev pub burst_kind : String
burst_kind = "withdrawal_burst_detected"

abbrev pub ratio_kind : String
ratio_kind = "withdrawal_token_ratio_anomaly"

abbrev pub is_watched : String → Bool
is_watched kind = str_eq kind burst_kind || str_eq kind ratio_kind

abbrev pub escalation_window : ℕ
escalation_window = 600 * second

abbrev pub target_mode : ℕ → ℕ → OperationMode
target_mode bursts ratios =
    if leb 2 bursts || leb 2 ratios || (leb 1 bursts && leb 1 ratios) then halt else drain

-- Whether the current mode is kept, given the target.
abbrev pub keeps_mode : OperationMode → OperationMode → Bool
keeps_mode halt target = true
keeps_mode drain drain = true
keeps_mode drain halt = false
keeps_mode drain normal = false
keeps_mode normal target = false

abbrev pub same_mode : OperationMode → OperationMode → Bool
same_mode normal normal = true
same_mode drain drain = true
same_mode halt halt = true
same_mode _ _ = false

unfoldable pub current_operation_mode : Handler OperationMode
current_operation_mode s = (pass s.operation_mode, s)

abbrev pub hold_mode : OperationMode → Handler (Unit {0})
hold_mode next s = (pass tt, record s { operation_mode = next })

unfoldable pub set_operation_mode : OperationMode → Handler (Unit {0})
set_operation_mode next = do
  current ← current_operation_mode
  if same_mode current next
      then pure tt
      else (do statement (persist_operation_mode next); hold_mode next)

unfoldable pub maybe_auto_switch_operation_mode : String → ℕ → Handler (Unit {0})
maybe_auto_switch_operation_mode kind now =
    if is_watched kind
    then (do
      statement (record_security_event kind now)
      bursts ← selected (count_security_events_since burst_kind (now - escalation_window))
      ratios ← selected (count_security_events_since ratio_kind (now - escalation_window))
      let target = target_mode bursts ratios
      current ← current_operation_mode
      if keeps_mode current target then pure tt else set_operation_mode target)
    else pure tt
