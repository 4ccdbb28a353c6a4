-- ===== src/Tests/Alerts.antt =====
-- The bursts and the escalation of backend/src/http.rs: a second event within the window halts.
use shuestand.Prelude.{◌+◌, ◌-◌, ◌≡◌, refl, arith, some, List, [], ◌∷◌, leb, if◌then◌else◌}
use shuestand.Failure.{pass}
use shuestand.Operations.{halt, drain, from_str}
use shuestand.Db.Settings.{load_operation_mode}
use shuestand.Http.Site.{Site, detect_burst}
use shuestand.Http.Bursts.{Call, after_calls, calls_since, detect_burst_counts}
use shuestand.Http.Escalation.{maybe_auto_switch_operation_mode}
use shuestand.Http.Escalation.Laws.{sterner, recent, escalate_sternest}
use shuestand.Tests.Data.{tables_of}

abbrev drained : Site
drained = record {
  tables = record (tables_of [] []) {
    security_events = record { kind = "withdrawal_burst_detected"; created_at = 900 } ∷ [];
    operation_mode = some "drain";
  };
  operation_mode = drain;
  buckets = λ key. [];
  alerts = [];
  quotes = [];
}

escalate_sternest_example :
    (maybe_auto_switch_operation_mode "withdrawal_token_ratio_anomaly" 1000
      drained).1.operation_mode
    ≡ sterner drain (if leb 1 (recent 1000 drained.tables) then halt else drain)
escalate_sternest_example = escalate_sternest "withdrawal_token_ratio_anomaly" 1000 drained refl

drained_agrees : load_operation_mode drained.tables ≡ drain
unfolding load_operation_mode from_str
drained_agrees = refl

abbrev calls : List Call
calls =
    record { bucket = "deposit:a"; now = 95 }
    ∷ record { bucket = "deposit:b"; now = 90 }
    ∷ record { bucket = "deposit:a"; now = 20 }
    ∷ []

detect_burst_counts_example :
    (detect_burst "deposit:a" 60 100 (after_calls (λ key. 60) calls drained)).0
    ≡ pass (calls_since "deposit:a" (100 - 60) calls + 1)
detect_burst_counts_example =
    detect_burst_counts (λ key. 60) drained (λ key. refl) calls "deposit:a" 100
      (omega arith, (omega arith, (omega arith, tt)))
