-- ===== src/Tests/Monitor.antt =====
-- The settings and the float's monitor at fixed inputs.
use shuestand.Operations.{from_str}
use shuestand.Prelude.{
  ℕ, ◌+◌, ◌*◌, ◌/◌, ◌≡◌, refl, arith, none, some, [], ◌∷◌, true, false, ltb, leb,
}
use shuestand.Operations.{normal, drain, halt}
use shuestand.Db.Settings.{load_operation_mode}
use shuestand.Http.Escalation.{set_operation_mode}
use shuestand.Monitor.{Ratios, Limits, Monitor, Reading, unknown_status, round, rounds}
use shuestand.Monitor.Alerts.{Paired, rounds-Paired}
use shuestand.Monitor.Drain.{
  Undisturbed, drained_mode, seen_balance, round_mode, unread_wallet_drains, halt_lost,
}
use shuestand.Tests.Data.{tables_of}

-- Ratios in percent.
abbrev percent : Ratios
percent = record {
  Ratio = ℕ;
  zero_ratio = 0;
  quotient = λ a b. a * 100 / b;
  le = leb;
  lt = ltb;
  share = λ a r. (a * r + 99) / 100;
}

abbrev limits : Limits ℕ
limits = record {
  target_sats = 500000;
  min_ratio = 50;
  max_ratio = 200;
  drift_alert_ratio = 10;
  drift_alert_sats = 0;
  auto_drain_threshold = 100000;
  webhook = true;
}

abbrev started : Monitor ℕ
started = record {
  onchain = unknown_status percent;
  cashu = unknown_status percent;
  drift_alert_active = false;
  last_effective_total_balance = none;
  notices = [];
  site = record {
    tables = record (tables_of [] []) { operation_mode = some "normal" };
    operation_mode = normal;
    buckets = λ key. [];
    alerts = [];
    quotes = [];
  };
}

-- The on-chain wallet does not answer, and the other holds 90 000.
abbrev unread : Reading
unread = record {
  onchain_wallet = some none;
  cashu_wallet = some (some 90000);
  reserved_onchain_answered = true;
  reserved_cashu_answered = true;
  persist_answered = true;
  before_commit = λ s. s;
  after_commit = λ s. s;
  now = 100;
}

unread-Undisturbed : Undisturbed unread
unread-Undisturbed = record { before = λ s. refl; after = λ s. refl; answered = refl }

rounds-Paired_example :
    Paired percent limits refl (rounds percent limits (unread ∷ unread ∷ []) started)
rounds-Paired_example = rounds-Paired percent limits refl (unread ∷ unread ∷ []) started tt

round_mode_example :
    let s' = (round percent limits unread started).site in
    (s'.operation_mode ≡ drained_mode 100000 (seen_balance unread) normal)
    × (load_operation_mode s'.tables ≡ drained_mode 100000 (seen_balance unread) normal)
unfolding load_operation_mode from_str
round_mode_example = round_mode percent limits unread started unread-Undisturbed refl

unread_wallet_drains_example :
    let s' = (round percent limits unread started).site in
    (s'.operation_mode ≡ drain) × (load_operation_mode s'.tables ≡ drain)
unfolding load_operation_mode from_str
unread_wallet_drains_example =
    unread_wallet_drains percent limits unread started unread-Undisturbed refl (omega arith)
      (omega arith) refl refl

-- An alert halts the server meanwhile.
abbrev overtaken : Reading
overtaken = record unread { before_commit = λ s. (set_operation_mode halt s).1 }

halt_lost_example :
    let s' = (round percent limits overtaken started).site in
    (s'.operation_mode ≡ halt) × (load_operation_mode s'.tables ≡ drain)
halt_lost_example =
    halt_lost percent limits overtaken started (λ s. refl) (λ s. refl) refl (omega arith)
      (omega arith) refl
