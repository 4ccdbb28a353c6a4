-- ===== src/Monitor.antt =====
-- backend/src/main.rs, `monitor_float_levels`: the rounds of the task that watches the balances, posts
-- to the webhook, and drains the server when the float runs low. Ratios are an argument. Metrics and
-- the log are left out.
pub mod Alerts
pub mod Drain
use shuestand.Prelude.{
  String, ℕ, ◌+◌, ◌-◌, ◌*◌, min, ◌^◌, Option, none, some, List, [], ◌∷◌, Bool, true, false, ◌&&◌,
  ◌==◌, ltb, leb, if◌then◌else◌,
}
use shuestand.Prelude.Int.{ℤ, sub_ℕ}
use shuestand.Operations.{OperationMode, drain}
use shuestand.Db.Settings.{persist_operation_mode}
use shuestand.Db.Deposits.{reserved_cashu_deposit_sats}
use shuestand.Db.Withdrawals.{reserved_onchain_withdrawal_sats}
use shuestand.Http.Ledger.{BalanceSummary}
use shuestand.Http.Site.{Site, is_normal}

-- `f32` as it is used here: the quotient of two amounts, its order, and the product of an amount and
-- a ratio, rounded up.
pub record Ratios : Type 1 where
  pub Ratio : Type 0
  pub zero_ratio : Ratio
  pub quotient : ℕ → ℕ → Ratio
  pub le : Ratio → Ratio → Bool
  pub lt : Ratio → Ratio → Bool
  pub share : ℕ → Ratio → ℕ

pub data FloatBand : Type 0 where
  unknown ok low high : FloatBand

-- The derived `==`.
abbrev pub same_band : FloatBand → FloatBand → Bool
same_band unknown unknown = true
same_band ok ok = true
same_band low low = true
same_band high high = true
same_band _ _ = false

pub record WalletFloatStatus (Ratio : Type 0) : Type 0 where
  pub balance_sats : ℕ
  pub ratio : Ratio
  pub state : FloatBand
  pub updated_at : Option ℕ

pub data DriftState : Type 0 where
  triggered cleared : DriftState

-- What is posted to the webhook.
pub data Notice : Type 0 where
  float_band_change : String → FloatBand → ℕ → Notice
  -- The state, the effective total, the drift from the target, the change, and the total before.
  float_drift_alert : DriftState → ℕ → ℤ → ℤ → ℕ → Notice

-- The task's settings; `webhook` says whether one is configured.
pub record Limits (Ratio : Type 0) : Type 0 where
  pub target_sats : ℕ
  pub min_ratio : Ratio
  pub max_ratio : Ratio
  pub drift_alert_ratio : Ratio
  pub drift_alert_sats : ℕ
  pub auto_drain_threshold : ℕ
  pub webhook : Bool

-- The task's variables, what it posted, newest first, and the server it runs in.
pub record Monitor (Ratio : Type 0) : Type 0 where
  pub onchain : WalletFloatStatus Ratio
  pub cashu : WalletFloatStatus Ratio
  pub drift_alert_active : Bool
  pub last_effective_total_balance : Option ℕ
  pub notices : List Notice
  pub site : Site

-- What a round meets: a wallet that is not configured, whose call fails, or its balance; whether the
-- calls of the database are answered; and what other tasks do to the server while the mode is stored.
pub record Reading : Type 0 where
  pub onchain_wallet : Option (Option BalanceSummary)
  pub cashu_wallet : Option (Option ℕ)
  pub reserved_onchain_answered : Bool
  pub reserved_cashu_answered : Bool
  pub persist_answered : Bool
  pub before_commit : Site → Site
  pub after_commit : Site → Site
  pub now : ℕ

-- `config.withdrawal_min_sats.saturating_mul(2)`.
unfoldable pub auto_drain_threshold : ℕ → ℕ
auto_drain_threshold withdrawal_min_sats = min (withdrawal_min_sats * 2) (2 ^ 64 - 1)

abbrev pub onchain_balance : Option (Option BalanceSummary) → Option (Option ℕ)
onchain_balance none = none
onchain_balance (some none) = some none
onchain_balance (some (some summary)) = some (some (summary.confirmed + summary.trusted_pending))

abbrev pub posted : Bool → Notice → List Notice → List Notice
posted webhook notice notices = if webhook then notice ∷ notices else notices

-- `delta.unsigned_abs()`.
abbrev pub change : ℕ → ℕ → ℕ
change a b = (a - b) + (b - a)

-- The two reads of the mode, before and after it is stored, and the write.
unfoldable pub hold_drain : Site → Site
hold_drain s = if is_normal s.operation_mode then record s { operation_mode = drain } else s

unfoldable pub store_drain : Reading → Site → Site
unfolding hold_drain
store_drain r s =
    let asked = r.before_commit s in
    if r.persist_answered
    then hold_drain
        (r.after_commit (record asked { tables = (persist_operation_mode drain asked.tables).1 }))
    else r.after_commit asked

unfoldable pub auto_drain : ℕ → ℕ → Reading → Site → Site
auto_drain threshold total r s =
    if ltb 0 threshold && leb total threshold
    then (if is_normal s.operation_mode then store_drain r s else s)
    else s

module _ (ratios : Ratios) where
  open ratios use {Ratio, zero_ratio, quotient, le, lt, share}

  abbrev pub unknown_status : WalletFloatStatus Ratio
  unknown_status = record {
    balance_sats = 0;
    ratio = zero_ratio;
    state = unknown;
    updated_at = none;
  }

  unfoldable pub compute_ratio : ℕ → ℕ → Ratio
  compute_ratio balance_sats target_sats =
      if target_sats == 0 then zero_ratio else quotient balance_sats target_sats

  unfoldable pub classify_ratio : Ratio → Ratio → Ratio → FloatBand
  classify_ratio ratio min_ratio max_ratio =
      if le ratio zero_ratio
      then low
      else if lt ratio min_ratio
      then low
      else if lt max_ratio ratio
      then high
      else ok

  -- `compute_onchain_float` and `compute_cashu_float`, from the balance that the wallet answers.
  unfoldable pub compute_float : Limits Ratio → ℕ → Option (Option ℕ) → WalletFloatStatus Ratio
  compute_float limits now none = unknown_status
  compute_float limits now (some none) = unknown_status
  compute_float limits now (some (some balance)) =
      let ratio = compute_ratio balance limits.target_sats in
      record {
        balance_sats = balance;
        ratio = ratio;
        state = classify_ratio ratio limits.min_ratio limits.max_ratio;
        updated_at = some now;
      }

  module _ (limits : Limits Ratio) where
    -- The notice of a band that changed.
    abbrev pub band_notice :
        String → WalletFloatStatus Ratio → WalletFloatStatus Ratio → List Notice → List Notice
    band_notice wallet before after notices =
        if same_band after.state before.state
        then notices
        else posted limits.webhook (float_band_change wallet after.state after.balance_sats) notices

    unfoldable pub observe :
        WalletFloatStatus Ratio → WalletFloatStatus Ratio → Monitor Ratio → Monitor Ratio
    observe onchain cashu m = record m {
      onchain = onchain;
      cashu = cashu;
      notices =
          band_notice "cashu" m.cashu cashu (band_notice "onchain" m.onchain onchain m.notices);
    }

    abbrev pub threshold_sats : ℕ
    threshold_sats =
        if ltb 0 limits.drift_alert_sats
        then limits.drift_alert_sats
        else share limits.target_sats limits.drift_alert_ratio

    abbrev pub drift_notice : DriftState → ℕ → ℕ → Monitor Ratio → List Notice
    drift_notice state total previous m =
        posted limits.webhook
          (float_drift_alert state total (sub_ℕ limits.target_sats total) (sub_ℕ total previous)
            previous)
          m.notices

    -- The change since the last round, against the threshold.
    unfoldable pub watch_change : ℕ → ℕ → Monitor Ratio → Monitor Ratio
    watch_change total previous m =
        if leb threshold_sats (change total previous)
        then (if m.drift_alert_active then m else record m {
          drift_alert_active = true;
          notices = drift_notice triggered total previous m;
        })
        else if m.drift_alert_active
        then record m {
          drift_alert_active = false;
          notices = drift_notice cleared total previous m;
        }
        else m

    unfoldable pub watch_drift : ℕ → Monitor Ratio → Monitor Ratio
    unfolding watch_change
    watch_drift total m =
        let watched : Monitor Ratio = elim m.last_effective_total_balance [
          | none ↦ m
          | some previous ↦ watch_change total previous m
        ] in
        record watched { last_effective_total_balance = some total }

    -- What is reserved counts as nothing where the read fails.
    abbrev pub effective_total : ℕ → Reading → Site → ℕ
    effective_total total r s =
        let onchain : ℕ =
          if r.reserved_onchain_answered then reserved_onchain_withdrawal_sats s.tables else 0 in
        let cashu : ℕ =
          if r.reserved_cashu_answered then reserved_cashu_deposit_sats s.tables else 0 in
        total - onchain - cashu

    unfoldable pub drained : ℕ → Reading → Monitor Ratio → Monitor Ratio
    drained total r m = record m { site = auto_drain limits.auto_drain_threshold total r m.site }

    unfoldable pub round : Reading → Monitor Ratio → Monitor Ratio
    round r m =
        let onchain = compute_float limits r.now (onchain_balance r.onchain_wallet) in
        let cashu = compute_float limits r.now r.cashu_wallet in
        let total = onchain.balance_sats + cashu.balance_sats in
        drained total r (watch_drift (effective_total total r m.site) (observe onchain cashu m))

    unfoldable pub rounds : List Reading → Monitor Ratio → Monitor Ratio
    rounds [] m = m
    rounds (r ∷ rs) m = rounds rs (round r m)

    -- The task ends at once without a target.
    unfoldable pub monitor_float_levels : List Reading → Monitor Ratio → Monitor Ratio
    unfolding rounds
    monitor_float_levels rs m = if limits.target_sats == 0 then m else rounds rs m
