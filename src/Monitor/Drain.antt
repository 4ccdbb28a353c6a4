-- ===== src/Monitor/Drain.antt =====
-- backend/src/main.rs: when the rounds of the float's monitor drain the server.
use shuestand.Prelude.{
  ℕ, ◌+◌, ◌≤◌, ◌<◌, ◌≡◌, refl, sym, ap, ◌∙◌, arith, Option, none, some, Bool, true, false, ◌&&◌,
  ltb, leb, if◌then◌else◌, Bool-cases, inl, inr,
}
use shuestand.Operations.{OperationMode, normal, drain, halt}
use shuestand.Db.Settings.{load_operation_mode, persist_operation_mode, load-persist}
use shuestand.Run.{◌>>=◌}
use shuestand.Http.Site.{Site, statement, is_normal}
use shuestand.Http.Escalation.{current_operation_mode, set_operation_mode}
use shuestand.Monitor.{
  Ratios, triggered, cleared, Limits, Monitor, Reading, change, hold_drain, store_drain, auto_drain,
  observe, threshold_sats, drift_notice, watch_change, watch_drift, drained, round, compute_float,
  onchain_balance,
}

abbrev pub balance_of : Option (Option ℕ) → ℕ
balance_of none = 0
balance_of (some none) = 0
balance_of (some (some balance)) = balance

-- A round that no other task interrupts, with a database that answers.
pub record Undisturbed (r : Reading) : Type 0 where
  pub before : (s : Site) → r.before_commit s ≡ s
  pub after : (s : Site) → r.after_commit s ≡ s
  pub answered : r.persist_answered ≡ true

-- What a round counts as the balance: nothing for a wallet that does not answer.
abbrev pub seen_balance : Reading → ℕ
seen_balance r = balance_of (onchain_balance r.onchain_wallet) + balance_of r.cashu_wallet

module _ (ratios : Ratios) (limits : Limits (ratios.Ratio)) where
  float-balance :
      (now : ℕ) (wallet : Option (Option ℕ))
      → (compute_float ratios limits now wallet).balance_sats ≡ balance_of wallet
  unfolding compute_float
  float-balance now none = refl
  float-balance now (some none) = refl
  float-balance now (some (some balance)) = refl

  watch_change-site :
      (total previous : ℕ) (m : Monitor (ratios.Ratio))
      → (watch_change ratios limits total previous m).site ≡ m.site
  unfolding watch_change
  watch_change-site total previous m =
      go (leb (threshold_sats ratios limits) (change total previous)) m.drift_alert_active
    where
      go :
          (far active : Bool)
          → let w : Monitor (ratios.Ratio) =
              if far
              then (if active then m else record m {
                drift_alert_active = true;
                notices = drift_notice ratios limits triggered total previous m;
              })
              else if active
              then record m {
                drift_alert_active = false;
                notices = drift_notice ratios limits cleared total previous m;
              }
              else m in
            w.site ≡ m.site
      go true true = refl
      go true false = refl
      go false true = refl
      go false false = refl

  watch_drift-site :
      (total : ℕ) (m : Monitor (ratios.Ratio)) → (watch_drift ratios limits total m).site ≡ m.site
  unfolding watch_drift
  watch_drift-site total m = go m.last_effective_total_balance
    where
      go :
          (last : Option ℕ)
          → let watched : Monitor (ratios.Ratio) = elim last [
            | none ↦ m
            | some previous ↦ watch_change ratios limits total previous m
          ] in
            watched.site ≡ m.site
      go none = refl
      go (some previous) = watch_change-site total previous m

  round-site :
      (r : Reading) (m : Monitor (ratios.Ratio))
      → (round ratios limits r m).site
        ≡ auto_drain limits.auto_drain_threshold (seen_balance r) r m.site
  unfolding round drained observe
  round-site r m =
      let onchain = float-balance r.now (onchain_balance r.onchain_wallet) in
      let cashu = float-balance r.now r.cashu_wallet in
      let seen : (compute_float ratios limits r.now (onchain_balance r.onchain_wallet)).balance_sats
            + (compute_float ratios limits r.now r.cashu_wallet).balance_sats
          ≡ seen_balance r =
        omega (arith, onchain, cashu) in
      ap (auto_drain limits.auto_drain_threshold _ r) (watch_drift-site _ _)
      ∙ ap (λ n. auto_drain limits.auto_drain_threshold n r m.site) seen

-- What a round makes of the mode.
abbrev pub drained_mode : ℕ → ℕ → OperationMode → OperationMode
drained_mode threshold balance mode =
    if ltb 0 threshold && leb balance threshold
    then (if is_normal mode then drain else mode)
    else mode

stored_drain :
    (r : Reading) (s : Site)
    → Undisturbed r
    → is_normal s.operation_mode ≡ true
    → (store_drain r s
        ≡ record s { tables = (persist_operation_mode drain s.tables).1; operation_mode = drain })
unfolding store_drain hold_drain
stored_drain r s u e =
    rw
      (
        u.answered,
        u.before s,
        u.after (record s { tables = (persist_operation_mode drain s.tables).1 }),
        e,
      )
      refl

auto_drain_mode :
    (threshold balance : ℕ) (r : Reading) (s : Site)
    → Undisturbed r
    → (let s' = auto_drain threshold balance r s in
        (s'.operation_mode ≡ drained_mode threshold balance s.operation_mode)
        × ((load_operation_mode s.tables ≡ s.operation_mode)
            → load_operation_mode s'.tables ≡ s'.operation_mode))
unfolding auto_drain
auto_drain_mode threshold balance r s u =
    elim (Bool-cases (ltb 0 threshold && leb balance threshold)) [
      | inl low ↦ elim (Bool-cases (is_normal s.operation_mode)) [
        | inl on ↦ rw (low, on, stored_drain r s u on) (refl, λ h. load-persist drain s.tables)
        | inr off ↦ rw (low, off) (refl, λ h. h)
      ]
      | inr enough ↦ rw enough (refl, λ h. h)
    ]

low_drains :
    (threshold balance : ℕ) (r : Reading) (s : Site)
    → (ltb 0 threshold && leb balance threshold) ≡ true
    → s.operation_mode ≡ normal
    → auto_drain threshold balance r s ≡ store_drain r s
unfolding auto_drain
low_drains threshold balance r s low on = rw (low, on) refl

halted :
    (s : Site) → s.operation_mode ≡ normal → (set_operation_mode halt s).1.operation_mode ≡ halt
unfolding set_operation_mode current_operation_mode statement persist_operation_mode ◌>>=◌
halted s on = rw on refl

overtaken :
    (r : Reading) (s : Site)
    → ((s : Site) → r.before_commit s ≡ (set_operation_mode halt s).1)
    → ((s : Site) → r.after_commit s ≡ s)
    → r.persist_answered ≡ true
    → s.operation_mode ≡ normal
    → ((store_drain r s).operation_mode ≡ halt)
      × (load_operation_mode (store_drain r s).tables ≡ drain)
unfolding store_drain hold_drain
overtaken r s halts quiet answered on =
    let asked = (set_operation_mode halt s).1 in
    let next : Site = record asked { tables = (persist_operation_mode drain asked.tables).1 } in
    rw (answered, halts s, quiet next, halted s on) (refl, load-persist drain asked.tables)

module _ (ratios : Ratios) (limits : Limits (ratios.Ratio)) (r : Reading)
    (m : Monitor (ratios.Ratio)) where
  -- A round that no other task disturbs drains the server exactly where it was normal and the balance
  -- that the wallets answer is at most the threshold, and leaves any other mode as it was, in memory
  -- and in the database, if the two agreed before.
  pub round_mode :
      Undisturbed r
      → load_operation_mode m.site.tables ≡ m.site.operation_mode
      → (let mode =
            drained_mode limits.auto_drain_threshold (seen_balance r) m.site.operation_mode in
          let s' = (round ratios limits r m).site in
          (s'.operation_mode ≡ mode) × (load_operation_mode s'.tables ≡ mode))
  round_mode u agree =
      let (mode, kept) = auto_drain_mode limits.auto_drain_threshold (seen_balance r) r m.site u in
      rw (round-site ratios limits r m) (mode, kept agree ∙ mode)

  -- A call of the on-chain wallet that fails drains a normal server, whatever that wallet holds, where
  -- the ecash alone is at most the threshold; and the drain is stored.
  pub unread_wallet_drains :
      Undisturbed r
      → r.onchain_wallet ≡ some none
      → 0 < limits.auto_drain_threshold
      → balance_of r.cashu_wallet ≤ limits.auto_drain_threshold
      → m.site.operation_mode ≡ normal
      → load_operation_mode m.site.tables ≡ normal
      → (let s' = (round ratios limits r m).site in
          (s'.operation_mode ≡ drain) × (load_operation_mode s'.tables ≡ drain))
  unread_wallet_drains u unread enabled little on stored =
      let (mode, saved) = round_mode u (stored ∙ sym on) in
      let seen : seen_balance r ≡ balance_of r.cashu_wallet = rw unread (omega arith) in
      let low : (ltb 0 limits.auto_drain_threshold
            && leb (seen_balance r) limits.auto_drain_threshold)
          ≡ true =
        ground arith in
      let drains : drained_mode limits.auto_drain_threshold (seen_balance r) m.site.operation_mode
          ≡ drain =
        ap (drained_mode limits.auto_drain_threshold (seen_balance r)) on ∙ rw low refl in
      (mode ∙ drains, saved ∙ drains)

  -- Another task that halts the server between the first read of the mode and the commit of the drain
  -- leaves the server halted in memory and the drain stored, so that the halt is lost with the
  -- process.
  pub halt_lost :
      ((s : Site) → r.before_commit s ≡ (set_operation_mode halt s).1)
      → ((s : Site) → r.after_commit s ≡ s)
      → r.persist_answered ≡ true
      → 0 < limits.auto_drain_threshold
      → seen_balance r ≤ limits.auto_drain_threshold
      → m.site.operation_mode ≡ normal
      → (let s' = (round ratios limits r m).site in
          (s'.operation_mode ≡ halt) × (load_operation_mode s'.tables ≡ drain))
  halt_lost halts quiet answered enabled little on =
      let low : (ltb 0 limits.auto_drain_threshold
            && leb (seen_balance r) limits.auto_drain_threshold)
          ≡ true =
        ground arith in
      let (mode, stored) = overtaken r m.site halts quiet answered on in
      rw (round-site ratios limits r m, low_drains _ _ r m.site low on) (mode, stored)
