-- ===== src/Monitor/Alerts.antt =====
-- backend/src/main.rs: what the rounds of the float's monitor post.
use shuestand.Prelude.{
  String, ℕ, ◌≡◌, refl, sym, subst, ◌∙◌, Option, none, some, List, [], ◌∷◌, Bool, true, false,
  if◌then◌else◌, Bool-cases, inl, inr,
}
use shuestand.Monitor.{
  Ratios, WalletFloatStatus, same_band, DriftState, triggered, cleared, Notice, float_band_change,
  float_drift_alert, Limits, Monitor, Reading, band_notice, observe, drift_notice, watch_change,
  watch_drift, drained, round, rounds,
}

-- The alerts of a drift among what was posted, newest first.
abbrev pub drift_states : List Notice → List DriftState
drift_states [] = []
drift_states (float_band_change w b n ∷ ns) = drift_states ns
drift_states (float_drift_alert s a b c d ∷ ns) = s ∷ drift_states ns

-- They take turns from a first trigger; an alert is active where the last was a trigger.
abbrev pub TakeTurns : Bool → List DriftState → Type 0
TakeTurns false [] = Unit
TakeTurns true [] = ⊥
TakeTurns true (triggered ∷ ds) = TakeTurns false ds
TakeTurns true (cleared ∷ ds) = ⊥
TakeTurns false (cleared ∷ ds) = TakeTurns true ds
TakeTurns false (triggered ∷ ds) = ⊥

module _ (ratios : Ratios) (limits : Limits (ratios.Ratio)) (heard : limits.webhook ≡ true) where
  abbrev M : Type 0
  M = Monitor (ratios.Ratio)

  abbrev pub Paired : M → Type 0
  Paired m = TakeTurns m.drift_alert_active (drift_states m.notices)

  band-states :
      (wallet : String) (before after : WalletFloatStatus (ratios.Ratio)) (ns : List Notice)
      → drift_states (band_notice ratios limits wallet before after ns) ≡ drift_states ns
  band-states wallet before after ns = elim (Bool-cases (same_band after.state before.state)) [
    | inl e ↦ rw e refl
    | inr e ↦ rw (e, heard) refl
  ]

  observe-Paired :
      (onchain cashu : WalletFloatStatus (ratios.Ratio)) (m : M)
      → Paired m
      → Paired (observe ratios limits onchain cashu m)
  unfolding observe
  observe-Paired onchain cashu m h =
      subst (TakeTurns m.drift_alert_active)
        (sym
          (band-states "cashu" m.cashu cashu _ ∙ band-states "onchain" m.onchain onchain m.notices))
        h

  drift-states :
      (state : DriftState) (total previous : ℕ) (m : M)
      → drift_states (drift_notice ratios limits state total previous m)
        ≡ state ∷ drift_states m.notices
  drift-states state total previous m = rw heard refl

  -- What one comparison leaves, from the alert before it.
  turned :
      (far active : Bool) (total previous : ℕ) (m : M)
      → m.drift_alert_active ≡ active
      → Paired m
      → Paired (
          if far
          then (if active then m else record m {
            drift_alert_active = true;
            notices = drift_notice ratios limits triggered total previous m;
          })
          else if active
          then record m {
            drift_alert_active = false;
            notices = drift_notice ratios limits cleared total previous m;
          }
          else m)
  turned true true total previous m e h = h
  turned false false total previous m e h = h
  turned true false total previous m e h =
      subst (TakeTurns true) (sym (drift-states triggered total previous m))
        (subst (λ b. TakeTurns b (drift_states m.notices)) e h)
  turned false true total previous m e h =
      subst (TakeTurns false) (sym (drift-states cleared total previous m))
        (subst (λ b. TakeTurns b (drift_states m.notices)) e h)

  watch_change-Paired :
      (total previous : ℕ) (m : M) → Paired m → Paired (watch_change ratios limits total previous m)
  unfolding watch_change
  watch_change-Paired total previous m h = turned _ m.drift_alert_active total previous m refl h

  watch_drift-Paired : (total : ℕ) (m : M) → Paired m → Paired (watch_drift ratios limits total m)
  unfolding watch_drift
  watch_drift-Paired total m h = go m.last_effective_total_balance
    where
      go :
          (last : Option ℕ)
          → let watched : M = elim last [
            | none ↦ m
            | some previous ↦ watch_change ratios limits total previous m
          ] in
            Paired (record watched { last_effective_total_balance = some total })
      go none = h
      go (some previous) = watch_change-Paired total previous m h

  round-Paired : (r : Reading) (m : M) → Paired m → Paired (round ratios limits r m)
  unfolding round drained
  round-Paired r m h = watch_drift-Paired _ _ (observe-Paired _ _ m h)

  -- With a webhook, the drift alerts that any number of rounds post take turns: a trigger first, then
  -- a clearance, and so on, and the last one tells whether the alert is active. The rounds begin from
  -- a history that does so, as the empty one does.
  pub rounds-Paired : (rs : List Reading) (m : M) → Paired m → Paired (rounds ratios limits rs m)
  unfolding rounds
  rounds-Paired [] m h = h
  rounds-Paired (r ∷ rs) m h = rounds-Paired rs (round ratios limits r m) (round-Paired r m h)
