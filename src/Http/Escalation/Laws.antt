-- ===== src/Http/Escalation/Laws.antt =====
-- backend/src/http.rs: what a security event makes of the operation mode.
use shuestand.Prelude.{
  String, ℕ, ◌+◌, ◌-◌, ◌≤◌, ◌≡◌, refl, sym, ◌∙◌, ap, arith, inl, inr, Bool, true, false, ◌&&◌, ltb,
  leb, str_eq, if◌then◌else◌, List, [], ◌∷◌, count_where, delete_where, Bool-cases, eq_iff,
}
use shuestand.Run.{pure, ◌>>=◌}
use shuestand.Operations.{OperationMode, normal, drain, halt, as_str, from_str}
use shuestand.Db.Tables.{Tables, SecurityEvent}
use shuestand.Db.Settings.{
  persist_operation_mode, record_security_event, count_security_events_since, event_retention,
  load_operation_mode,
}
use shuestand.Http.Site.{Site, Handler, statement, selected}
use shuestand.Http.Escalation.{
  burst_kind, ratio_kind, is_watched, escalation_window, target_mode, keeps_mode,
  current_operation_mode, set_operation_mode, maybe_auto_switch_operation_mode,
}

-- The sterner of two modes.
abbrev pub sterner : OperationMode → OperationMode → OperationMode
sterner normal m = m
sterner drain normal = drain
sterner drain drain = drain
sterner drain halt = halt
sterner halt m = halt

-- How many watched events the window held before this one.
abbrev pub recent : ℕ → Tables → ℕ
recent now t =
    count_security_events_since burst_kind (now - escalation_window) t
    + count_security_events_since ratio_kind (now - escalation_window) t

abbrev counts : String → ℕ → SecurityEvent → Bool
counts kind since e = str_eq e.kind kind && leb since e.created_at

-- What the retention deletes is older than the window.
before_window : (b : Bool) (n : ℕ) → b ≡ false → n ≡ (if b then 1 else 0) + n
before_window b n e = ground arith

kept_count :
    (kind : String) (since cutoff : ℕ) (es : List SecurityEvent)
    → cutoff ≤ since
    → count_where (counts kind since) (delete_where (λ e. ltb e.created_at cutoff) es)
      ≡ count_where (counts kind since) es
unfolding count_where delete_where
kept_count kind since cutoff [] h = refl
kept_count kind since cutoff (e ∷ es) h =
    go (ltb e.created_at cutoff) refl (kept_count kind since cutoff es h)
  where
    go :
        (old : Bool)
        → ltb e.created_at cutoff ≡ old
        → count_where (counts kind since) (delete_where (λ e. ltb e.created_at cutoff) es)
          ≡ count_where (counts kind since) es
        → count_where (counts kind since) (
            let rest = delete_where (λ e. ltb e.created_at cutoff) es in
            if old then rest else e ∷ rest)
          ≡ (if counts kind since e then 1 else 0) + count_where (counts kind since) es
    go false at ih = ap (λ n. (if counts kind since e then 1 else 0) + n) ih
    go true at ih = ih ∙ before_window _ _ (out_of_window at)
      where
        out_of_window : ltb e.created_at cutoff ≡ true → counts kind since e ≡ false
        out_of_window at = ground arith

-- An event that is recorded adds one to the count of its kind.
recorded_count :
    (kind event : String) (now : ℕ) (t : Tables)
    → count_security_events_since kind
        (now - escalation_window)
        (record_security_event event now t).1
      ≡ (if str_eq event kind then 1 else 0)
        + count_security_events_since kind (now - escalation_window) t
unfolding count_security_events_since record_security_event count_where
recorded_count kind event now t =
    kept_count kind (now - escalation_window) (now - event_retention)
      (record { kind = event; created_at = now } ∷ t.security_events) (omega arith)
    ∙ ap (λ n. n + count_security_events_since kind (now - escalation_window) t) (ground arith)

target_halts :
    (event : String) (bursts ratios : ℕ)
    → is_watched event ≡ true
    → target_mode
        ((if str_eq event burst_kind then 1 else 0) + bursts)
        ((if str_eq event ratio_kind then 1 else 0) + ratios)
      ≡ (if leb 1 (bursts + ratios) then halt else drain)
target_halts event bursts ratios w = elim (Bool-cases (str_eq event burst_kind)) [
  | inl e ↦
      let other : str_eq event ratio_kind ≡ false =
        ap (λ k. str_eq k ratio_kind) ((eq_iff event burst_kind).0 e) in
      ground arith
  | inr e ↦ ground arith
]

abbrev aim : Bool → OperationMode
aim b = if b then halt else drain

-- The mode in memory, and the stored one where the two agreed before.
switched :
    (m : OperationMode) (b : Bool) (s : Site)
    → let s' = record s { operation_mode = m } in
      let m' : Handler (Unit {0}) =
        if keeps_mode m (aim b) then pure tt else set_operation_mode (aim b) in
      ((m' s').1.operation_mode ≡ sterner m (aim b))
      × ((load_operation_mode s.tables ≡ m)
          → load_operation_mode (m' s').1.tables ≡ sterner m (aim b))
unfolding set_operation_mode ◌>>=◌ current_operation_mode statement persist_operation_mode
    load_operation_mode as_str from_str
switched normal true s = (refl, λ h. refl)
switched normal false s = (refl, λ h. refl)
switched drain true s = (refl, λ h. refl)
switched drain false s = (refl, λ h. h)
switched halt true s = (refl, λ h. h)
switched halt false s = (refl, λ h. h)

module _ (kind : String) (now : ℕ) (s : Site) (watched : is_watched kind ≡ true) where
  abbrev after : Tables
  after = (record_security_event kind now s.tables).1

  escalated : maybe_auto_switch_operation_mode kind now s ≡ (
      let target =
        target_mode
          (count_security_events_since burst_kind (now - escalation_window) after)
          (count_security_events_since ratio_kind (now - escalation_window) after) in
      let m : Handler (Unit {0}) =
        if keeps_mode s.operation_mode target then pure tt else set_operation_mode target in
      m (record s { tables = after }))
  unfolding maybe_auto_switch_operation_mode ◌>>=◌ statement selected current_operation_mode
      record_security_event
  escalated = rw watched refl

  aimed :
      target_mode
        (count_security_events_since burst_kind (now - escalation_window) after)
        (count_security_events_since ratio_kind (now - escalation_window) after)
      ≡ aim (leb 1 (recent now s.tables))
  aimed =
      rw (recorded_count burst_kind kind now s.tables, recorded_count ratio_kind kind now s.tables)
        (target_halts kind _ _ watched)

  -- A watched event puts the mode to the sterner of what it was and of what the event asks for: halt
  -- if a watched event stood in the window before it, and drain if none did. No event relaxes it.
  pub escalate_sternest :
      (maybe_auto_switch_operation_mode kind now s).1.operation_mode
      ≡ sterner s.operation_mode (if leb 1 (recent now s.tables) then halt else drain)
  escalate_sternest =
      rw (escalated, aimed)
        (switched s.operation_mode (leb 1 (recent now s.tables)) (record s { tables = after })).0

load_recorded :
    (kind : String) (now : ℕ) (t : Tables)
    → load_operation_mode (record_security_event kind now t).1 ≡ load_operation_mode t
unfolding load_operation_mode record_security_event
load_recorded kind now t = refl

-- An event of any kind leaves the mode in memory and the stored one in agreement, if they agreed.
pub escalate_stored :
    (kind : String) (now : ℕ) (s : Site)
    → load_operation_mode s.tables ≡ s.operation_mode
    → load_operation_mode (maybe_auto_switch_operation_mode kind now s).1.tables
      ≡ (maybe_auto_switch_operation_mode kind now s).1.operation_mode
unfolding maybe_auto_switch_operation_mode pure
escalate_stored kind now s agree = elim (Bool-cases (is_watched kind)) [
  | inl watched ↦
      let next = record s { tables = (record_security_event kind now s.tables).1 } in
      let step = switched s.operation_mode (leb 1 (recent now s.tables)) next in
      rw (escalated kind now s watched, aimed kind now s watched)
        (step.1 (load_recorded kind now s.tables ∙ agree) ∙ sym step.0)
  | inr other ↦ rw other agree
]
