-- ===== src/Http/Withdrawals/Laws.antt =====
-- backend/src/http.rs, `request_withdrawal`: the row it adds, and what it reserves.
use shuestand.Prelude.{
  String, ℕ, ◌+◌, ◌-◌, ◌≤◌, ◌<◌, ◌≡◌, refl, sym, ◌∙◌, ap, subst, arith, inl, inr, Option, none,
  some, [], ◌∷◌, ◌++◌, Bool, true, false, ◌==◌, ltb, if◌then◌else◌, exists_row, Bool-cases,
}
use shuestand.Failure.{
  ApiError, invalid_request, service_unavailable, Failure, pass, fail, refused_with,
}
use shuestand.Run.Holds.{
  Ended, Holds, Holds-pure, Holds-lift, Holds-bind, Holds-given, Holds-passed, Holds-failed,
}
use shuestand.Db.States.Withdrawal.{queued, funding, broadcasting, confirming, one_of}
use shuestand.Db.Tables.{Withdrawal, Tables, Result, ok, err, unique_violation}
use shuestand.Db.Withdrawals.{
  insert_withdrawal, inserted, has_id, holds_reserve, reserved_amount,
  reserved_onchain_withdrawal_sats,
}
use shuestand.Http.Caps.{max_request_amount}
use shuestand.Http.Site.{
  Site, Settings, deny_if, denied, statement, require_normal, is_normal, answered_of,
}
use shuestand.Http.Site.Keeps.{session_of-Keeps}
use shuestand.Http.Withdrawals.{
  WithdrawalRequest, WithdrawalAnswers, token_raw, funding_variant_count, request_withdrawal,
}
use shuestand.Http.Withdrawals.Guards.{
  Capped, Funding, Asks, reserved_by, inserted_reserved, watch_burst-Keeps, within_cap-Holds,
  funded-Holds,
}

-- What a request that was answered has done: the mode allowed it, one way of funding was named, the
-- amount is within the cap, and one row was added that asks for it.
pub record Requested (settings : Settings) (x : WithdrawalAnswers) (req : WithdrawalRequest)
    (before : Site) (w : Withdrawal) (after : Site) : Type 0 where
  pub allowed : is_normal before.operation_mode ≡ true
  pub positive : 0 < req.amount_sats
  pub least : settings.withdrawal_min_sats ≤ req.amount_sats
  pub one_way : funding_variant_count (token_raw settings.trim req.token) req ≡ 1
  pub capped : Capped settings x req.amount_sats before.tables
  pub asks : Asks settings x req (token_raw settings.trim req.token) w
  pub added : after.tables.withdrawals ≡ before.tables.withdrawals ++ inserted w ∷ []

-- What a request that was refused leaves.
abbrev pub Untouched : Site → Site → Type 0
Untouched before after = after.tables.withdrawals ≡ before.tables.withdrawals

abbrev Sized : Settings → WithdrawalRequest → Type 0
Sized settings req = (0 < req.amount_sats) × (settings.withdrawal_min_sats ≤ req.amount_sats)

sized :
    (settings : Settings) (req : WithdrawalRequest)
    → denied (req.amount_sats == 0) invalid_request ≡ pass tt
    → denied (ltb req.amount_sats settings.withdrawal_min_sats) invalid_request ≡ pass tt
    → Sized settings req
sized settings req e k = ground arith

exactly_one :
    (n : ℕ)
    → denied (n == 0) invalid_request ≡ pass tt
    → denied (ltb 1 n) invalid_request ≡ pass tt
    → n ≡ 1
exactly_one n e k = ground arith

module _ (settings : Settings) (x : WithdrawalAnswers) (now : ℕ) (before : Site) where
  abbrev G : Tables → Type 0
  G t = t.withdrawals ≡ before.tables.withdrawals

  weak : (s : Site) → G s.tables → Untouched before s
  weak s h = h

  inserted_end :
      (b : Bool) (w : Withdrawal) (s : Site)
      → G s.tables
      → let r : Result (Unit {0}) × Tables =
          if b
          then (err unique_violation, s.tables)
          else (ok tt, record s.tables { withdrawals = s.tables.withdrawals ++ inserted w ∷ [] }) in
        Ended
          (λ a i. i.tables.withdrawals ≡ before.tables.withdrawals ++ inserted w ∷ [])
          (Untouched before)
          (answered_of r.0)
          (record s { tables = r.1 })
  inserted_end true w s h = h
  inserted_end false w s h = ap (λ ws. ws ++ inserted w ∷ []) h

  insert-Holds :
      (w : Withdrawal)
      → Holds
          (λ s. G s.tables)
          (λ a s. s.tables.withdrawals ≡ before.tables.withdrawals ++ inserted w ∷ [])
          (Untouched before)
          (statement (insert_withdrawal w))
  unfolding statement insert_withdrawal
  insert-Holds w = record {
    leads = λ s h. inserted_end (exists_row (has_id w.id) s.tables.withdrawals) w s h;
  }

  normal_end :
      (b : Bool)
      → Ended
          (λ a i. (b ≡ true) × G i.tables)
          (Untouched before)
          (if b then pass tt else fail (refused_with service_unavailable))
          before
  normal_end true = (refl, refl)
  normal_end false = refl

  require_normal-Holds :
      Holds
        (λ s. s ≡ before)
        (λ a s. (is_normal before.operation_mode ≡ true) × G s.tables)
        (Untouched before)
        require_normal
  unfolding require_normal
  require_normal-Holds = record {
    leads = λ s h.
        subst
          (λ i.
            Ended (λ a k. (is_normal before.operation_mode ≡ true) × G k.tables) (Untouched before)
              (if is_normal i.operation_mode
                then pass tt
                else fail (refused_with service_unavailable))
              i)
          (sym h) (normal_end (is_normal before.operation_mode));
  }

  test-Holds :
      (b : Bool) (e : ApiError)
      → Holds
          (λ s. G s.tables)
          (λ a s. (denied b e ≡ pass tt) × G s.tables)
          (Untouched before)
          (deny_if b e)
  test-Holds b e = Holds-lift _ (λ a k s h. (k, h)) weak

  request_withdrawal-Holds :
      (presented : Option (Option String)) (client : String) (req : WithdrawalRequest)
      → Holds
          (λ s. s ≡ before)
          (λ w s. Requested settings x req before w s)
          (Untouched before)
          (request_withdrawal settings x now presented client req)
  unfolding request_withdrawal
  request_withdrawal-Holds presented client req = Holds-bind _ _ _ require_normal-Holds (λ a.
      Holds-given _ (λ allowed. Holds-bind _ _ _ (test-Holds _ _) (λ b. Holds-given _ (λ positive.
        Holds-bind _ _ _ (test-Holds _ _) (λ c. Holds-given _ (λ least.
          Holds-bind _ _ _ (test-Holds _ _) (λ d. Holds-given _ (λ payee.
            Holds-bind _ _ _ (test-Holds _ _) (λ e. Holds-given _ (λ some_way.
              Holds-bind _ _ _ (test-Holds _ _) (λ f. Holds-given _ (λ one_way.
                Holds-bind _ _ _ (session_of-Keeps G weak (λ t ss h. h) _ _ _) (λ session.
                  Holds-bind _ _ _
                    (watch_burst-Keeps before.tables weak settings x now client session)
                    (λ g.
                      Holds-bind _ _ _ (within_cap-Holds before.tables weak settings x now req)
                        (λ i. Holds-given _ (λ cap.
                          Holds-bind _ _ _
                            (funded-Holds before.tables weak settings x now req _ refl refl refl _
                              refl)
                            (λ w. Holds-given _ (λ asks. Holds-bind _ _ _ (insert-Holds w) (λ j.
                              Holds-pure w (λ s h. record {
                                allowed = allowed;
                                positive = (sized settings req positive least).0;
                                least = (sized settings req positive least).1;
                                one_way = exactly_one _ some_way one_way;
                                capped = cap;
                                asks = asks;
                                added = h;
                              }))))))))))))))))))))

-- Either way of funding leaves a row that holds a reserve.
Funding-reserves :
    (settings : Settings) (x : WithdrawalAnswers) (req : WithdrawalRequest) (token : Option String)
    (w : Withdrawal)
    → Funding settings x req token w
    → holds_reserve w ≡ true
unfolding one_of
Funding-reserves settings x req token w (inl way) =
    ap (one_of (funding ∷ queued ∷ broadcasting ∷ confirming ∷ [])) way.3
Funding-reserves settings x req token w (inr way) =
    ap (one_of (funding ∷ queued ∷ broadcasting ∷ confirming ∷ [])) way.1

asks-amount :
    (w : Withdrawal) (amount : ℕ)
    → w.requested_amount_sats ≡ some amount
    → w.token_value_sats ≡ none
    → reserved_amount w ≡ amount
asks-amount w amount requested value = rw (value, requested) refl

module _ (settings : Settings) (x : WithdrawalAnswers) (now : ℕ) (before : Site)
    (presented : Option (Option String)) (client : String) (req : WithdrawalRequest) where
  -- A request that is answered was made in the normal mode, for an amount that is positive, not below
  -- the minimum and within the share of the balance that is not reserved, and named one way of
  -- funding. It added one row, for that amount, which is queued with a token worth at least that, or
  -- waits for its funding without one.
  pub request_withdrawal_answered :
      (w : Withdrawal)
      → (request_withdrawal settings x now presented client req before).0 ≡ pass w
      → Requested settings x req before w
          (request_withdrawal settings x now presented client req before).1
  request_withdrawal_answered w e =
      Holds-passed _ (request_withdrawal-Holds settings x now before presented client req) before
        refl w e

  -- A request that is refused leaves every withdrawal as it was.
  pub request_withdrawal_refused :
      (e : Failure)
      → (request_withdrawal settings x now presented client req before).0 ≡ fail e
      → Untouched before (request_withdrawal settings x now presented client req before).1
  request_withdrawal_refused e k =
      Holds-failed _ (request_withdrawal-Holds settings x now before presented client req) before
        refl e k

  -- Undisturbed, a request that is answered adds its amount to what is reserved, and all that is
  -- reserved then is covered by the on-chain balance. The ratio scales no amount up.
  pub request_withdrawal_alone :
      ((n : ℕ) → settings.single_request_cap_ratio n ≤ n)
      → (w : Withdrawal)
      → (request_withdrawal settings x now presented client req before).0 ≡ pass w
      → (raw : ℕ) × (x.balance ≡ some (some raw))
        × (reserved_onchain_withdrawal_sats
              (request_withdrawal settings x now presented client req before).1.tables
            ≡ reserved_onchain_withdrawal_sats before.tables + req.amount_sats)
        × (reserved_onchain_withdrawal_sats before.tables + req.amount_sats ≤ raw)
  unfolding max_request_amount
  request_withdrawal_alone shrinks w e =
      let r = request_withdrawal_answered w e in
      let t = before.tables in
      let (requested, bare, way) = r.asks in
      let (raw, has, cap) = r.capped in
      (
        raw,
        has,
        reserved_by _ (record t { withdrawals = t.withdrawals ++ inserted w ∷ [] }) r.added
            ∙ inserted_reserved t w req.amount_sats (Funding-reserves settings x req _ w way)
                (asks-amount w req.amount_sats requested bare),
        omega (arith, cap, r.positive, shrinks (raw - reserved_onchain_withdrawal_sats t)),
      )

  stored_reserved :
      (w : Withdrawal) (u u' : Tables)
      → Asks settings x req (token_raw settings.trim req.token) w
      → insert_withdrawal w u ≡ (ok tt, u')
      → reserved_onchain_withdrawal_sats u' ≡ reserved_onchain_withdrawal_sats u + req.amount_sats
  unfolding insert_withdrawal
  stored_reserved w u u' (requested, bare, way) e =
      elim (Bool-cases (exists_row (has_id w.id) u.withdrawals)) [
        | inl known ↦ absurd (cc (rw known at e))
        | inr new ↦
            ap (λ r. reserved_onchain_withdrawal_sats r.1) (sym (rw new at e))
            ∙ inserted_reserved u w req.amount_sats (Funding-reserves settings x req _ w way)
                (asks-amount w req.amount_sats requested bare)
      ]

  -- No lock is held between the reading of what is reserved and the storing of the row, so the row
  -- that a request answers may be stored in tables that other requests have changed. It then adds its
  -- amount to what is reserved there, and what is reserved exceeds the on-chain balance by at most
  -- what the others reserved in between; if they reserved nothing, it is covered. The ratio scales no
  -- amount up.
  pub request_withdrawal_solvent :
      ((n : ℕ) → settings.single_request_cap_ratio n ≤ n)
      → (w : Withdrawal)
      → (request_withdrawal settings x now presented client req before).0 ≡ pass w
      → (u u' : Tables) → insert_withdrawal w u ≡ (ok tt, u')
      → (raw : ℕ) × (x.balance ≡ some (some raw))
        × (reserved_onchain_withdrawal_sats u'
            ≡ reserved_onchain_withdrawal_sats u + req.amount_sats)
        × (reserved_onchain_withdrawal_sats u'
            ≤ raw
              + (reserved_onchain_withdrawal_sats u
                  - reserved_onchain_withdrawal_sats before.tables))
  request_withdrawal_solvent shrinks w e u u' stored =
      let added = stored_reserved w u u' (request_withdrawal_answered w e).asks stored in
      let (raw, has, same, covered) = request_withdrawal_alone shrinks w e in
      (raw, has, added, omega (arith, added, covered))
