-- ===== src/Http/Payments/Laws.antt =====
-- backend/src/http.rs, `submit_payment_request`: what an accepted payment has done.
use shuestand.Prelude.{
  String, ℕ, ◌+◌, ◌-◌, ◌≤◌, ◌<◌, ◌≡◌, refl, sym, subst, ap, ◌∙◌, arith, Option, none, some, Bool,
  false, find_row,
}
use shuestand.Failure.{ApiError, invalid_request, server_error, service_unavailable, Checked, pass}
use shuestand.Run.{lift}
use shuestand.Run.Holds.{
  Holds, Holds-pure, Holds-raise, Holds-lift, Holds-bind, Holds-given, Holds-passed, Ended,
}
use shuestand.Db.Tables.{Withdrawal, Tables, Result, ok, err, row_not_found}
use shuestand.Db.Withdrawals.{
  has_id, fetch_withdrawal, record_payment_request_token_locked, PaymentRequestRecordOutcome,
  recorded, not_accepting, capacity_exceeded, reserved_onchain_withdrawal_sats, reserved_amount,
  u64_max,
}
use shuestand.Http.Caps.{locked_solvent}
use shuestand.Http.Site.{Site, deny_if, denied, served, statement, selected, answered_of}
use shuestand.Http.Payments.{
  PaymentPayload, PaymentToken, PaymentAnswers, found, below, accepted, admissible,
  submit_payment_request,
}

fetched_row :
    (id : String) (t : Tables) (v w : Withdrawal)
    → fetch_withdrawal id t ≡ ok v
    → find_row (has_id id) t.withdrawals ≡ some w
    → v ≡ w
unfolding fetch_withdrawal
fetched_row id t v w = go (find_row (has_id id) t.withdrawals)
  where
    go :
        (o : Option Withdrawal)
        → ◌≡◌ {A = Result Withdrawal} (elim o [ none ↦ err row_not_found | some d ↦ ok d ]) (ok v)
        → o ≡ some w
        → v ≡ w
    go none e k = cc
    go (some d) e k = cc

-- What a payment that was accepted has done: it found the request, its amount is not below what was
-- requested, and the row was queued with the token in one transaction.
pub record Accepted (x : PaymentAnswers) (now : ℕ) (id : String) (before : Site) (amount : ℕ)
    (after : Site) : Type 0 where
  pub row : Withdrawal
  pub at : fetch_withdrawal id before.tables ≡ ok row
  pub enough : below row.requested_amount_sats amount ≡ false
  pub raw : ℕ
  pub has : x.balance ≡ some (some raw)
  pub encoded : String
  pub done :
      ◌≡◌ {A = Result PaymentRequestRecordOutcome × Tables}
        (record_payment_request_token_locked x.single_request_cap_ratio id encoded amount raw now
          before.tables)
        (ok recorded, after.tables)

module _ (x : PaymentAnswers) (now : ℕ) (id : String) (before : Site) where
  abbrev Here : Site → Type 0
  Here s = s ≡ before

  abbrev Any : Site → Type 0
  Any s = Unit {0}

  test-Holds :
      (b : Bool) (e : ApiError) → Holds Here (λ a s. (b ≡ false) × Here s) Any (deny_if b e)
  test-Holds b e = Holds-lift _ (λ a k s h. (passes b e k, h)) (λ s h. tt)
    where
      passes : (b : Bool) (e : ApiError) → denied b e ≡ pass tt → b ≡ false
      passes b e k = ground arith

  served-Holds :
      {A : Type 0} (o : Option A) (e : ApiError)
      → Holds Here (λ a s. (o ≡ some a) × Here s) Any (served o e)
  served-Holds none e = Holds-raise _ (λ s h. tt)
  served-Holds (some a) e = Holds-pure a (λ s h. (refl, h))

  kept-Holds : {A : Type 0} (r : Checked A) → Holds Here (λ a s. Here s) Any (lift r)
  kept-Holds r = Holds-lift r (λ a k s h. h) (λ s h. tt)

  admissible-Holds :
      (w : Withdrawal) (payload : PaymentPayload)
      → Holds Here (λ a s. Here s) Any (admissible x now w payload)
  unfolding admissible
  admissible-Holds w payload =
      Holds-bind (λ a s. Here s) _ _ (kept-Holds _)
        (λ a.
          Holds-bind (λ a s. Here s) _ _ (kept-Holds _)
            (λ b.
              Holds-bind (λ a s. Here s) _ _ (kept-Holds _)
                (λ c.
                  Holds-bind (λ a s. Here s) _ _ (kept-Holds _)
                    (λ d.
                      Holds-bind (λ a s. Here s) _ _ (kept-Holds _)
                        (λ e. Holds-bind (λ a s. Here s) _ _ (kept-Holds _) (λ f. kept-Holds _))))))

  found_row : (r : Result Withdrawal) (w : Withdrawal) → found r ≡ pass w → r ≡ ok w
  found_row (ok v) w e = ground arith
  found_row (err v) w e = cc

  selected-Holds :
      {A : Type 0} (f : Tables → A)
      → Holds Here (λ a s. (f before.tables ≡ a) × Here s) Any (selected f)
  unfolding selected
  selected-Holds f = record { leads = λ s h. (ap (λ (i : Site). f i.tables) (sym h), h) }

  abbrev Did : {A : Type 0} → (Tables → Result A × Tables) → A → Site → Type 0
  Did {A} st a s = ◌≡◌ {A = Result A × Tables} (st before.tables) (ok a, s.tables)

  statement_end :
      {A : Type 0} (st : Tables → Result A × Tables) (r : Result A) (t : Tables)
      → ◌≡◌ {A = Result A × Tables} (st before.tables) (r, t)
      → Ended (Did st) Any (answered_of r) (record before { tables = t })
  statement_end st (ok a) t e = e
  statement_end st (err e) t k = tt

  statement-Holds :
      {A : Type 0} (st : Tables → Result A × Tables) → Holds Here (Did st) Any (statement st)
  unfolding statement
  statement-Holds st = record {
    leads = λ s h.
        subst
          (λ (i : Site).
            Ended (Did st) Any (answered_of (st i.tables).0)
              (record i { tables = (st i.tables).1 }))
          (sym h) (statement_end st (st before.tables).0 (st before.tables).1 refl);
  }

  was_recorded : (o : PaymentRequestRecordOutcome) → accepted o ≡ pass tt → o ≡ recorded
  was_recorded recorded e = refl
  was_recorded not_accepting e = cc
  was_recorded capacity_exceeded e = cc

  abbrev recording : ℕ → PaymentToken → Tables → Result PaymentRequestRecordOutcome × Tables
  recording raw token =
      record_payment_request_token_locked x.single_request_cap_ratio id token.encoded token.amount
        raw now

  submit-Holds :
      (body : Option PaymentPayload)
      → Holds Here (Accepted x now id before) Any (submit_payment_request x now id body)
  unfolding submit_payment_request
  submit-Holds body = Holds-bind _ _ _ (served-Holds body invalid_request) (λ payload.
      Holds-given _ (λ parsed. Holds-bind _ _ _ (selected-Holds (fetch_withdrawal id)) (λ row.
        Holds-given _ (λ at.
          Holds-bind (λ w s. (row ≡ ok w) × Here s) _ _
            (Holds-lift _ (λ w k s h. (found_row row w k, h)) (λ s h. tt))
            (λ w. Holds-given _ (λ is_row.
              Holds-bind (λ a s. Here s) _ _ (admissible-Holds w payload)
                (λ a. Holds-bind _ _ _ (served-Holds (x.token_of payload) invalid_request) (λ token.
                  Holds-given _ (λ valued.
                    Holds-bind _ _ _ (served-Holds x.balance service_unavailable) (λ wallet.
                      Holds-given _ (λ has.
                        Holds-bind _ _ _ (served-Holds wallet server_error) (λ raw.
                          Holds-given _ (λ full. Holds-bind _ _ _ (test-Holds _ _) (λ b.
                            Holds-given _ (λ enough.
                              Holds-bind _ _ _ (statement-Holds _) (λ outcome.
                                Holds-bind
                                  (λ a s.
                                    (outcome ≡ recorded) × Did (recording raw token) outcome s)
                                  _ _
                                  (Holds-lift _ (λ a k s h. (was_recorded outcome k, h))
                                    (λ s h. tt))
                                  (λ c. Holds-given _ (λ is_recorded. Holds-pure _ (λ s h. record {
                                    row = w;
                                    at = at ∙ is_row;
                                    enough = enough;
                                    raw = raw;
                                    has = has ∙ ap some full;
                                    encoded = token.encoded;
                                    done = subst (λ o. Did (recording raw token) o s) is_recorded h;
                                  })))))))))))))))))))

module _ (x : PaymentAnswers) (now : ℕ) (id : String) (body : Option PaymentPayload) (before : Site)
    (amount : ℕ) (done : (submit_payment_request x now id body before).0 ≡ pass amount) where
  submitted : Accepted x now id before amount (submit_payment_request x now id body before).1
  submitted = Holds-passed _ (submit-Holds x now id before body) before refl amount done

  -- A payment that is accepted is not below what was requested, and moves no reservation: what is
  -- reserved in its place, beside all that the other withdrawals reserve, is covered by the on-chain
  -- balance. The amount is positive, the ratio scales no amount up, and the sums stay within u64.
  pub submit_solvent :
      0 < amount
      → ((n : ℕ) → x.single_request_cap_ratio n ≤ n)
      → reserved_onchain_withdrawal_sats before.tables + amount ≤ u64_max
      → (w : Withdrawal) × (find_row (has_id id) before.tables.withdrawals ≡ some w)
        × (raw : ℕ) × (x.balance ≡ some (some raw))
        × (below w.requested_amount_sats amount ≡ false)
        × (reserved_onchain_withdrawal_sats (submit_payment_request x now id body before).1.tables
            ≡ reserved_onchain_withdrawal_sats before.tables)
        × (reserved_onchain_withdrawal_sats before.tables - reserved_amount w + amount ≤ raw)
  submit_solvent pos shrinks fits =
      let a = submitted in
      let (w, at, same_reserve, covered) =
        locked_solvent x.single_request_cap_ratio id a.encoded amount a.raw now before.tables
          (submit_payment_request x now id body before).1.tables shrinks pos fits a.done in
      (
        w,
        at,
        a.raw,
        a.has,
        subst (λ (v : Withdrawal). below v.requested_amount_sats amount ≡ false)
            (fetched_row id before.tables a.row w a.at at) a.enough,
        same_reserve,
        covered,
      )
