-- ===== src/Http/Withdrawals/Guards.antt =====
-- backend/src/http.rs, `request_withdrawal`: the guards of the cap, and the funding of the row.
use shuestand.Prelude.{
  String, ℕ, ◌+◌, ◌^◌, ◌≤◌, ◌<◌, ◌≡◌, refl, ◌∙◌, ap, arith, ◌⊎◌, inl, inr, Option, none, some, [],
  ◌∷◌, ◌++◌, Bool, true, ltb, if◌then◌else◌, sum_where-snoc,
}
use shuestand.Failure.{ApiError, invalid_request, server_error, service_unavailable, pass}
use shuestand.Run.Holds.{
  Holds, Holds-pure, Holds-raise, Holds-lift, Holds-if, Holds-bind, Holds-given,
}
use shuestand.Db.States.Withdrawal.{queued, funding}
use shuestand.Db.Tables.{Withdrawal, Session, Tables}
use shuestand.Db.Withdrawals.{
  inserted, holds_reserve, reserved_amount, reserved_onchain_withdrawal_sats,
}
use shuestand.Http.Caps.{max_request_amount}
use shuestand.Http.Site.{Site, Settings, refuse, denied, served, selected}
use shuestand.Http.Site.Keeps.{Keeps, lift-Keeps, served-Keeps, detect_burst-Keeps, alert_if-Keeps}
use shuestand.Http.Withdrawals.{
  WithdrawalRequest, WithdrawalAnswers, checked_add, within_cap, watch_burst, fund_by_token,
  fund_by_request, fund_by_invoice, funded,
}

pub reserved_by :
    (s t : Tables)
    → s.withdrawals ≡ t.withdrawals
    → reserved_onchain_withdrawal_sats s ≡ reserved_onchain_withdrawal_sats t
unfolding reserved_onchain_withdrawal_sats
reserved_by s t e = ap (λ ws. reserved_onchain_withdrawal_sats (record t { withdrawals = ws })) e

counted : (b : Bool) (n m : ℕ) → b ≡ true → n ≡ m → (if b then n else 0) ≡ m
counted b n m e h = ground arith

-- A row that is inserted adds its amount to what is reserved.
pub inserted_reserved :
    (t : Tables) (w : Withdrawal) (amount : ℕ)
    → holds_reserve w ≡ true
    → reserved_amount w ≡ amount
    → reserved_onchain_withdrawal_sats (record t { withdrawals = t.withdrawals ++ inserted w ∷ [] })
      ≡ reserved_onchain_withdrawal_sats t + amount
unfolding reserved_onchain_withdrawal_sats inserted
inserted_reserved t w amount holds own =
    sum_where-snoc holds_reserve reserved_amount t.withdrawals (inserted w)
    ∙ ap (λ n. reserved_onchain_withdrawal_sats t + n) (counted _ _ _ holds own)

-- The cap that a request kept to.
abbrev pub Capped : Settings → WithdrawalAnswers → ℕ → Tables → Type 0
Capped settings x amount t =
    (raw : ℕ) × (x.balance ≡ some (some raw))
    × (amount
        ≤ max_request_amount settings.single_request_cap_ratio raw
            (reserved_onchain_withdrawal_sats t))

-- How a request is funded: by a token that is worth it, or by what is still to be paid.
abbrev pub Funding :
    Settings → WithdrawalAnswers → WithdrawalRequest → Option String → Withdrawal → Type 0
Funding settings x req token w =
    ((value : String) × (worth : ℕ) × (token ≡ some value)
      × (w.state ≡ queued)
      × (w.token ≡ some value)
      × (x.token_total_amount value ≡ some worth)
      × (req.amount_sats ≤ worth))
    ⊎ ((token ≡ none)
        × (w.state ≡ funding)
        × (w.token ≡ none)
        × (req.amount_sats + settings.withdrawal_fee_buffer_sats < 2 ^ 64))

-- A row that asks for the amount, and its funding.
abbrev pub Asks :
    Settings → WithdrawalAnswers → WithdrawalRequest → Option String → Withdrawal → Type 0
Asks settings x req token w =
    (w.requested_amount_sats ≡ some req.amount_sats)
    × (w.token_value_sats ≡ none)
    × Funding settings x req token w

checked_add-some : (a b n : ℕ) → checked_add a b ≡ some n → a + b < 2 ^ 64
checked_add-some a b n e = ground arith

module _ (t : Tables) {E : Site → Type 0}
    (weak : (s : Site) → s.tables.withdrawals ≡ t.withdrawals → E s) (settings : Settings)
    (x : WithdrawalAnswers) (now : ℕ) where
  abbrev F : Tables → Type 0
  F s = s.withdrawals ≡ t.withdrawals

  served-Holds :
      {A : Type 0} (o : Option A) (e : ApiError)
      → Holds (λ s. F s.tables) (λ a s. (o ≡ some a) × F s.tables) E (served o e)
  served-Holds none e = Holds-raise _ weak
  served-Holds (some a) e = Holds-pure a (λ s h. (refl, h))

  pub watch_burst-Keeps :
      (client : String) (session : Option Session)
      → Keeps F E (watch_burst settings x now client session)
  unfolding watch_burst
  watch_burst-Keeps client session =
      Holds-bind (λ a s. F s.tables) _ _ (detect_burst-Keeps F weak _ _ _)
        (λ count. alert_if-Keeps F weak _ _)

  capped :
      (raw spendable reserved amount : ℕ)
      → denied (ltb spendable amount) invalid_request ≡ pass tt
      → spendable ≡ reserved
      → amount ≤ reserved
  capped raw spendable reserved amount e same = ground arith

  pub within_cap-Holds :
      (req : WithdrawalRequest)
      → Holds
          (λ s. F s.tables)
          (λ a s. Capped settings x req.amount_sats t × F s.tables)
          E
          (within_cap settings x now req)
  unfolding within_cap selected
  within_cap-Holds req = Holds-bind _ _ _ (served-Holds x.balance service_unavailable) (λ wallet.
      Holds-given _ (λ has. Holds-bind _ _ _ (served-Holds wallet server_error) (λ raw.
        Holds-given _ (λ full.
          Holds-bind (λ n s. (n ≡ reserved_onchain_withdrawal_sats t) × F s.tables) _ _
            (record { leads = λ s h. (reserved_by s.tables t h, h) })
            (λ n. Holds-given _ (λ same.
              Holds-bind (λ a s. F s.tables) _ _ (lift-Keeps F weak _)
                (λ u.
                  Holds-lift _
                    (λ a e s h. (
                      (
                        raw,
                        has ∙ ap some full,
                        capped raw _ _ _ e
                            (ap (max_request_amount settings.single_request_cap_ratio raw) same),
                      ),
                      h,
                    ))
                    weak)))))))

  module _ (req : WithdrawalRequest) (base : Withdrawal)
      (asks : base.requested_amount_sats ≡ some req.amount_sats)
      (bare : base.token_value_sats ≡ none) (is_queued : base.state ≡ queued) where
    by_token :
        (value : String)
        → base.token ≡ some value
        → Holds
            (λ s. F s.tables)
            (λ w s. Asks settings x req (some value) w × F s.tables)
            E
            (fund_by_token settings x now req value base)
    by_token value carries =
        Holds-bind (λ a s. F s.tables) _ _ (served-Keeps F weak _ _)
          (λ url.
            Holds-bind _ _ _ (served-Holds (x.token_total_amount value) invalid_request) (λ worth.
              Holds-given _ (λ total.
                Holds-bind (λ a s. (req.amount_sats ≤ worth) × F s.tables) _ _
                  (Holds-lift _ (λ a e s h. (capped 0 _ _ _ e refl, h)) weak)
                  (λ u. Holds-given _ (λ enough.
                    Holds-bind (λ a s. F s.tables) _ _ (alert_if-Keeps F weak _ _)
                      (λ v. Holds-pure base (λ s h. (
                        (asks, bare, inl (value, worth, refl, is_queued, carries, total, enough)),
                        h,
                      ))))))))

    by_request :
        base.token ≡ none
        → Holds
            (λ s. F s.tables)
            (λ w s. Asks settings x req none w × F s.tables)
            E
            (fund_by_request settings x now req base)
    by_request empty =
        Holds-bind (λ a s. F s.tables) _ _ (served-Keeps F weak _ _)
          (λ mint.
            Holds-bind (λ a s. F s.tables) _ _ (served-Keeps F weak _ _)
              (λ url.
                Holds-bind _ _ _
                  (served-Holds (checked_add req.amount_sats settings.withdrawal_fee_buffer_sats)
                    invalid_request)
                  (λ amount. Holds-given _ (λ sum.
                    Holds-bind (λ a s. F s.tables) _ _ (served-Keeps F weak _ _)
                      (λ encoded. Holds-pure _ (λ s h. (
                        (asks, bare, inr (refl, refl, empty, checked_add-some _ _ amount sum)),
                        h,
                      )))))))

    by_invoice :
        base.token ≡ none
        → Holds
            (λ s. F s.tables)
            (λ w s. Asks settings x req none w × F s.tables)
            E
            (fund_by_invoice settings x now req base)
    by_invoice empty =
        Holds-bind (λ a s. F s.tables) _ _ (lift-Keeps F weak _)
          (λ u.
            Holds-bind _ _ _
              (served-Holds (checked_add req.amount_sats settings.withdrawal_fee_buffer_sats)
                invalid_request)
              (λ amount. Holds-given _ (λ sum.
                Holds-bind (λ a s. F s.tables) _ _ (record { leads = λ s h. h })
                  (λ v.
                    Holds-bind (λ a s. F s.tables) _ _ (served-Keeps F weak _ _)
                      (λ quote. Holds-pure _ (λ s h. (
                        (asks, bare, inr (refl, refl, empty, checked_add-some _ _ amount sum)),
                        h,
                      )))))))

    pub funded-Holds :
        (token : Option String)
        → base.token ≡ token
        → Holds
            (λ s. F s.tables)
            (λ w s. Asks settings x req token w × F s.tables)
            E
            (funded settings x now req base token)
    unfolding funded
    funded-Holds (some value) carries = by_token value carries
    funded-Holds none empty =
        Holds-if _ _ _ (λ e. by_request empty)
          (λ e.
            Holds-if req.create_lightning_invoice (fund_by_invoice settings x now req base)
              (refuse invalid_request) (λ k. by_invoice empty) (λ k. Holds-raise _ weak))
